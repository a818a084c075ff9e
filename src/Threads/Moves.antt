-- ===== src/Threads/Moves.antt =====
-- The steps of threads in addPoint of include/hnsw.hpp, one by one, under the invariant.
use vector_search_engine.Base.{
  ℕ, zero, suc, ◌+◌, ◌*◌, ◌-◌, ◌%◌, ◌^◌, ◌≤◌, ◌<◌, List, ◌∷◌, none, some, length, get_or, set,
  replicate, ◌≡◌, refl, ap, sym, ◌∙◌, arith, length-set, length-replicate, get_or-set_self,
  get_or-set_ne, get_or-replicate,
}
use vector_search_engine.Platform.{Platform}
use vector_search_engine.Index.{Index, Label}
use vector_search_engine.Index.Labels.{no_label}
use vector_search_engine.Insert.{store, stored_vector}
use vector_search_engine.Threads.Kept.{
  SameSlots, SameSlots-refl, Untouched-SameSlots, mark-Untouched, unmark-Untouched,
  attach-Untouched,
}
use vector_search_engine.Threads.Invariant.{
  held, over, pending, pending-le, occupies, IsRun, Holds, Labels, counts, range-after,
  unique-after, labelled-after, few-after, quiet-IsRun,
}
use vector_search_engine.Threads.{
  noted, Phase, idle, checked, overfull, reserved, filled, named, leveled, Move, duplicate, check,
  reserve, overrun, give_back, fill, enter, draw_level, link, mark, unmark, System, phase, Turn,
  moves, Runs, here, later, after, count_down, at_rest,
}

pending-idle : (P : Platform) (n : ℕ) → pending (replicate {A = Phase P} n idle) ≡ 0
pending-idle P zero = refl
pending-idle P (suc n) = omega (arith, pending-idle P n)

length-count_down : (n : ℕ) → length (count_down n) ≡ n
length-count_down zero = refl
length-count_down (suc n) = ap suc (length-count_down n)

module _ {P : Platform} (s : System P) (h : IsRun s) (i : ℕ) (lt : i < length s.threads) where
  abbrev idx : Index P
  idx = s.index

  -- the threads that give an id back are not so many that the counter wraps
  small : (length s.given + pending s.threads < 2 ^ 32) × (pending s.threads ≤ length s.threads)
  small = (omega (arith, h.few, h.within, pending-le s.threads), pending-le s.threads)

  module _ (vec : List P.F) (label : Label) (here_p : phase s i ≡ checked vec label) where
    -- the index after `count_.fetch_add(1)`
    abbrev counted_up : Index P
    counted_up = record idx { count = (idx.count + 1) % 2 ^ 64 }

    labels-kept :
        (q : Phase P)
        → ((id : ℕ) (l : Label) → occupies q ≡ some (l, id) → get_or idx.labels id no_label ≡ l)
        → Labels s h i lt (checked vec label) here_p counted_up q
    labels-kept q new = (new, λ j id ne e. refl)

    reserve-IsRun :
        idx.count % 2 ^ 32 < idx.max_elements
        → IsRun (after s i counted_up (reserved vec label (idx.count % 2 ^ 32)))
    reserve-IsRun room =
        let id = idx.count % 2 ^ 32 in
        let q = reserved vec label id in
        let c = counts s h i lt (checked vec label) here_p counted_up q in
        let none_over : pending s.threads ≡ 0 = grind (arith, small, h.counted, h.full) in
        let next : id ≡ length s.given = omega (arith, small, h.counted) in
        let own : Holds s h i lt (checked vec label) here_p counted_up q = λ k e.
          let same : id ≡ k = cc in (omega arith, λ j e'. absurd (omega (arith, h.range j k e'))) in
        record {
          few = few-after s h i lt (checked vec label) here_p q;
          sized = h.sized;
          counted = omega (arith, small, h.counted);
          ordered = rw next (ap (◌∷◌ (length s.given)) h.ordered);
          within = omega arith;
          full = λ pos. absurd (omega (arith, h.full (omega arith)));
          range = range-after s h i lt (checked vec label) here_p counted_up q (omega arith) own;
          unique = unique-after s h i lt (checked vec label) here_p counted_up q own;
          labelled =
              labelled-after s h i lt (checked vec label) here_p counted_up q
                (labels-kept q (λ k l e. absurd (cc)));
        }

    overrun-IsRun : idx.max_elements ≤ idx.count % 2 ^ 32 → IsRun (after s i counted_up overfull)
    overrun-IsRun no_room =
        let c = counts s h i lt (checked vec label) here_p counted_up overfull in
        let own : Holds s h i lt (checked vec label) here_p counted_up overfull =
          λ k e. absurd (cc) in
        record {
          few = few-after s h i lt (checked vec label) here_p overfull;
          sized = h.sized;
          counted = omega (arith, small, h.counted);
          ordered = h.ordered;
          within = h.within;
          full = λ pos. grind (arith, small, h.counted, h.full, h.within);
          range =
              range-after s h i lt (checked vec label) here_p counted_up overfull (omega arith) own;
          unique = unique-after s h i lt (checked vec label) here_p counted_up overfull own;
          labelled =
              labelled-after s h i lt (checked vec label) here_p counted_up overfull
                (labels-kept overfull (λ k l e. absurd (cc)));
        }

  give_back-IsRun :
      phase s i ≡ overfull
      → IsRun (after s i (record idx { count = (idx.count + 2 ^ 64 - 1) % 2 ^ 64 }) idle)
  give_back-IsRun here_p =
      let r = record idx { count = (idx.count + 2 ^ 64 - 1) % 2 ^ 64 } in
      let c = counts s h i lt overfull here_p r idle in
      let own : Holds s h i lt overfull here_p r idle = λ k e. absurd (cc) in
      record {
        few = few-after s h i lt overfull here_p idle;
        sized = h.sized;
        counted = omega (arith, small, h.counted);
        ordered = h.ordered;
        within = h.within;
        full = λ pos. h.full (omega arith);
        range = range-after s h i lt overfull here_p r idle (omega arith) own;
        unique = unique-after s h i lt overfull here_p r idle own;
        labelled =
            labelled-after s h i lt overfull here_p r idle
              (λ k l e. absurd (cc), λ j id ne e. refl);
      }

  -- the index after the slot of an id was filled
  abbrev slot_filled : List P.F → Label → ℕ → Index P
  slot_filled vec label id = record idx {
    vectors = store idx.vectors (id * idx.dim) (stored_vector idx vec);
    labels = set idx.labels id label;
    deleted = set idx.deleted id 0;
  }

  fill-IsRun :
      (vec : List P.F) (label : Label) (id : ℕ)
      → phase s i ≡ reserved vec label id
      → IsRun (after s i (slot_filled vec label id) (filled label id))
  fill-IsRun vec label id here_p =
      let p = reserved vec label id in
      let r = slot_filled vec label id in
      let q = filled label id in
      let mine : held (phase s i) ≡ some id = ap held here_p in
      let below = h.range i id mine in
      let c = counts s h i lt p here_p r q in
      let own : Holds s h i lt p here_p r q = λ k e.
        (let same : id ≡ k = cc in
          (omega arith, λ j e'. h.unique i j id mine (e' ∙ ap some (sym same)))) in
      record {
        few = few-after s h i lt p here_p q;
        sized = rw length-set h.sized;
        counted = omega (arith, h.counted);
        ordered = h.ordered;
        within = h.within;
        full = λ pos. h.full (omega arith);
        range = range-after s h i lt p here_p r q (omega arith) own;
        unique = unique-after s h i lt p here_p r q own;
        labelled = labelled-after s h i lt p here_p r q (
          λ k l e.
              (let same : id ≡ k = cc in
                let same' : label ≡ l = cc in
                rw (← same, ← same')
                  (get_or-set_self idx.labels id label no_label
                    (omega (arith, h.sized, h.within)))),
          λ j k ne e.
              get_or-set_ne idx.labels id k label no_label
                (λ same. ne (h.unique i j k (mine ∙ ap some same) e)),
        );
      }

  -- a move that keeps what the thread holds
  pub still :
      (p q : Phase P) (r : Index P)
      → phase s i ≡ p
      → SameSlots idx r
      → noted q s.given ≡ s.given
      → over q ≡ over p
      → held q ≡ held p
      → occupies q ≡ occupies p
      → IsRun (after s i r q)
  still p q r e k given o hold occ = quiet-IsRun s h i lt p e r q (record {
    same = k;
    given = given;
    over_same = o;
    holds = λ id e. sym hold ∙ e;
    occupied = λ id l e. sym occ ∙ e;
  })

  pub move-IsRun :
      {p q : Phase P} {r : Index P} → phase s i ≡ p → Move s.index p r q → IsRun (after s i r q)
  move-IsRun e (duplicate label id found) =
      still idle idle idx e (SameSlots-refl idx) refl refl refl refl
  move-IsRun e (check {vec} {label} free) =
      still idle (checked vec label) idx e (SameSlots-refl idx) refl refl refl refl
  move-IsRun e (reserve {vec} {label} room) = reserve-IsRun vec label e room
  move-IsRun e (overrun {vec} {label} no_room) = overrun-IsRun vec label e no_room
  move-IsRun e give_back = give_back-IsRun e
  move-IsRun e (fill {vec} {label} {id}) = fill-IsRun vec label id e
  move-IsRun e (enter {label} {id}) =
      still (filled label id) (named label id) _ e
        (record { count = refl; max_elements = refl; labels = refl }) refl refl refl refl
  move-IsRun e (draw_level {label} {id}) =
      still (named label id) (leveled label id _) _ e
        (record { count = refl; max_elements = refl; labels = refl }) refl refl refl refl
  move-IsRun e (link {label} {id} {level} {r} run) =
      quiet-IsRun s h i lt (leveled label id level) e r idle (record {
        same = Untouched-SameSlots idx r (attach-Untouched idx id level r run);
        given = refl;
        over_same = refl;
        holds = λ k e. absurd (cc);
        occupied = λ k l e. absurd (cc);
      })
  move-IsRun e (mark label) =
      still idle idle _ e (Untouched-SameSlots idx _ (mark-Untouched idx label)) refl refl refl refl
  move-IsRun e (unmark label) =
      still idle idle _ e (Untouched-SameSlots idx _ (unmark-Untouched idx label)) refl refl refl
        refl

pub Turn-IsRun : {P : Platform} (s s' : System P) → IsRun s → Turn s s' → IsRun s'
Turn-IsRun s _ h (moves i lt m) = move-IsRun s h i lt refl m

pub Runs-IsRun : {P : Platform} (start s : System P) → IsRun start → Runs start s → IsRun s
Runs-IsRun start _ h here = h
Runs-IsRun start _ h (later {a} {b} runs step) = Turn-IsRun a b (Runs-IsRun start a h runs) step

pub at_rest-IsRun :
    {P : Platform} (idx : Index P) (n : ℕ)
    → length idx.labels ≡ idx.max_elements
    → idx.count ≤ idx.max_elements
    → idx.max_elements + n < 2 ^ 32
    → IsRun (at_rest idx n)
unfolding at_rest
at_rest-IsRun {P} idx n sized within few =
    let resting : (i : ℕ) → phase (at_rest idx n) i ≡ idle = λ i. get_or-replicate n i idle in
    record {
      few = rw length-replicate few;
      sized = sized;
      counted = omega (arith, length-count_down idx.count, pending-idle P n);
      ordered = rw length-count_down refl;
      within = rw length-count_down within;
      full = λ pos. absurd (omega (arith, pending-idle P n));
      range = λ i id e. absurd (let q : none ≡ some id = sym (ap held (resting i)) ∙ e in cc);
      unique = λ i j id e e'. absurd (let q : none ≡ some id = sym (ap held (resting i)) ∙ e in cc);
      labelled = λ i id label e.
          absurd (let q : none ≡ some (label, id) = sym (ap occupies (resting i)) ∙ e in cc);
    }
