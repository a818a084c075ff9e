-- ===== src/Stress/Steps.antt =====
-- The steps of the writers of src/stress.cpp, one by one, under the invariant.
use vector_search_engine.Base.{
  length-map, ℕ, zero, suc, ◌+◌, ◌%◌, ◌^◌, ◌≤◌, ◌<◌, List, [], ◌∷◌, none, some, ◌==◌, length,
  get_or, map, ◌≡◌, ◌≢◌, refl, ap, sym, ◌∙◌, subst, arith, inl, inr, false,
}
use vector_search_engine.Platform.{Platform}
use vector_search_engine.Index.{Index, Label, find_id, assign_id, label_eq}
use vector_search_engine.Index.Labels.{find_id-assign_id}
use vector_search_engine.Threads.{
  Phase, idle, checked, overfull, reserved, filled, named, leveled, Move, duplicate, check, reserve,
  overrun, give_back, noted, after, fill, enter, draw_level, link, mark, unmark,
}
use vector_search_engine.Threads.Kept.{SameSlots-refl, attach-Untouched}
use vector_search_engine.Threads.Invariant.{IsRun, over, pending}
use vector_search_engine.Threads.Moves.{still, move-IsRun}
use vector_search_engine.Stress.{
  Writer, fetching, called, inside, joined, crashed, is_idle, Act, fetch, finish, begin, refuse, go,
  return, overflow, Stress, writer, phase_of, acted, threads_of, stress_label,
}
use vector_search_engine.Stress.Invariant.{
  slotless, total, total-gone-le, Free, Fine, IsStress, phase-here, below, Acted-IsStress,
}

module _ {P : Platform} (n next : ℕ) (ids : List (Label × ℕ)) where
  -- no writer is about to give an id back
  over-Fine : (x : Writer P) → Fine n next ids x → over (phase_of x) ≡ 0
  over-Fine fetching h = refl
  over-Fine (called i) h = refl
  over-Fine (inside i (checked vec l)) h = refl
  over-Fine (inside i (reserved vec l id)) h = refl
  over-Fine (inside i (filled l id)) h = refl
  over-Fine (inside i (named l id)) h = refl
  over-Fine (inside i (leveled l id level)) h = refl
  over-Fine (inside i idle) h = refl
  over-Fine (inside i overfull) h = absurd (omega (arith, h))
  over-Fine joined h = refl
  over-Fine crashed h = refl

  pub pending-Fine :
      (xs : List (Writer P))
      → ((w : ℕ) → Fine n next ids (get_or xs w fetching))
      → pending (map phase_of xs) ≡ 0
  pending-Fine [] h = refl
  pending-Fine (x ∷ xs) h = omega (arith, over-Fine x (h 0), pending-Fine xs (λ w. h (suc w)))

slotless-le :
    {P : Platform} (xs : List (Writer P)) (w : ℕ)
    → slotless (get_or xs w fetching) ≤ total slotless xs
slotless-le [] w = omega arith
slotless-le (x ∷ xs) zero = omega arith
slotless-le (x ∷ xs) (suc w) = omega (arith, slotless-le xs w)

module _ {P : Platform} (base : List P.F) (dim n : ℕ) (s : Stress P) (h : IsStress n s) (w : ℕ)
    (lt : w < length s.writers) where
  abbrev idx : Index P
  idx = s.index

  Fine-at : (x : Writer P) → writer s w ≡ x → Fine n s.next idx.label_to_id x
  Fine-at x e = subst (Fine n s.next idx.label_to_id) e (h.fine w)

  -- the counter does not wrap
  next_small : (s.next + 1) % 2 ^ 64 ≡ s.next + 1
  next_small =
      let len : length (map phase_of s.writers) ≡ length s.writers =
        length-map phase_of s.writers in
      omega (arith, h.bounded, h.room, h.run.few, total-gone-le s.writers)

  -- a writer with a number and no slot finds a free slot
  has_room :
      (i : ℕ) (vec : List P.F) (l : Label)
      → writer s w ≡ inside i (checked vec l)
      → idx.count % 2 ^ 32 < idx.max_elements
  has_room i vec l e =
      let one : slotless (writer s w) ≡ 1 = ap slotless e in
      omega (
        arith,
        h.taken,
        h.room,
        h.run.counted,
        h.run.few,
        slotless-le s.writers w,
        pending-Fine n s.next idx.label_to_id s.writers h.fine,
      )

  -- an act of a writer at its number that keeps the label map
  same_ids :
      (i : ℕ) (p q : Phase P) (e : writer s w ≡ inside i p) (r : Index P)
      → Move idx p r q
      → r.max_elements ≡ idx.max_elements
      → r.label_to_id ≡ idx.label_to_id
      → length (noted q s.given) + slotless (inside i q) ≡ length s.given + slotless (inside i p)
      → Fine n s.next idx.label_to_id (inside i q)
      → IsStress n (acted s w r s.next (inside i q))
  same_ids i p q e r m max ids slots fine =
      Acted-IsStress n s h w lt (inside i p) e r s.next (inside i q) record {
        runs =
            move-IsRun (threads_of s) h.run w (below n s h w lt (inside i p) e)
              (phase-here n s h w lt (inside i p) e) m;
        room = max ∙ h.room;
        more = omega arith;
        taken = omega (arith, h.taken);
        bounded = omega (arith, h.bounded);
        fine = subst (λ is. Fine n s.next is (inside i q)) (sym ids) fine;
        own = λ j mine. inl mine;
        keep = λ j ne free. ap (find_id (stress_label j)) ids ∙ free;
      }

  -- a label entered is free no longer, every other one stays as it was
  enter-keep :
      (i j id : ℕ)
      → i ≢ j
      → Free idx.label_to_id j
      → Free (assign_id (stress_label i) id idx.label_to_id) j
  unfolding label_eq
  enter-keep i j id ne free =
      let other : (i == j) ≡ false = ground (arith, ne) in
      find_id-assign_id (stress_label i) (stress_label j) id idx.label_to_id
      ∙ ground (arith, other, free)

  enter-IsStress :
      (i id : ℕ) (l : Label) (e : writer s w ≡ inside i (filled l id))
      → IsStress n (
          acted s w
            (record idx { label_to_id = assign_id l id idx.label_to_id })
            s.next
            (inside i (named l id)))
  enter-IsStress i id l e =
      let f = Fine-at (inside i (filled l id)) e in
      Acted-IsStress n s h w lt (inside i (filled l id)) e _ s.next (inside i (named l id)) record {
        runs =
            move-IsRun (threads_of s) h.run w (below n s h w lt (inside i (filled l id)) e)
              (phase-here n s h w lt (inside i (filled l id)) e) enter;
        room = h.room;
        more = omega arith;
        taken = omega (arith, h.taken);
        bounded = omega (arith, h.bounded);
        fine = f.0;
        own = λ j mine. inl mine;
        keep = λ j ne free.
            subst (λ k. Free (assign_id k id idx.label_to_id) j) (sym f.2)
              (enter-keep i j id (λ q. ne (ap some q)) free);
      }

  go-IsStress :
      (i : ℕ) {p q : Phase P} {r : Index P}
      → writer s w ≡ inside i p
      → is_idle p ≡ false
      → is_idle q ≡ false
      → Move idx p r q
      → IsStress n (acted s w r s.next (inside i q))
  go-IsStress i e busy busy' (duplicate l id found) = absurd (ground (arith, busy))
  go-IsStress i e busy busy' (check free) = absurd (ground (arith, busy))
  go-IsStress i e busy busy' (reserve {vec} {label} room) =
      let f = Fine-at (inside i (checked vec label)) e in
      same_ids i (checked vec label) (reserved vec label _) e _ (reserve room) refl refl
        (omega arith) f
  go-IsStress i e busy busy' (overrun {vec} {label} no_room) =
      absurd (omega (arith, has_room i vec label e))
  go-IsStress i e busy busy' give_back = absurd (ground (arith, busy'))
  go-IsStress i e busy busy' (fill {vec} {label} {id}) =
      let f = Fine-at (inside i (reserved vec label id)) e in
      same_ids i (reserved vec label id) (filled label id) e _ fill refl refl (omega arith) f
  go-IsStress i e busy busy' (enter {label} {id}) = enter-IsStress i id label e
  go-IsStress i e busy busy' (draw_level {label} {id}) =
      let f = Fine-at (inside i (named label id)) e in
      same_ids i (named label id) (leveled label id _) e _ draw_level refl refl (omega arith) f
  go-IsStress i e busy busy' (link run) = absurd (ground (arith, busy'))
  go-IsStress i e busy busy' (mark l) = absurd (ground (arith, busy))
  go-IsStress i e busy busy' (unmark l) = absurd (ground (arith, busy))

  -- the step of a thread that stays outside the index
  resting :
      (x : Writer P) (e : writer s w ≡ x)
      → phase_of x ≡ idle
      → IsRun (after (threads_of s) w idx idle)
  resting x e out =
      still (threads_of s) h.run w (below n s h w lt x e) idle idle idx
        (phase-here n s h w lt x e ∙ out) (SameSlots-refl idx) refl refl refl refl

  pub Act-IsStress :
      {x y : Writer P} {r : Index P} {next : ℕ}
      → writer s w ≡ x
      → Act base dim n idx s.next x r next y
      → IsStress n (acted s w r next y)
  Act-IsStress e (fetch room) = Acted-IsStress n s h w lt fetching e idx _ (called s.next) record {
    runs = resting fetching e refl;
    room = h.room;
    more = omega (arith, next_small);
    taken = omega (arith, h.taken, next_small);
    bounded = omega (arith, h.bounded, next_small);
    fine = (omega (arith, next_small), h.unseen s.next (omega arith));
    own = λ i q. inr (let q' : s.next ≡ i = cc in sym q');
    keep = λ i ne free. free;
  }
  Act-IsStress e (finish none_left) = Acted-IsStress n s h w lt fetching e idx _ joined record {
    runs = resting fetching e refl;
    room = h.room;
    more = omega (arith, next_small);
    taken = omega (arith, h.taken, next_small);
    bounded = omega (arith, h.bounded, next_small);
    fine = omega (arith, next_small);
    own = λ i q. absurd (cc);
    keep = λ i ne free. free;
  }
  Act-IsStress e (begin {i} free) =
      let f = Fine-at (called i) e in
      Acted-IsStress n s h w lt (called i) e idx s.next (inside i (checked _ (stress_label i)))
        record {
          runs =
              move-IsRun (threads_of s) h.run w (below n s h w lt (called i) e)
                (phase-here n s h w lt (called i) e) (check free);
          room = h.room;
          more = omega arith;
          taken = omega (arith, h.taken);
          bounded = omega (arith, h.bounded);
          fine = (f.0, f.1, refl);
          own = λ j mine. inl mine;
          keep = λ j ne free. free;
        }
  Act-IsStress e (refuse {i} id found) =
      let f = Fine-at (called i) e in
      let none_some : none ≡ some id = sym f.1 ∙ found in absurd (cc)
  Act-IsStress e (go {i} busy busy' m) = go-IsStress i e busy busy' m
  Act-IsStress e (return {i} {id} {level} {label} {r} run) =
      let x = inside i (leveled label id level) in
      let u = attach-Untouched idx id level r run in
      Acted-IsStress n s h w lt x e r s.next fetching record {
        runs =
            move-IsRun (threads_of s) h.run w (below n s h w lt x e) (phase-here n s h w lt x e)
              (link run);
        room = u.max_elements ∙ h.room;
        more = omega arith;
        taken = omega (arith, h.taken);
        bounded = omega (arith, h.bounded);
        fine = tt;
        own = λ j q. absurd (cc);
        keep = λ j ne free. ap (find_id (stress_label j)) u.ids ∙ free;
      }
  Act-IsStress e (overflow {i}) = absurd (omega (arith, Fine-at (inside i overfull) e))
