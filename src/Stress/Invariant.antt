-- ===== src/Stress/Invariant.antt =====
-- The invariant of the writers of src/stress.cpp, and what an act has to say for it.
use vector_search_engine.Base.{
  ℕ, zero, suc, ◌+◌, ◌≤◌, ◌<◌, min, List, [], ◌∷◌, Option, none, some, ◌==◌, ==_iff, length, get_or,
  set, map, ◌≡◌, ◌≢◌, ◌⊎◌, refl, ap, sym, ◌∙◌, subst, arith, Bool-cases, inl, inr, length-map,
  get_or-set_self, get_or-set_ne,
}
use vector_search_engine.Platform.{Platform}
use vector_search_engine.Index.{Index, Label, find_id}
use vector_search_engine.Threads.{
  idle, checked, overfull, reserved, filled, named, leveled, phase, after, noted,
}
use vector_search_engine.Threads.Invariant.{IsRun}
use vector_search_engine.Stress.{
  Writer, fetching, called, inside, joined, crashed, Stress, writer, phase_of, acted, threads_of,
  stress_label,
}

abbrev pub Free : List (Label × ℕ) → ℕ → Type 0
Free ids i = find_id (stress_label i) ids ≡ none

abbrev Never : Type 0
Never = ◌≡◌ {A = ℕ} 1 0

module _ {P : Platform} where
  -- the number that a writer works on
  abbrev pub task : Writer P → Option ℕ
  task (called i) = some i
  task (inside i p) = some i
  task _ = none

  -- a writer that has a number and no slot yet
  abbrev pub slotless : Writer P → ℕ
  slotless (called i) = 1
  slotless (inside i (checked vec label)) = 1
  slotless _ = 0

  abbrev pub gone : Writer P → ℕ
  gone joined = 1
  gone _ = 0

  abbrev pub total : (Writer P → ℕ) → List (Writer P) → ℕ
  total f [] = 0
  total f (x ∷ xs) = f x + total f xs

  pub total-set :
      (f : Writer P → ℕ) (xs : List (Writer P)) (i : ℕ) (y : Writer P)
      → i < length xs
      → total f (set xs i y) + f (get_or xs i fetching) ≡ total f xs + f y
  total-set f [] i y lt = absurd (omega arith)
  total-set f (x ∷ xs) zero y lt = omega arith
  total-set f (x ∷ xs) (suc i) y lt = omega (arith, total-set f xs i y (omega arith))

  pub total-gone-le : (xs : List (Writer P)) → total gone xs ≤ length xs
  total-gone-le [] = omega arith
  total-gone-le (x ∷ xs) = let one : gone x ≤ 1 = ground arith in omega (arith, total-gone-le xs)

  -- what a writer may rely on: its number was taken, and until it enters the label it is free
  abbrev pub Fine : ℕ → ℕ → List (Label × ℕ) → Writer P → Type 0
  Fine n next ids fetching = Unit
  Fine n next ids (called i) = (i < next) × Free ids i
  Fine n next ids (inside i (checked vec l)) = (i < next) × Free ids i × (l ≡ stress_label i)
  Fine n next ids (inside i (reserved vec l id)) = (i < next) × Free ids i × (l ≡ stress_label i)
  Fine n next ids (inside i (filled l id)) = (i < next) × Free ids i × (l ≡ stress_label i)
  Fine n next ids (inside i (named l id)) = i < next
  Fine n next ids (inside i (leveled l id level)) = i < next
  Fine n next ids (inside i idle) = Never
  Fine n next ids (inside i overfull) = Never
  Fine n next ids joined = n ≤ next
  Fine n next ids crashed = Never

  pub Fine-task :
      (n next : ℕ) (ids : List (Label × ℕ)) (x : Writer P) (i : ℕ)
      → Fine n next ids x
      → task x ≡ some i
      → i < next
  Fine-task n next ids (called j) i h e = let q : j ≡ i = cc in omega (arith, h.0)
  Fine-task n next ids (inside j (checked vec l)) i h e = let q : j ≡ i = cc in omega (arith, h.0)
  Fine-task n next ids (inside j (reserved vec l id)) i h e =
      let q : j ≡ i = cc in omega (arith, h.0)
  Fine-task n next ids (inside j (filled l id)) i h e = let q : j ≡ i = cc in omega (arith, h.0)
  Fine-task n next ids (inside j (named l id)) i h e = let q : j ≡ i = cc in omega (arith, h)
  Fine-task n next ids (inside j (leveled l id level)) i h e =
      let q : j ≡ i = cc in omega (arith, h)
  Fine-task n next ids (inside j idle) i h e = absurd (omega (arith, h))
  Fine-task n next ids (inside j overfull) i h e = absurd (omega (arith, h))
  Fine-task n next ids crashed i h e = absurd (omega (arith, h))
  Fine-task n next ids fetching i h e = absurd (let q : none ≡ some i = e in cc)
  Fine-task n next ids joined i h e = absurd (let q : none ≡ some i = e in cc)

  pub Fine-later :
      (n next next' : ℕ) (ids ids' : List (Label × ℕ)) (x : Writer P)
      → next ≤ next'
      → ((i : ℕ) → task x ≡ some i → Free ids i → Free ids' i)
      → Fine n next ids x
      → Fine n next' ids' x
  Fine-later n next next' ids ids' fetching le keep h = tt
  Fine-later n next next' ids ids' (called i) le keep h = (omega (arith, h.0), keep i refl h.1)
  Fine-later n next next' ids ids' (inside i (checked vec l)) le keep h =
      (omega (arith, h.0), keep i refl h.1, h.2)
  Fine-later n next next' ids ids' (inside i (reserved vec l id)) le keep h =
      (omega (arith, h.0), keep i refl h.1, h.2)
  Fine-later n next next' ids ids' (inside i (filled l id)) le keep h =
      (omega (arith, h.0), keep i refl h.1, h.2)
  Fine-later n next next' ids ids' (inside i (named l id)) le keep h = omega arith
  Fine-later n next next' ids ids' (inside i (leveled l id level)) le keep h = omega arith
  Fine-later n next next' ids ids' (inside i idle) le keep h = h
  Fine-later n next next' ids ids' (inside i overfull) le keep h = h
  Fine-later n next next' ids ids' joined le keep h = omega arith
  Fine-later n next next' ids ids' crashed le keep h = h

pub record IsStress {P : Platform} (n : ℕ) (s : Stress P) : Type 0 where
  pub run : IsRun (threads_of s)
  pub room : s.index.max_elements ≡ n
  -- each number taken has a slot or a writer without one
  pub taken : length s.given + total slotless s.writers ≡ min s.next n
  pub bounded : s.next ≤ n + total gone s.writers
  pub fine : (w : ℕ) → Fine n s.next s.index.label_to_id (writer s w)
  pub distinct : (v w i : ℕ) → task (writer s v) ≡ some i → task (writer s w) ≡ some i → v ≡ w
  pub unseen : (i : ℕ) → s.next ≤ i → Free s.index.label_to_id i

module _ {P : Platform} (n : ℕ) (s : Stress P) (h : IsStress n s) (w : ℕ)
    (lt : w < length s.writers) (x : Writer P) (here_x : writer s w ≡ x) where
  -- the system of the threads after an act
  map-set :
      (xs : List (Writer P)) (i : ℕ) (y : Writer P)
      → map phase_of (set xs i y) ≡ set (map phase_of xs) i (phase_of y)
  map-set [] i y = refl
  map-set (x ∷ xs) zero y = refl
  map-set (x ∷ xs) (suc i) y = ap (◌∷◌ (phase_of x)) (map-set xs i y)

  phase-map :
      (xs : List (Writer P)) (i : ℕ)
      → get_or (map phase_of xs) i idle ≡ phase_of (get_or xs i fetching)
  phase-map [] i = refl
  phase-map (x ∷ xs) zero = refl
  phase-map (x ∷ xs) (suc i) = phase-map xs i

  pub phase-here : phase (threads_of s) w ≡ phase_of x
  phase-here = phase-map s.writers w ∙ ap phase_of here_x

  pub below : w < length (threads_of s).threads
  below = rw length-map lt

  module _ (r : Index P) (next : ℕ) (y : Writer P) where
    pub threads-acted : threads_of (acted s w r next y) ≡ after (threads_of s) w r (phase_of y)
    threads-acted = λ j. record {
      index = r;
      threads = map-set s.writers w y j;
      given = noted (phase_of y) s.given;
    }

    abbrev s' : Stress P
    s' = acted s w r next y

    -- the numbers and labels after an act
    pub record Acted : Type 0 where
      pub runs : IsRun (after (threads_of s) w r (phase_of y))
      pub room : r.max_elements ≡ n
      pub more : s.next ≤ next
      pub taken : length s'.given + total slotless s.writers + slotless y ≡ min next n + slotless x
      pub bounded : next + gone x ≤ n + total gone s.writers + gone y
      pub fine : Fine n next r.label_to_id y
      pub own : (i : ℕ) → task y ≡ some i → (task x ≡ some i) ⊎ (i ≡ s.next)
      pub keep : (i : ℕ) → (task x ≢ some i) → Free s.index.label_to_id i → Free r.label_to_id i

    writer-cases : (v : ℕ) → ((w ≡ v) × (writer s' v ≡ y)) ⊎ (w ≢ v) × (writer s' v ≡ writer s v)
    writer-cases v = elim (Bool-cases (w == v)) [
      | inl same ↦
          let k : w ≡ v = (==_iff w v).0 same in
          inl (k, ap (writer s') (sym k) ∙ get_or-set_self s.writers w y fetching lt)
      | inr other ↦
          let ne : w ≢ v = λ k. ground (arith, (==_iff w v).1 k) in
          inr (ne, get_or-set_ne s.writers w v y fetching ne)
    ]

    pub Acted-IsStress : Acted → IsStress n s'
    Acted-IsStress a =
        let fine_x : Fine n s.next s.index.label_to_id x =
          subst (Fine n s.next s.index.label_to_id) here_x (h.fine w) in
        let slots = total-set slotless s.writers w y lt in
        let left = total-set gone s.writers w y lt in
        let x_slot : slotless (writer s w) ≡ slotless x = ap slotless here_x in
        let x_gone : gone (writer s w) ≡ gone x = ap gone here_x in
        -- another writer has another number
        let other : (v i : ℕ) → w ≢ v → task (writer s v) ≡ some i → task y ≢ some i =
          λ v i ne e e'. elim (a.own i e') [
            | inl mine ↦ ne (h.distinct w v i (ap task here_x ∙ mine) e)
            | inr new ↦
                omega (arith, Fine-task n s.next s.index.label_to_id (writer s v) i (h.fine v) e)
          ] in
        record {
          run = subst IsRun (sym threads-acted) a.runs;
          room = a.room;
          taken = omega (arith, a.taken, slots, x_slot);
          bounded = omega (arith, a.bounded, left, x_gone);
          fine = λ v. elim (writer-cases v) [
            | inl (same, now) ↦ subst (Fine n next r.label_to_id) (sym now) a.fine
            | inr (ne, old) ↦ subst (Fine n next r.label_to_id) (sym old) (
                Fine-later n s.next next s.index.label_to_id r.label_to_id (writer s v) a.more
                  (λ i e free. a.keep i (λ e'. ne (h.distinct w v i (ap task here_x ∙ e') e)) free)
                  (h.fine v))
          ];
          distinct = λ v u i ev eu. elim (writer-cases v) [
            | inl (same, now) ↦ elim (writer-cases u) [
              | inl (same', now') ↦ sym same ∙ same'
              | inr (ne, old) ↦
                  absurd (other u i ne (ap task (sym old) ∙ eu) (ap task (sym now) ∙ ev))
            ]
            | inr (ne, old) ↦ elim (writer-cases u) [
              | inl (same', now') ↦
                  absurd (other v i ne (ap task (sym old) ∙ ev) (ap task (sym now') ∙ eu))
              | inr (ne', old') ↦
                  h.distinct v u i (ap task (sym old) ∙ ev) (ap task (sym old') ∙ eu)
            ]
          ];
          unseen = λ i le.
              a.keep i
                (λ e. omega (arith, a.more, Fine-task n s.next s.index.label_to_id x i fine_x e))
                (h.unseen i (omega (arith, a.more)));
        }
