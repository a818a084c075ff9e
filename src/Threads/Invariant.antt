-- ===== src/Threads/Invariant.antt =====
-- The invariant of threads in addPoint of include/hnsw.hpp: the counter, the ids given out, the slots
-- that the threads hold and the labels of these slots.
use vector_search_engine.Base.{
  ℕ, zero, suc, ◌+◌, ◌^◌, ◌≤◌, ◌<◌, List, [], ◌∷◌, Option, none, some, ◌==◌, ==_iff, length, get_or,
  set, ◌≡◌, ◌≢◌, ◌⊎◌, ap, sym, ◌∙◌, arith, Bool-cases, inl, inr, length-set, get_or-set_self,
  get_or-set_ne,
}
use vector_search_engine.Platform.{Platform}
use vector_search_engine.Index.{Index, Label}
use vector_search_engine.Index.Labels.{no_label}
use vector_search_engine.Threads.Kept.{SameSlots}
use vector_search_engine.Threads.{
  Phase, idle, checked, overfull, reserved, filled, named, leveled, System, phase, noted, after,
  count_down,
}

module _ {P : Platform} where
  -- the slot that a thread holds
  abbrev pub held : Phase P → Option ℕ
  held (reserved vec label id) = some id
  held (filled label id) = some id
  held (named label id) = some id
  held (leveled label id level) = some id
  held _ = none

  abbrev pub over : Phase P → ℕ
  over overfull = 1
  over _ = 0

  -- how many threads are about to give an id back
  abbrev pub pending : List (Phase P) → ℕ
  pending [] = 0
  pending (p ∷ ps) = over p + pending ps

  pending-set :
      (ps : List (Phase P)) (i : ℕ) (q : Phase P)
      → i < length ps
      → pending (set ps i q) + over (get_or ps i idle) ≡ pending ps + over q
  pending-set [] i q lt = absurd (omega arith)
  pending-set (p ∷ ps) zero q lt = omega arith
  pending-set (p ∷ ps) (suc i) q lt = omega (arith, pending-set ps i q (omega arith))

  pub pending-le : (ps : List (Phase P)) → pending ps ≤ length ps
  pending-le [] = omega arith
  pending-le (p ∷ ps) = let one : over p ≤ 1 = ground arith in omega (arith, pending-le ps)

  -- the label and the slot of a thread that has filled its slot
  abbrev pub occupies : Phase P → Option (Label × ℕ)
  occupies (filled label id) = some (label, id)
  occupies (named label id) = some (label, id)
  occupies (leveled label id level) = some (label, id)
  occupies _ = none

  occupies-held :
      (p : Phase P) (label : Label) (id : ℕ) → occupies p ≡ some (label, id) → held p ≡ some id
  occupies-held (filled l j) label id e = let q : j ≡ id = cc in ap some q
  occupies-held (named l j) label id e = let q : j ≡ id = cc in ap some q
  occupies-held (leveled l j level) label id e = let q : j ≡ id = cc in ap some q
  occupies-held idle label id e = absurd (cc)
  occupies-held (checked vec l) label id e = absurd (cc)
  occupies-held overfull label id e = absurd (cc)
  occupies-held (reserved vec l j) label id e = absurd (cc)

pub record IsRun {P : Platform} (s : System P) : Type 0 where
  pub few : s.index.max_elements + length s.threads < 2 ^ 32
  pub sized : length s.index.labels ≡ s.index.max_elements
  pub counted : s.index.count ≡ length s.given + pending s.threads
  -- the ids were given out in order, from 0 on
  pub ordered : s.given ≡ count_down (length s.given)
  pub within : length s.given ≤ s.index.max_elements
  -- while a thread is about to give an id back, every slot is taken
  pub full : 0 < pending s.threads → length s.given ≡ s.index.max_elements
  pub range : (i id : ℕ) → held (phase s i) ≡ some id → id < length s.given
  pub unique : (i j id : ℕ) → held (phase s i) ≡ some id → held (phase s j) ≡ some id → i ≡ j
  pub labelled :
      (i id : ℕ) (label : Label)
      → occupies (phase s i) ≡ some (label, id)
      → get_or s.index.labels id no_label ≡ label

module _ {P : Platform} (s : System P) (h : IsRun s) (i : ℕ) (lt : i < length s.threads)
    (p : Phase P) (here_p : phase s i ≡ p) where
  -- Thread i goes to phase `q` and the index becomes `r`.
  module _ (r : Index P) (q : Phase P) where
    abbrev s' : System P
    s' = after s i r q

    phase-cases : (j : ℕ) → ((i ≡ j) × (phase s' j ≡ q)) ⊎ (i ≢ j) × (phase s' j ≡ phase s j)
    phase-cases j = elim (Bool-cases (i == j)) [
      | inl same ↦
          let k : i ≡ j = (==_iff i j).0 same in
          inl (k, ap (phase s') (sym k) ∙ get_or-set_self s.threads i q idle lt)
      | inr other ↦
          let ne : i ≢ j = λ k. ground (arith, (==_iff i j).1 k) in
          inr (ne, get_or-set_ne s.threads i j q idle ne)
    ]

    pub counts : pending (set s.threads i q) + over p ≡ pending s.threads + over q
    counts = rw (← here_p) (pending-set s.threads i q lt)

    -- the slot of the thread after the move is new or was its own
    abbrev pub Holds : Type 0
    Holds =
        (id : ℕ)
        → held q ≡ some id
        → (id < length s'.given) × ((j : ℕ) → held (phase s j) ≡ some id → i ≡ j)

    pub range-after :
        length s.given ≤ length s'.given
        → Holds
        → (j id : ℕ) → held (phase s' j) ≡ some id
        → id < length s'.given
    range-after more own j id e = elim (phase-cases j) [
      | inl (same, now) ↦ (own id (ap held (sym now) ∙ e)).0
      | inr (ne, old) ↦ let lt = h.range j id (ap held (sym old) ∙ e) in omega arith
    ]

    pub unique-after :
        Holds → (j k id : ℕ) → held (phase s' j) ≡ some id → held (phase s' k) ≡ some id → j ≡ k
    unique-after own j k id ej ek = elim (phase-cases j) [
      | inl (same, now) ↦ elim (phase-cases k) [
        | inl (same', now') ↦ sym same ∙ same'
        | inr (ne, old) ↦ sym same ∙ (own id (ap held (sym now) ∙ ej)).1 k (ap held (sym old) ∙ ek)
      ]
      | inr (ne, old) ↦ elim (phase-cases k) [
        | inl (same', now') ↦
            sym ((own id (ap held (sym now') ∙ ek)).1 j (ap held (sym old) ∙ ej)) ∙ same'
        | inr (ne', old') ↦ h.unique j k id (ap held (sym old) ∙ ej) (ap held (sym old') ∙ ek)
      ]
    ]

    -- the labels of the slots, of the thread's and of the others'
    abbrev pub Labels : Type 0
    Labels =
        ((id : ℕ) (label : Label)
          → occupies q ≡ some (label, id)
          → get_or r.labels id no_label ≡ label)
        × ((j id : ℕ)
            → i ≢ j
            → held (phase s j) ≡ some id
            → get_or r.labels id no_label ≡ get_or s.index.labels id no_label)

    pub labelled-after :
        Labels
        → (j id : ℕ) (label : Label) → occupies (phase s' j) ≡ some (label, id)
        → get_or r.labels id no_label ≡ label
    labelled-after l j id label e = elim (phase-cases j) [
      | inl (same, now) ↦ l.0 id label (ap occupies (sym now) ∙ e)
      | inr (ne, old) ↦
          let e' = ap occupies (sym old) ∙ e in
          l.1 j id ne (occupies-held (phase s j) label id e') ∙ h.labelled j id label e'
    ]

  pub few-after : (q : Phase P) → s.index.max_elements + length (set s.threads i q) < 2 ^ 32
  few-after q = rw length-set h.few

  -- a move that gives out no id and changes no label
  pub record IsQuiet (r : Index P) (q : Phase P) : Type 0 where
    pub same : SameSlots s.index r
    pub given : noted q s.given ≡ s.given
    pub over_same : over q ≡ over p
    pub holds : (id : ℕ) → held q ≡ some id → held p ≡ some id
    pub occupied :
        (id : ℕ) (label : Label) → occupies q ≡ some (label, id) → occupies p ≡ some (label, id)

  quiet-Holds : (r : Index P) (q : Phase P) → IsQuiet r q → Holds r q
  quiet-Holds r q k id e =
      let mine : held (phase s i) ≡ some id = ap held here_p ∙ k.holds id e in
      (
        omega (arith, ap (λ g. length g) k.given, h.range i id mine),
        λ j e'. h.unique i j id mine e',
      )

  pub quiet-IsRun : (r : Index P) (q : Phase P) → IsQuiet r q → IsRun (after s i r q)
  quiet-IsRun r q k =
      let own = quiet-Holds r q k in
      let size : length (noted q s.given) ≡ length s.given = ap (λ g. length g) k.given in
      let n = counts r q in
      record {
        few = rw k.same.max_elements (few-after q);
        sized = rw (k.same.labels, k.same.max_elements) h.sized;
        counted = omega (arith, k.same.count, h.counted, k.over_same);
        ordered = k.given ∙ h.ordered ∙ ap (λ g. count_down (length g)) (sym k.given);
        within = omega (arith, k.same.max_elements, h.within);
        full = λ pos. omega (arith, k.same.max_elements, h.full (omega (arith, k.over_same)));
        range = range-after r q (omega arith) own;
        unique = unique-after r q own;
        labelled = labelled-after r q (
          λ id label e.
              ap (λ ls. get_or ls id no_label) k.same.labels
              ∙ h.labelled i id label (ap occupies here_p ∙ k.occupied id label e),
          λ j id ne e. ap (λ ls. get_or ls id no_label) k.same.labels,
        );
      }
