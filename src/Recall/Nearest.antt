-- ===== src/Recall/Nearest.antt =====
-- What the search through all vectors finds: the k nearest rows.
use vector_search_engine.Base.{
  ℕ, zero, suc, ◌+◌, ◌≤◌, ◌<◌, true, false, ◌==◌, ltb, List, [], ◌∷◌, some, length, length-take,
  take, map, get_or, has, All, All-imp, All-take, All-zip, All-map, All-has, Pairs, ◌≡◌, refl, sym,
  ap, ◌∙◌, ◌⊎◌, inl, inr, Bool-cases, arith,
}
use vector_search_engine.Platform.{Platform, IsOrdered}
use vector_search_engine.Heap.{sort}
use vector_search_engine.Heap.Order.{IsLess, length-sort, All-sort, sort-IsQueue, has-sort}
use vector_search_engine.Shards.{Scored, scored_less}
use vector_search_engine.Recall.{unit, row_distance, score_rows, brute_force}

Pairs-take :
    {A : Type 0} (R : A → A → Type 0) (k : ℕ) (xs : List A) → Pairs R xs → Pairs R (take k xs)
Pairs-take R zero xs h = tt
Pairs-take R (suc k) [] h = tt
Pairs-take R (suc k) (x ∷ xs) h = (All-take (R x) k xs h.0, Pairs-take R k xs h.1)

module _ (P : Platform) where
  abbrev labels : List (Scored P) → List ℕ
  labels xs = map (λ x. x.label) xs

  -- In a ranked list a row is among the first k, or none of these is farther.
  has-take :
      (dist : ℕ → P.F) (k : ℕ) (xs : List (Scored P)) (i : ℕ)
      → Pairs (λ x y. scored_less P y x ≡ false) xs
      → All (λ x. x.distance ≡ dist x.label) xs
      → has i (labels xs) ≡ true
      → (has i (labels (take k xs)) ≡ true)
        ⊎ All (λ x. P.flt (dist i) x.distance ≡ false) (take k xs)
  unfolding scored_less
  has-take dist zero xs i q d m = inr tt
  has-take dist (suc k) [] i q d m = absurd (ground arith)
  has-take dist (suc k) (x ∷ xs) i q d m = elim (Bool-cases (x.label == i)) [
    | inl same ↦ inl (ground (arith, same))
    | inr other ↦
        let later : has i (labels xs) ≡ true = ground (arith, other) in
        elim (has-take dist k xs i q.1 d.1 later) [
          | inl found ↦ inl (ground (arith, found))
          | inr near ↦
              let close =
                All-imp _ (λ y. P.flt (dist y.label) x.distance ≡ false) xs
                  (λ y h. ap (λ e. P.flt e x.distance) (sym h.1) ∙ h.0)
                  (All-zip (λ y. P.flt y.distance x.distance ≡ false)
                    (λ y. y.distance ≡ dist y.label) xs q.0 d.1) in
              inr (
                All-has (λ j. P.flt (dist j) x.distance ≡ false) (labels xs) i
                    (All-map (λ (y : Scored P). y.label) (λ j. P.flt (dist j) x.distance ≡ false) xs
                      close)
                    later,
                near,
              )
        ]
  ]

scored_less-IsLess : (P : Platform) → IsOrdered P → IsLess (scored_less P)
unfolding scored_less
scored_less-IsLess P o = record {
  irrefl = λ a. o.irrefl a.distance;
  trans = λ a b c. o.trans a.distance b.distance c.distance;
  weak = λ a b c. o.weak a.distance b.distance c.distance;
}

module _ (P : Platform) (base : List P.F) (dim : ℕ) (client_ids : List ℕ) where
  -- a row with its distance and its client
  pub record IsRow (qn : List P.F) (n : ℕ) (x : Scored P) : Type 0 where
    pub exact : x.distance ≡ row_distance P base dim qn x.label
    pub client : x.client_id ≡ get_or client_ids x.label 0
    pub inside : x.label < n

  module _ (qn : List P.F) where
    length-score_rows : (n i : ℕ) → length (score_rows P base dim client_ids qn n i) ≡ n
    unfolding score_rows
    length-score_rows zero i = refl
    length-score_rows (suc n) i = ap suc (length-score_rows n (suc i))

    All-score_rows :
        (n i m : ℕ) → i + n ≤ m → All (IsRow qn m) (score_rows P base dim client_ids qn n i)
    unfolding score_rows
    All-score_rows zero i m le = tt
    All-score_rows (suc n) i m le = (
      record { exact = refl; client = refl; inside = omega arith },
      All-score_rows n (suc i) m (omega arith),
    )

    has-score_rows :
        (n i j : ℕ)
        → i ≤ j
        → j < i + n
        → has j (labels P (score_rows P base dim client_ids qn n i)) ≡ true
    unfolding score_rows
    has-score_rows zero i j le lt = absurd (omega arith)
    has-score_rows (suc n) i j le lt = elim (Bool-cases (i == j)) [
      | inl same ↦ ground (arith, same)
      | inr other ↦ ground (arith, has-score_rows n (suc i) j (ground arith) (omega arith))
    ]

  -- the k nearest of the rows, ranked; `i` is among them or none of them is farther
  pub record IsTruth (qn : List P.F) (n k i : ℕ) (xs : List (Scored P)) : Type 0 where
    pub size : length xs ≡ k
    pub rows : All (IsRow qn n) xs
    pub ranked : Pairs (λ x y. P.flt y.distance x.distance ≡ false) xs
    pub nearest :
        (has i (labels P xs) ≡ true)
        ⊎ All (λ x. P.flt (row_distance P base dim qn i) x.distance ≡ false) xs

  -- Where distances are ordered, for a k of at most the number n of rows the search through all
  -- vectors of shard_sim.cpp returns k rows below n, each with its client and its distance from
  -- the normalised query, the nearest first, and every row below n is among them or none of them
  -- is farther than it.
  pub brute_force-IsTruth :
      IsOrdered P
      → (n k i : ℕ) (query : List P.F) → k ≤ n
      → i < n
      → (xs : List (Scored P)) × (brute_force P base dim client_ids n query k ≡ some xs)
        × IsTruth (unit P dim (take dim query)) n k i xs
  unfolding brute_force scored_less
  brute_force-IsTruth o n k i query le lt =
      let qn = unit P dim (take dim query) in
      let rows = score_rows P base dim client_ids qn n 0 in
      let all = sort (scored_less P) rows in
      let are =
        All-sort (scored_less P) (IsRow qn n) rows (All-score_rows qn n 0 n (omega arith)) in
      let ranked = sort-IsQueue (scored_less P) rows (scored_less-IsLess P o) in
      let enough : ltb n k ≡ false = ground arith in
      (
        take k all,
        rw enough refl,
        record {
          size = omega (
            arith,
            length-take k all,
            length-sort (scored_less P) rows,
            length-score_rows qn n 0,
          );
          rows = All-take (IsRow qn n) k all are;
          ranked = Pairs-take (λ x y. P.flt y.distance x.distance ≡ false) k all ranked;
          nearest =
              has-take P (row_distance P base dim qn) k all i ranked
                (All-imp (IsRow qn n) (λ x. x.distance ≡ row_distance P base dim qn x.label) all
                  (λ x r. r.exact) are)
                (has-sort (λ (x : Scored P). x.label) (scored_less P) rows i
                  ∙ has-score_rows qn n 0 i (omega arith) (omega arith));
        },
      )
