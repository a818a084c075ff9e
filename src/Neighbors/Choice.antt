-- ===== src/Neighbors/Choice.antt =====
-- What selectNeighborsHeuristic returns: how many ids, which, and which one comes first.
use vector_search_engine.Base.{
  nil_of_length, ℕ, ◌≤◌, ◌<◌, min, Bool, false, List, [], ◌∷◌, ◌++◌, if◌then◌else◌, leb, length,
  map, ◌≡◌, ap, sym, ◌∙◌, arith, Bool-cases, List-cases, inl, inr, ◌⊎◌, All, All-imp, subst,
}
use vector_search_engine.Platform.{Platform, IsOrdered}
use vector_search_engine.Heap.{Cand, sort, emplace, pair_less}
use vector_search_engine.Heap.Order.{length-sort, IsQueue, sort-IsQueue, pair_less-IsLess}
use vector_search_engine.Neighbors.{second, spread, select_neighbors_heuristic}
use vector_search_engine.Neighbors.Selection.{
  occurs, ids, map-ids, length-ids, occurs-sort, spread-Splits, backfill-Fills,
}

module _ {ℓ} {A : Type ℓ} (less : A → A → Bool) (Q : A → Type 0) where
  All-of_emplace : (c : A) (h : List A) → All Q (emplace less c h) → Q c × All Q h
  unfolding emplace
  All-of_emplace c [] k = k
  All-of_emplace c (e ∷ h) k = elim (Bool-cases (less c e)) [
    | inl below ↦
        let k' = subst (λ b. All Q (if b then e ∷ emplace less c h else c ∷ e ∷ h)) below k in
        let r = All-of_emplace c h k'.1 in (r.0, (k'.0, r.1))
    | inr above ↦ subst (λ b. All Q (if b then e ∷ emplace less c h else c ∷ e ∷ h)) above k
  ]

pub All-of_sort {ℓ} :
    {A : Type ℓ} (less : A → A → Bool) (Q : A → Type 0) (cs : List A)
    → All Q (sort less cs)
    → All Q cs
unfolding sort
All-of_sort less Q [] h = tt
All-of_sort less Q (c ∷ cs) h =
    let r = All-of_emplace (λ a b. less b a) Q c (sort less cs) h in
    (r.0, All-of_sort less Q cs r.1)

-- the head of a sorted list is at least as near as every element
least :
    {P : Platform} (top : List (Cand P)) (c : Cand P) (rest : List (Cand P))
    → IsOrdered P
    → sort (pair_less P) top ≡ c ∷ rest
    → All (λ e. P.flt e.0 c.0 ≡ false) top
unfolding pair_less
least {P} top c rest o e =
    let Q = λ (y : Cand P). P.flt y.0 c.0 ≡ false in
    let q =
      subst (IsQueue (λ a b. pair_less P b a)) e
        (sort-IsQueue (pair_less P) top (pair_less-IsLess P o)) in
    All-of_sort (pair_less P) Q top (
      subst (All Q) (sym e)
        (o.irrefl c.0, All-imp (λ y. pair_less P y c ≡ false) Q rest (λ y h. ground arith) q.0))

module _ (P : Platform) (between : ℕ → ℕ → P.F) where
  -- the first id is that of a candidate that none of the others is nearer than
  abbrev pub StartsNearest : List (Cand P) → List ℕ → Type 0
  StartsNearest top r =
      (c : Cand P) × (tl : List ℕ) × (r ≡ c.1 ∷ tl) × All (λ e. P.flt e.0 c.0 ≡ false) top

  pub record Selects (top : List (Cand P)) (m : ℕ) (r : List ℕ) : Type 0 where
    pub size : length r ≡ min m (length top)
    pub none_new : (x : ℕ) → occurs x r ≤ occurs x (ids P top)
    pub nearest : (m ≡ 0) ⊎ (top ≡ []) ⊎ StartsNearest top r

  select-size-count :
      (top : List (Cand P)) (m : ℕ)
      → let r = select_neighbors_heuristic P between top m in
        (length r ≡ min m (length top)) × ((x : ℕ) → occurs x r ≤ occurs x (ids P top))
  unfolding select_neighbors_heuristic
  select-size-count top m =
      let cands = sort (pair_less P) top in
      let len = length-sort (pair_less P) top in
      elim (Bool-cases (leb (length cands) m)) [
        | inl few ↦
            rw (few, map-ids P cands)
              (
                ground (arith, length-ids P cands),
                λ x. omega (arith, occurs-sort P (pair_less P) x top),
              )
        | inr many ↦
            let t = spread-Splits P between m cands [] [] (omega arith) in
            let u =
              backfill-Fills P between m (spread P between m cands [] []).1
                (spread P between m cands [] []).0 t.most in
            rw many (
              ground (arith, t.all, u.size, t.most),
              λ x.
                  unfold occurs in
                  omega (arith, u.none_new x, t.none_new x, occurs-sort P (pair_less P) x top),
            )
      ]

  select-first :
      (top : List (Cand P)) (m : ℕ) (c : Cand P) (rest : List (Cand P))
      → 0 < m
      → sort (pair_less P) top ≡ c ∷ rest
      → (tl : List ℕ) × (select_neighbors_heuristic P between top m ≡ c.1 ∷ tl)
  unfolding select_neighbors_heuristic
  select-first top m c rest pos e = elim (Bool-cases (leb (length (c ∷ rest)) m)) [
    | inl few ↦ (map second rest, rw (e, few))
    | inr many ↦
        let one : leb m 0 ≡ false = ground arith in
        let t = spread-Splits P between m rest (c.1 ∷ []) [] (omega arith) in
        let u =
          backfill-Fills P between m (spread P between m rest (c.1 ∷ []) []).1
            (spread P between m rest (c.1 ∷ []) []).0 t.most in
        (
          t.prefix.0 ++ u.prefix.0,
          rw (e, many, spread, one) (u.prefix.1 ∙ ap (λ l. l ++ u.prefix.0) t.prefix.1),
        )
  ]

  -- Where distances are ordered, the selection has min(M, n) of the n candidates, no id more
  -- often than among the candidates, and where it is not empty it starts with a candidate that
  -- none of the others is nearer than.
  pub select_neighbors_heuristic-Selects :
      (top : List (Cand P)) (m : ℕ)
      → IsOrdered P
      → Selects top m (select_neighbors_heuristic P between top m)
  select_neighbors_heuristic-Selects top m o =
      let (size, count) = select-size-count top m in
      record {
        size = size;
        none_new = count;
        nearest = elim (List-cases (sort (pair_less P) top)) [
          | inl empty ↦
              inr (inl (nil_of_length top (sym (length-sort (pair_less P) top) ∙ ap length empty)))
          | inr (c, rest, e) ↦ elim (Bool-cases (leb m 0)) [
            | inl none ↦ inl (ground arith)
            | inr pos ↦
                let (tl, f) = select-first top m c rest (ground arith) e in
                inr (inr (c, tl, f, least top c rest o e))
          ]
        ];
      }
