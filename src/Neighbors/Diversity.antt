-- ===== src/Neighbors/Diversity.antt =====
-- The spread of selectNeighborsHeuristic: distances between what it keeps and what it discards.
use vector_search_engine.Base.{
  ◌≤◌, ◌⊎◌, ℕ, true, false, List, [], ◌∷◌, ◌++◌, map, length, All, Pairs, ◌≡◌,
}
use vector_search_engine.Platform.{Platform}
use vector_search_engine.Heap.{Cand}
use vector_search_engine.Neighbors.{second, too_close}

-- The third list has the elements of the first and of the second, each in their order.
pub data Merge {ℓ} {A : Type ℓ} : List A → List A → List A → Type ℓ where
  empty : Merge [] [] []
  keeps : {xs ys zs : List A} (x : A) → Merge xs ys zs → Merge (xs ++ x ∷ []) ys (zs ++ x ∷ [])
  drops : {xs ys zs : List A} (y : A) → Merge xs ys zs → Merge xs (ys ++ y ∷ []) (zs ++ y ∷ [])

module _ (P : Platform) (between : ℕ → ℕ → P.F) where
  -- the second is at least as far from the first as from the query
  abbrev pub Apart : Cand P → Cand P → Type 0
  Apart a b = P.flt (between b.1 a.1) b.0 ≡ false

  -- what a run of the loop over the candidates `examined` leaves
  pub record IsExamined (m : ℕ) (examined : List (Cand P)) (r : List ℕ × List (Cand P))
      : Type 0 where
    pub chosen : List (Cand P)
    pub merged : Merge chosen r.1 examined
    pub kept : r.0 ≡ map second chosen
    pub few : length r.0 ≤ m
    pub apart : Pairs Apart chosen
    pub close : All (λ c. too_close P between c r.0 ≡ true) r.1

  -- The candidates are examined from the first on, all of them unless as many as allowed are kept
  -- before. The examined ones are the chosen and the discarded, each in their order. The kept ids
  -- are those of the chosen, at most as many as allowed, which lie apart, and every discarded
  -- candidate is closer to some kept one than to the query.
  pub record IsSpread (m : ℕ) (cands : List (Cand P)) (r : List ℕ × List (Cand P)) : Type 0 where
    pub examined : List (Cand P)
    pub rest : List (Cand P)
    pub split : cands ≡ examined ++ rest
    pub stops : (rest ≡ []) ⊎ (length r.0 ≡ m)
    pub run : IsExamined m examined r
