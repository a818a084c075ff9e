-- ===== src/Layer/Room.antt =====
-- The results of searchLayer with room for every element: a node that is no result finds room.
use vector_search_engine.Base.{
  ℕ, ◌<◌, Bool, true, false, ◌&&◌, ◌||◌, List, [], ◌∷◌, map, ltb, length, length-map, All, All-imp,
  All-map, Pairs, has, All-has_not, length-below, ◌≡◌, ◌≢◌, refl, arith, Bool-cases, inl, inr, ◌==◌,
}
use vector_search_engine.Platform.{Platform}
use vector_search_engine.Visited.{VisitedList}
use vector_search_engine.Visited.Refinement.{visits}
use vector_search_engine.Heap.{Cand, emplace, farther_first}
use vector_search_engine.Heap.Order.{length-emplace, has-emplace}
use vector_search_engine.Layer.{Layer, enter, push_result}
use vector_search_engine.Layer.Steps.{Distinct}
use vector_search_engine.Layer.Invariant.{Found, IsLayer}

abbrev pub ids {ℓ} : {A : Type ℓ} → List (A × ℕ) → List ℕ
ids cs = map (λ c. c.1) cs

module _ (P : Platform) where
  ids-Pairs : (h : List (Cand P)) → Distinct P h → Pairs (λ x y. x ≢ y) (ids h)
  ids-Pairs [] d = tt
  ids-Pairs (c ∷ h) d = (All-map (λ (x : Cand P). x.1) (λ y. c.1 ≢ y) h d.0, ids-Pairs h d.1)

-- What a longer visited list keeps.
pub grows :
    (v w : VisitedList) (i : ℕ) (xs : List ℕ)
    → ((j : ℕ) → visits w j ≡ ((j == i) || visits v j))
    → All (λ j. visits v j ≡ true) xs
    → All (λ j. visits w j ≡ true) xs
grows v w i xs adds h =
    All-imp (λ j. visits v j ≡ true) (λ j. visits w j ≡ true) xs (λ j e. ground (arith, adds j)) h

module _ (P : Platform) (dist : ℕ → P.F) (links : ℕ → List ℕ) (admits : ℕ → Bool) (ef : ℕ) where
  -- With room left, `enter` adds an admitted candidate and drops nothing.
  pub has-enter :
      (s : Layer P) (c : Cand P) (j : ℕ)
      → length s.results < ef
      → has j (ids (enter P dist links admits ef s c).results)
        ≡ ((admits c.1 && (c.1 == j)) || has j (ids s.results))
  unfolding enter push_result
  has-enter s c j room =
      let size = length-emplace (farther_first P) c s.results in
      let fits : ltb ef (length (emplace (farther_first P) c s.results)) ≡ false =
        ground (arith, size) in
      elim (Bool-cases (admits c.1)) [
        | inl adm ↦
            rw (adm, fits) (has-emplace (λ (c : Cand P). c.1) (farther_first P) c s.results j)
        | inr skip ↦ rw skip refl
      ]

  module _ (n : ℕ) (N : ℕ → Type 0) (count : ℕ) (few : (i : ℕ) → N i → i < count) where
    -- A node that is no result leaves room for it.
    pub results-lt :
        (s : Layer P) (i : ℕ)
        → IsLayer P dist links admits ef n N s
        → N i
        → has i (ids s.results) ≡ false
        → length s.results < count
    results-lt s i h nd new = omega (
      arith,
      length-map (λ (c : Cand P). c.1) s.results,
      length-below count (i ∷ ids s.results)
          (All-has_not (ids s.results) i new, ids-Pairs P s.results h.distinct)
          (
            few i nd,
            All-map (λ (c : Cand P). c.1) (λ i. i < count) s.results
                (All-imp (Found P dist N s.visited) (λ c. c.1 < count) s.results
                  (λ c f. few c.1 f.node) h.results),
          ),
    )
