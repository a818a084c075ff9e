-- ===== src/Layer/Invariant.antt =====
-- The invariant of searchLayer, at `start` and over `offer`.
use vector_search_engine.Base.{
  ℕ, suc, ◌+◌, ◌≤◌, ◌<◌, max, Bool, true, false, ◌||◌, List, [], ◌∷◌, ltb, length, All, All-imp,
  ◌≡◌, ◌≢◌, refl, sym, ◌∙◌, ap, arith, Bool-cases, inl, inr, ◌⊎◌, ◌==◌, ==_iff,
}
use vector_search_engine.Platform.{Platform, IsOrdered}
use vector_search_engine.Visited.{VisitedList, test_and_set}
use vector_search_engine.Visited.Refinement.{IsValid, visits, unvisited, Tests, test_and_set-Tests}
use vector_search_engine.Heap.{Cand, farther_first, closer_first}
use vector_search_engine.Heap.Order.{All-emplace, IsQueue, length-emplace}
use vector_search_engine.Layer.{Layer, enter, offer, scan}
use vector_search_engine.Layer.Steps.{
  Distinct, push_result-IsQueue, push_result-Distinct, All-push_result, length-push_result,
}

-- a visited candidate with its true distance; `N` says which ids are nodes of the layer
pub record Found (P : Platform) (dist : ℕ → P.F) (N : ℕ → Type 0) (v : VisitedList) (c : Cand P)
    : Type 0 where
  pub exact : c.0 ≡ dist c.1
  pub node : N c.1
  pub seen : visits v c.1 ≡ true

module _ (P : Platform) (dist : ℕ → P.F) (links : ℕ → List ℕ) (admits : ℕ → Bool) (ef n : ℕ)
    (N : ℕ → Type 0) where
  pub record IsLayer (s : Layer P) : Type 0 where
    pub visited : IsValid n s.visited
    pub frontier : All (Found P dist N s.visited) s.frontier
    pub results : All (Found P dist N s.visited) s.results
    pub admitted : All (λ c. admits c.1 ≡ true) s.results
    pub ordered : IsQueue (farther_first P) s.results
    pub distinct : Distinct P s.results
    pub bound : length s.results ≤ max 1 ef

  -- what is still to be done
  abbrev pub work : Layer P → ℕ
  work s = unvisited s.visited + length s.frontier

  -- `visited` grows
  Found-grows :
      (v w : VisitedList) (i : ℕ) (cs : List (Cand P))
      → ((j : ℕ) → visits w j ≡ ((j == i) || visits v j))
      → All (Found P dist N v) cs
      → All (Found P dist N w) cs
  Found-grows v w i cs adds h =
      All-imp (Found P dist N v) (Found P dist N w) cs
        (λ c f. record { exact = f.exact; node = f.node; seen = ground (arith, adds c.1, f.seen) })
        h

  -- a candidate that was not visited differs from all that were
  pub apart :
      (v : VisitedList) (i : ℕ) (d : P.F) (cs : List (Cand P))
      → visits v i ≡ false
      → All (Found P dist N v) cs
      → All (λ y. i ≢ y.1) cs
  apart v i d cs new h =
      All-imp (Found P dist N v) (λ y. i ≢ y.1) cs
        (λ c f same. ground (arith, ap (visits v) same, f.seen)) h

  -- what `offer` does: nothing but the mark, or also an entry into the queues
  pub offer-cases :
      (s : Layer P) (i : ℕ)
      → let r = test_and_set s.visited i in
        let s' = record s { visited = r.1 } in
        (offer P dist links admits ef s i ≡ s')
        ⊎ (r.0 ≡ false)
          × (offer P dist links admits ef s i ≡ enter P dist links admits ef s' (dist i, i))
  unfolding offer
  offer-cases s i = elim (Bool-cases (test_and_set s.visited i).0) [
    | inl old ↦ inl (rw old)
    | inr new ↦ elim (Bool-cases (ltb (length s.results) ef || P.flt (dist i) s.worst)) [
      | inl near ↦ inr (new, rw (new, near))
      | inr far ↦ inl (rw (new, far))
    ]
  ]

  enter-IsLayer :
      (s : Layer P) (c : Cand P)
      → IsOrdered P
      → Found P dist N s.visited c
      → All (λ y. c.1 ≢ y.1) s.results
      → IsLayer s
      → IsLayer (enter P dist links admits ef s c)
  unfolding enter
  enter-IsLayer s c o f a h =
      let front =
        All-emplace (closer_first P) (Found P dist N s.visited) c s.frontier f h.frontier in
      elim (Bool-cases (admits c.1)) [
        | inl adm ↦ rw adm record {
          visited = h.visited;
          frontier = front;
          results = All-push_result P ef c s.results (Found P dist N s.visited) f h.results;
          admitted = All-push_result P ef c s.results (λ c. admits c.1 ≡ true) adm h.admitted;
          ordered = push_result-IsQueue P ef c s.results o h.ordered;
          distinct = push_result-Distinct P ef c s.results a h.distinct;
          bound = length-push_result P ef c s.results h.bound;
        }
        | inr skip ↦ rw skip record {
          visited = h.visited;
          frontier = front;
          results = h.results;
          admitted = h.admitted;
          ordered = h.ordered;
          distinct = h.distinct;
          bound = h.bound;
        }
      ]

  length-enter :
      (s : Layer P) (c : Cand P)
      → length (enter P dist links admits ef s c).frontier ≡ suc (length s.frontier)
  unfolding enter
  length-enter s c = length-emplace (closer_first P) c s.frontier

  visited-enter :
      (s : Layer P) (c : Cand P) → (enter P dist links admits ef s c).visited ≡ s.visited
  unfolding enter
  visited-enter s c = refl

  module _ (o : IsOrdered P) (s : Layer P) (i : ℕ) (h : IsLayer s) (nd : N i) (lt : i < n) where
    tested : Tests n s.visited i (test_and_set s.visited i)
    tested = test_and_set-Tests n s.visited i h.visited lt

    marked : Layer P
    marked = record s { visited = (test_and_set s.visited i).1 }

    marked-IsLayer : IsLayer marked
    unfolding marked
    marked-IsLayer = record {
      visited = tested.valid;
      frontier = Found-grows s.visited _ i s.frontier tested.adds h.frontier;
      results = Found-grows s.visited _ i s.results tested.adds h.results;
      admitted = h.admitted;
      ordered = h.ordered;
      distinct = h.distinct;
      bound = h.bound;
    }

    found : Found P dist N (test_and_set s.visited i).1 (dist i, i)
    found = record {
      exact = refl;
      node = nd;
      seen = ground (arith, tested.adds i, (==_iff i i).1 refl);
    }

    pub offer-IsLayer : IsLayer (offer P dist links admits ef s i)
    unfolding marked
    offer-IsLayer = elim (offer-cases s i) [
      | inl e ↦ rw e marked-IsLayer
      | inr (new, e) ↦ rw e (
          enter-IsLayer marked (dist i, i) o found
            (apart s.visited i (dist i) s.results (sym tested.answer ∙ new) h.results)
            marked-IsLayer)
    ]

    pub work-offer : work (offer P dist links admits ef s i) ≤ work s
    unfolding marked
    work-offer = elim (offer-cases s i) [
      | inl e ↦ rw e (ground (arith, tested.left))
      | inr (new, e) ↦
          rw (e, visited-enter marked (dist i, i), length-enter marked (dist i, i))
            (ground (arith, tested.left))
    ]

  module _ (o : IsOrdered P) (bound : (i : ℕ) → N i → i < n) where
    pub scan-IsLayer :
        (s : Layer P) (is : List ℕ)
        → All N is
        → IsLayer s
        → IsLayer (scan P dist links admits ef s is)
          × (work (scan P dist links admits ef s is) ≤ work s)
    unfolding scan
    scan-IsLayer s [] lt h = (h, omega arith)
    scan-IsLayer s (i ∷ is) lt h =
        let (k, le) =
          scan-IsLayer (offer P dist links admits ef s i) is lt.1
            (offer-IsLayer o s i h lt.0 (bound i lt.0)) in
        (k, omega (arith, work-offer o s i h lt.0 (bound i lt.0)))
