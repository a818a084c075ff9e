-- ===== src/Layer/Exhaustive.antt =====
-- searchLayer with room for every element: it misses no admitted node that links lead to.
use vector_search_engine.Base.{
  ℕ, ◌≤◌, ◌<◌, Bool, true, false, List, [], ◌∷◌, ltb, length, All, subst, All-imp, All-map, has,
  All-has, some, ◌≡◌, refl, sym, ◌∙◌, ap, arith, Bool-cases, inl, inr, ◌⊎◌, ◌==◌, ==_iff,
}
use vector_search_engine.Platform.{Platform, IsOrdered}
use vector_search_engine.Visited.{test_and_set}
use vector_search_engine.Visited.Refinement.{visits, Tests, test_and_set-Tests}
use vector_search_engine.Heap.{Cand, closer_first}
use vector_search_engine.Heap.Order.{has-emplace}
use vector_search_engine.Layer.{Layer, enter, offer, scan, next}
use vector_search_engine.Layer.Invariant.{Found, IsLayer, offer-IsLayer}
use vector_search_engine.Layer.Loop.{next-some}
use vector_search_engine.Layer.Room.{ids, grows, has-enter, results-lt}

-- the nodes that links lead to from the entry
pub data Linked (links : ℕ → List ℕ) (entry : ℕ) : ℕ → Type 0 where
  here : Linked links entry entry
  link : {i j : ℕ} → Linked links entry i → has j (links i) ≡ true → Linked links entry j

module _ (P : Platform) (dist : ℕ → P.F) (links : ℕ → List ℕ) (admits : ℕ → Bool) (ef n : ℕ)
    (N : ℕ → Type 0) (count : ℕ) (enough : count ≤ ef) (few : (i : ℕ) → N i → i < count) where
  -- the admitted nodes that were visited are results
  abbrev Covers : Layer P → Type 0
  Covers s = (i : ℕ) → visits s.visited i ≡ true → admits i ≡ true → has i (ids s.results) ≡ true

  -- a visited node waits in the frontier, is one of `X`, or has all its links visited
  abbrev Explores : (ℕ → Type 0) → Layer P → Type 0
  Explores X s =
      (i : ℕ)
      → visits s.visited i ≡ true
      → (has i (ids s.frontier) ≡ true) ⊎ X i ⊎ All (λ j. visits s.visited j ≡ true) (links i)

  pub record Gathers (X : ℕ → Type 0) (s : Layer P) : Type 0 where
    pub covers : Covers s
    pub explores : Explores X s

  module _ (X : ℕ → Type 0) (s : Layer P) (i : ℕ) (h : IsLayer P dist links admits ef n N s)
      (g : Gathers X s) (nd : N i) (lt : i < n) where
    tested : Tests n s.visited i (test_and_set s.visited i)
    tested = test_and_set-Tests n s.visited i h.visited lt

    marked : Layer P
    marked = record s { visited = (test_and_set s.visited i).1 }

    -- the nodes that were visited before, and `i`
    adds : (j : ℕ) → visits marked.visited j ≡ true → (j ≡ i) ⊎ (visits s.visited j ≡ true)
    unfolding marked
    adds j v = ground (arith, tested.adds j, ==_iff j i)

    offer-old : visits s.visited i ≡ true → Gathers X (offer P dist links admits ef s i)
    unfolding marked offer
    offer-old old =
        let was : (j : ℕ) → visits marked.visited j ≡ true → visits s.visited j ≡ true = λ j v.
          elim (adds j v) [ inl same ↦ ap (visits s.visited) same ∙ old | inr before ↦ before ] in
        rw (tested.answer ∙ old) record {
          covers = λ j v. g.covers j (was j v);
          explores = λ j v. elim (g.explores j (was j v)) [
            | inl waits ↦ inl waits
            | inr (inl x) ↦ inr (inl x)
            | inr (inr all) ↦ inr (inr (grows s.visited _ i (links j) tested.adds all))
          ];
        }

    new_result : visits s.visited i ≡ false → has i (ids s.results) ≡ false
    new_result new = elim (Bool-cases (has i (ids s.results))) [
      | inl old ↦
          let seen =
            All-has (λ j. visits s.visited j ≡ true) (ids s.results) i
              (All-map (λ (c : Cand P). c.1) (λ j. visits s.visited j ≡ true) s.results
                (All-imp (Found P dist N s.visited) (λ c. visits s.visited c.1 ≡ true) s.results
                  (λ c f. f.seen) h.results))
              old in
          ground arith
      | inr free ↦ free
    ]

    entered :
        visits s.visited i ≡ false → Gathers X (enter P dist links admits ef marked (dist i, i))
    unfolding marked enter
    entered new =
        let room : length s.results < ef =
          omega
            (arith, results-lt P dist links admits ef n N count few s i h nd (new_result new)) in
        let c : Cand P = (dist i, i) in
        record {
          covers = λ j v adm.
              rw (has-enter P dist links admits ef marked c j room) (elim (adds j v) [
                | inl same ↦ ground (arith, ap admits same, ==_iff i j)
                | inr before ↦ ground (arith, g.covers j before adm)
              ]);
          explores = λ j v. elim (adds j v) [
            | inl same ↦ inl (
                rw (has-emplace (λ (c : Cand P). c.1) (closer_first P) c s.frontier j)
                  (ground (arith, ==_iff i j)))
            | inr before ↦ elim (g.explores j before) [
              | inl waits ↦ inl (
                  rw (has-emplace (λ (c : Cand P). c.1) (closer_first P) c s.frontier j)
                    (ground arith))
              | inr (inl x) ↦ inr (inl x)
              | inr (inr all) ↦ inr (inr (grows s.visited _ i (links j) tested.adds all))
            ]
          ];
        }

    offer-new : visits s.visited i ≡ false → Gathers X (offer P dist links admits ef s i)
    unfolding marked offer
    offer-new new =
        let room : ltb (length s.results) ef ≡ true =
          ground
            (arith, results-lt P dist links admits ef n N count few s i h nd (new_result new)) in
        rw (tested.answer ∙ new, room) (entered new)

    offer-Gathers : Gathers X (offer P dist links admits ef s i)
    offer-Gathers = elim (Bool-cases (visits s.visited i)) [
      | inl old ↦ offer-old old
      | inr new ↦ offer-new new
    ]

    visited-offer : (offer P dist links admits ef s i).visited ≡ (test_and_set s.visited i).1
    unfolding offer enter
    visited-offer = elim (Bool-cases (test_and_set s.visited i).0) [
      | inl old ↦ rw old refl
      | inr new ↦ ground arith
    ]

    seen_before :
        (j : ℕ)
        → visits s.visited j ≡ true
        → visits (offer P dist links admits ef s i).visited j ≡ true
    seen_before j v = rw visited-offer (ground (arith, tested.adds j))

    seen_now : visits (offer P dist links admits ef s i).visited i ≡ true
    seen_now = rw visited-offer (ground (arith, tested.adds i, ==_iff i i))

  module _ (o : IsOrdered P) (bound : (i : ℕ) → N i → i < n) where
    scan-Gathers :
        (X : ℕ → Type 0) (s : Layer P) (is : List ℕ)
        → All N is
        → IsLayer P dist links admits ef n N s
        → Gathers X s
        → let t = scan P dist links admits ef s is in
          Gathers X t
          × All (λ j. visits t.visited j ≡ true) is
          × ((j : ℕ) → visits s.visited j ≡ true → visits t.visited j ≡ true)
    unfolding scan
    scan-Gathers X s [] a h g = (g, tt, λ j v. v)
    scan-Gathers X s (i ∷ is) a h g =
        let lt = bound i a.0 in
        let (g', all, keep) =
          scan-Gathers X (offer P dist links admits ef s i) is a.1
            (offer-IsLayer P dist links admits ef n N o s i h a.0 lt)
            (offer-Gathers X s i h g a.0 lt) in
        (
          g',
          (keep i (seen_now X s i h g a.0 lt), all),
          λ j v. keep j (seen_before X s i h g a.0 lt j v),
        )

    -- between two rounds no node is being scanned
    abbrev pub Scanned : Layer P → Type 0
    Scanned = Gathers (λ j. false ≡ true)

    pub next-Scanned :
        ((i : ℕ) → N i → All N (links i))
        → (s t : Layer P) → IsLayer P dist links admits ef n N s
        → Scanned s
        → next P dist links admits ef s ≡ some t
        → Scanned t × ((j : ℕ) → visits s.visited j ≡ true → visits t.visited j ≡ true)
    next-Scanned inside s t h g e =
        let (best, rest, f, eq) = next-some P dist links admits ef n N s t e in
        let front : All (Found P dist N s.visited) (best ∷ rest) =
          subst (All (Found P dist N s.visited)) f h.frontier in
        let s' : Layer P = record s { frontier = rest } in
        let h' : IsLayer P dist links admits ef n N s' = record {
          visited = h.visited;
          frontier = front.1;
          results = h.results;
          admitted = h.admitted;
          ordered = h.ordered;
          distinct = h.distinct;
          bound = h.bound;
        } in
        let g' : Gathers (λ j. j ≡ best.1) s' = record {
          covers = g.covers;
          explores = λ j v. elim (g.explores j v) [
            | inl waits ↦ elim (Bool-cases (best.1 == j)) [
              | inl same ↦ inr (inl (sym ((==_iff best.1 j).0 same)))
              | inr other ↦ inl (ground (arith, ap (λ h. has j (ids h)) f))
            ]
            | inr (inl x) ↦ absurd (ground arith)
            | inr (inr all) ↦ inr (inr all)
          ];
        } in
        let (k, all, keep) =
          scan-Gathers (λ j. j ≡ best.1) s' (links best.1) (inside best.1 front.0.node) h' g' in
        rw eq (
          record {
            covers = k.covers;
            explores = λ j v. elim (k.explores j v) [
              | inl waits ↦ inl waits
              | inr (inl same) ↦ inr (inr (rw same all))
              | inr (inr linked) ↦ inr (inr linked)
            ];
          },
          keep,
        )
