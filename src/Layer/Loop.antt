-- ===== src/Layer/Loop.antt =====
-- The while loop of searchLayer: its end, and invariants of its rounds.
use vector_search_engine.Base.{
  ℕ, zero, suc, ◌≤◌, ◌<◌, Bool, false, List, ◌∷◌, none, some, length, All, ◌≡◌, refl, ap, arith,
  Bool-cases, List-cases, Option-cases, subst, inl, inr, ==_iff,
}
use vector_search_engine.Platform.{Platform, IsOrdered}
use vector_search_engine.Visited.{VisitedList, test_and_set}
use vector_search_engine.Visited.Refinement.{IsValid, visits, unvisited, Tests, test_and_set-Tests}
use vector_search_engine.Heap.{Cand}
use vector_search_engine.Layer.{Layer, scan, next, loop, start}
use vector_search_engine.Layer.Invariant.{Found, IsLayer, work, scan-IsLayer}

module _ (P : Platform) (dist : ℕ → P.F) (links : ℕ → List ℕ) (admits : ℕ → Bool) (ef n : ℕ)
    (N : ℕ → Type 0) where
  -- a round takes the front of the frontier away and scans its links
  pub next-some :
      (s t : Layer P)
      → next P dist links admits ef s ≡ some t
      → (best : Cand P) × (rest : List (Cand P)) × (s.frontier ≡ best ∷ rest)
        × (t ≡ scan P dist links admits ef (record s { frontier = rest }) (links best.1))
  unfolding next
  next-some s t e = elim (List-cases s.frontier) [
    | inl empty ↦ ground arith
    | inr (best, rest, f) ↦ (best, rest, f, ground arith)
  ]

  pub loop_rule {ℓ} :
      (Q : Layer P → Type ℓ)
      → ((s t : Layer P)
          → Q s
          → next P dist links admits ef s ≡ some t
          → Q t × (work P dist links admits ef n N t < work P dist links admits ef n N s))
      → (fuel : ℕ) (s : Layer P) → work P dist links admits ef n N s < fuel
      → Q s
      → (t : Layer P) × (loop P dist links admits ef fuel s ≡ some t)
        × Q t
        × (next P dist links admits ef t ≡ none)
  unfolding loop
  loop_rule Q keep zero s w q = absurd (omega arith)
  loop_rule Q keep (suc fuel) s w q = elim (Option-cases (next P dist links admits ef s)) [
    | inl ends ↦ (s, rw (ends, loop), q, ends)
    | inr (t, e) ↦
        let (q', less) = keep s t q e in
        let (u, run, qu, ends) = loop_rule Q keep fuel t (omega arith) q' in
        (u, rw (e, loop) run, qu, ends)
  ]

  module _ (o : IsOrdered P) (bound : (i : ℕ) → N i → i < n)
      (inside : (i : ℕ) → N i → All N (links i)) where
    pub next-IsLayer :
        (s t : Layer P)
        → IsLayer P dist links admits ef n N s
        → next P dist links admits ef s ≡ some t
        → IsLayer P dist links admits ef n N t
          × (work P dist links admits ef n N t < work P dist links admits ef n N s)
    next-IsLayer s t h e =
        let (best, rest, f, g) = next-some s t e in
        let front : All (Found P dist N s.visited) (best ∷ rest) =
          subst (All (Found P dist N s.visited)) f h.frontier in
        let s' : Layer P = record s { frontier = rest } in
        let h' : IsLayer P dist links admits ef n N s' = record {
          visited = h.visited;
          frontier = front.1;
          results = h.results;
          admitted = h.admitted;
          ordered = h.ordered;
          distinct = h.distinct;
          bound = h.bound;
        } in
        let (k, le) =
          scan-IsLayer P dist links admits ef n N o bound s' (links best.1)
            (inside best.1 front.0.node) h' in
        rw g (k, omega (arith, ap length f, le))

  module _ (v : VisitedList) (entry : ℕ) (valid : IsValid n v) (fresh : visits v entry ≡ false)
      (nd : N entry) (lt : entry < n) where
    tested : Tests n v entry (test_and_set v entry)
    tested = test_and_set-Tests n v entry valid lt

    pub start-IsLayer : IsLayer P dist links admits ef n N (start P dist links admits ef v entry)
    unfolding start
    start-IsLayer =
        let f : Found P dist N (test_and_set v entry).1 (dist entry, entry) = record {
          exact = refl;
          node = nd;
          seen = ground (arith, tested.adds entry, (==_iff entry entry).1 refl);
        } in
        elim (Bool-cases (admits entry)) [
          | inl adm ↦ rw adm record {
            visited = tested.valid;
            frontier = (f, tt);
            results = (f, tt);
            admitted = (adm, tt);
            ordered = (tt, tt);
            distinct = (tt, tt);
            bound = omega arith;
          }
          | inr skip ↦ rw skip record {
            visited = tested.valid;
            frontier = (f, tt);
            results = tt;
            admitted = tt;
            ordered = tt;
            distinct = tt;
            bound = omega arith;
          }
        ]

    pub work-start :
        work P dist links admits ef n N (start P dist links admits ef v entry) ≤ unvisited v
    unfolding start
    work-start = ground (arith, tested.left, tested.answer)
