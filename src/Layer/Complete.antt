-- ===== src/Layer/Complete.antt =====
-- The while loop of searchLayer with room for every element: what it starts with and ends with.
use vector_search_engine.Base.{
  ℕ, ◌≤◌, ◌<◌, Bool, true, false, ◌&&◌, List, [], leb, length, All, has, All-has, none, ◌≡◌, ◌∙◌,
  ap, arith, Bool-cases, List-cases, inl, inr, ◌⊎◌, ==_iff,
}
use vector_search_engine.Platform.{Platform}
use vector_search_engine.Visited.{VisitedList, test_and_set}
use vector_search_engine.Visited.Refinement.{IsValid, visits, Tests, test_and_set-Tests}
use vector_search_engine.Layer.{Layer, next, start}
use vector_search_engine.Layer.Invariant.{IsLayer}
use vector_search_engine.Layer.Exhaustive.{Linked, here, link, Gathers}
use vector_search_engine.Layer.Room.{ids, results-lt}

module _ (P : Platform) (dist : ℕ → P.F) (links : ℕ → List ℕ) (admits : ℕ → Bool) (ef n : ℕ)
    (N : ℕ → Type 0) (count : ℕ) (enough : count ≤ ef) (few : (i : ℕ) → N i → i < count) where
  module _ (v : VisitedList) (entry : ℕ) (valid : IsValid n v)
      (fresh : (j : ℕ) → visits v j ≡ false) (lt : entry < n) where
    tested : Tests n v entry (test_and_set v entry)
    tested = test_and_set-Tests n v entry valid lt

    only : (j : ℕ) → visits (test_and_set v entry).1 j ≡ true → entry ≡ j
    only j e = ground (arith, tested.adds j, fresh j, ==_iff j entry)

    pub start-Scanned :
        Gathers P dist links admits ef n N count enough few
          (λ j. false ≡ true)
          (start P dist links admits ef v entry)
    unfolding start
    start-Scanned = record {
      covers = λ j e adm.
          let same = only j e in rw (ap admits same ∙ adm) (ground (arith, ==_iff entry j));
      explores = λ j e. inl (ground (arith, only j e, ==_iff entry j));
    }

    pub start-entry : visits (start P dist links admits ef v entry).visited entry ≡ true
    unfolding start
    start-entry = ground (arith, tested.adds entry, ==_iff entry entry)

  module _ (inside : (i : ℕ) → N i → All N (links i)) (entry : ℕ) (nd : N entry) where
    Linked-N : (j : ℕ) → Linked links entry j → N j
    Linked-N entry here = nd
    Linked-N j (link {i} l m) = All-has N (links i) j (inside i (Linked-N i l)) m

    ended :
        (t : Layer P)
        → next P dist links admits ef t ≡ none
        → (t.frontier ≡ []) ⊎ (ef ≤ length t.results)
    unfolding next
    ended t e = elim (List-cases t.frontier) [
      | inl empty ↦ inl empty
      | inr (best, rest, f) ↦
          elim (Bool-cases (P.flt t.worst best.0 && leb ef (length t.results))) [
            | inl full ↦ inr (ground arith)
            | inr more ↦ absurd (ground arith)
          ]
    ]

    module _ (t : Layer P) (h : IsLayer P dist links admits ef n N t)
        (g : Gathers P dist links admits ef n N count enough few (λ j. false ≡ true) t)
        (v : visits t.visited entry ≡ true) where
      visits-Linked : t.frontier ≡ [] → (j : ℕ) → Linked links entry j → visits t.visited j ≡ true
      visits-Linked empty entry here = v
      visits-Linked empty j (link {i} l m) = elim (g.explores i (visits-Linked empty i l)) [
        | inl waits ↦ absurd (ground (arith, ap (λ f. has i (ids f)) empty))
        | inr (inl x) ↦ absurd (ground arith)
        | inr (inr all) ↦ All-has (λ j. visits t.visited j ≡ true) (links i) j all m
      ]

      -- When no round is left, every admitted node that links lead to is a result.
      pub results-Linked :
          next P dist links admits ef t ≡ none
          → (j : ℕ) → Linked links entry j
          → admits j ≡ true
          → has j (ids t.results) ≡ true
      results-Linked ends j l adm = elim (ended t ends) [
        | inl empty ↦ g.covers j (visits-Linked empty j l) adm
        | inr full ↦ elim (Bool-cases (has j (ids t.results))) [
          | inl found ↦ found
          | inr missed ↦ absurd (
              omega (
                arith,
                results-lt P dist links admits ef n N count few t j h (Linked-N j l) missed,
              ))
        ]
      ]
