-- ===== src/Layer.antt =====
-- The body of Index::searchLayer in include/hnsw.hpp. What the method reads of the index while it
-- runs is a parameter here: the distance from the query (`dist`), the copy of a link block
-- (`links`), whether a result may be returned (`admits`) and the size of the result queue (`ef`).
-- The locks make each read of a link block one step; the vectors read are not written meanwhile.
use vector_search_engine.Base.{
  ℕ, zero, suc, Bool, true, false, ◌&&◌, ◌||◌, List, [], ◌∷◌, Option, none, some, if◌then◌else◌,
  ltb, leb, length,
}
use vector_search_engine.Platform.{Platform}
use vector_search_engine.Visited.{VisitedList, test_and_set}
use vector_search_engine.Heap.{Cand, emplace, farther_first, closer_first}
pub mod Steps
pub mod Invariant
pub mod Loop
pub mod Room
pub mod Exhaustive
pub mod Complete
pub mod Marks

-- the local variables of searchLayer
pub record Layer (P : Platform) : Type 0 where
  pub visited : VisitedList
  pub results : List (Cand P)
  pub frontier : List (Cand P)
  pub worst : P.F

unfoldable pub pop {ℓ} : {A : Type ℓ} → List A → List A
pop [] = []
pop (c ∷ h) = h

module _ (P : Platform) where
  -- the distance of the top, where there is one
  unfoldable pub top_or : List (Cand P) → P.F → P.F
  top_or [] d = d
  top_or (c ∷ h) d = c.0

  -- pushes, and pops if the queue is longer than `ef`
  unfoldable pub push_result : ℕ → Cand P → List (Cand P) → List (Cand P)
  unfolding pop
  push_result ef c h =
      let more = emplace (farther_first P) c h in if ltb ef (length more) then pop more else more

module _ (P : Platform) (dist : ℕ → P.F) (links : ℕ → List ℕ) (admits : ℕ → Bool) (ef : ℕ) where
  unfoldable pub enter : Layer P → Cand P → Layer P
  unfolding top_or push_result
  enter s c =
      let rs = if admits c.1 then push_result P ef c s.results else s.results in
      record s {
        frontier = emplace (closer_first P) c s.frontier;
        results = rs;
        worst = top_or P rs s.worst;
      }

  -- the body of the loop over the links of a node
  unfoldable pub offer : Layer P → ℕ → Layer P
  offer s cand =
      let (seen, v) = test_and_set s.visited cand in
      let s' = record s { visited = v } in
      if seen
      then s'
      else if ltb (length s.results) ef || P.flt (dist cand) s.worst
      then enter s' (dist cand, cand)
      else s'

  unfoldable pub scan : Layer P → List ℕ → Layer P
  scan s [] = s
  scan s (i ∷ is) = scan (offer s i) is

  -- one round of the `while` loop; `none` means that the loop ends
  unfoldable pub next : Layer P → Option (Layer P)
  next s = elim s.frontier [
    | [] ↦ none
    | best ∷ rest ↦
        if P.flt s.worst best.0 && leb ef (length s.results)
        then none
        else some (scan (record s { frontier = rest }) (links best.1))
  ]

  -- `none` means that the fuel ran out
  unfoldable pub loop : ℕ → Layer P → Option (Layer P)
  loop zero s = none
  loop (suc fuel) s = elim (next s) [ none ↦ some s | some t ↦ loop fuel t ]

  unfoldable pub start : VisitedList → ℕ → Layer P
  unfolding top_or
  start v entry =
      let d0 = dist entry in
      let rs = if admits entry then (d0, entry) ∷ [] else [] in
      record {
        visited = (test_and_set v entry).1;
        results = rs;
        frontier = (d0, entry) ∷ [];
        worst = top_or P rs P.fmax;
      }
