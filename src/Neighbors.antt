-- ===== src/Neighbors.antt =====
-- Index::selectNeighborsHeuristic of include/hnsw.hpp. `between` is the distance between the stored
-- vectors of two ids, rawDistance(getData(a), getData(b)). Draining the queue into `cands` is its
-- list, since a queue is modelled by the order in which it comes out.
use vector_search_engine.Base.{
  ℕ, Bool, true, false, ◌||◌, List, [], ◌∷◌, ◌++◌, if◌then◌else◌, leb, length, map,
}
use vector_search_engine.Platform.{Platform}
use vector_search_engine.Heap.{Cand, sort, pair_less}
pub mod Selection
pub mod Choice
pub mod Diversity

abbrev pub second {ℓ κ} : {A : Type ℓ} {B : Type κ} → A × B → B
second c = c.1

module _ (P : Platform) (between : ℕ → ℕ → P.F) where
  -- some kept neighbour is nearer to the candidate than the query is
  unfoldable pub too_close : Cand P → List ℕ → Bool
  too_close c [] = false
  too_close c (r ∷ kept) = P.flt (between c.1 r) c.0 || too_close c kept

  -- the loop over the candidates: the kept ids and the discarded candidates
  unfoldable pub spread : ℕ → List (Cand P) → List ℕ → List (Cand P) → List ℕ × List (Cand P)
  spread m [] kept discarded = (kept, discarded)
  spread m (c ∷ cands) kept discarded =
      let close = too_close c kept in
      let rest =
        spread m cands (if close then kept else kept ++ c.1 ∷ [])
          (if close then discarded ++ c ∷ [] else discarded) in
      if leb m (length kept) then (kept, discarded) else rest

  -- the loop that fills up from the discarded
  unfoldable pub backfill : ℕ → List (Cand P) → List ℕ → List ℕ
  backfill m [] kept = kept
  backfill m (d ∷ ds) kept =
      let rest = backfill m ds (kept ++ d.1 ∷ []) in if leb m (length kept) then kept else rest

  unfoldable pub select_neighbors_heuristic : List (Cand P) → ℕ → List ℕ
  unfolding spread backfill too_close
  select_neighbors_heuristic top m =
      let cands = sort (pair_less P) top in
      if leb (length cands) m
      then map second cands
      else (let (kept, discarded) = spread m cands [] [] in backfill m discarded kept)
