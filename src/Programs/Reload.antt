-- ===== src/Programs/Reload.antt =====
-- The check of save and load in src/benchmark.cpp.
use Prim.Native.String.{String}
use vector_search_engine.Base.{
  ℕ, zero, suc, ◌*◌, ◌^◌, ◌<◌, true, List, [], ◌∷◌, some, ◌≡◌, refl, arith,
}
use vector_search_engine.Platform.{Platform, IsOrdered}
use vector_search_engine.Visited.{VisitedListPool, new_pool}
use vector_search_engine.Visited.Refinement.{IsPool, new_pool-IsPool}
use vector_search_engine.Index.{Index, Space, initial_index}
use vector_search_engine.Index.Construction.{Accepts}
use vector_search_engine.Index.Labels.{label_eq_iff}
use vector_search_engine.Search.{SearchResult, ◌>>=◌}
use vector_search_engine.Lifetime.{IsIndex, Reaches}
use vector_search_engine.Lifetime.Preservation.{Reaches-IsIndex, initial-IsIndex}
use vector_search_engine.Snapshot.{Encoding, loaded, index_labels}
use vector_search_engine.Snapshot.Conditions.{IsTyped, reloaded}
use vector_search_engine.Snapshot.RoundTrip.{load-save}
use vector_search_engine.Snapshot.Reloaded.{reloaded-IsIndex}
use vector_search_engine.Snapshot.Reached.{Reaches-IsKept, initial-IsKept}
use vector_search_engine.Recall.{row}
use vector_search_engine.Programs.Twins.{same_answers}
use vector_search_engine.Programs.{same_labels, compare_loop, save_and_compare}

pub same_labels_refl : {P : Platform} (rs : List (SearchResult P)) → same_labels rs rs ≡ true
unfolding same_labels
same_labels_refl [] = refl
same_labels_refl (r ∷ rs) =
    ground (arith, same_labels_refl rs, (label_eq_iff r.label r.label).1 refl)

module _ {P : Platform} (o : IsOrdered P) (idx : Index P) (h : IsIndex idx) (queries : List P.F)
    (dim k ef : ℕ) where
  abbrev saved : VisitedListPool → Index P
  saved pool = record idx { visited_pool = pool }

  abbrev restored : VisitedListPool → Index P
  restored pool = record (reloaded idx) { visited_pool = pool }

  compare_loop-same :
      (n q m : ℕ) (p p' : VisitedListPool)
      → IsPool idx.max_elements p
      → IsPool idx.max_elements p'
      → compare_loop queries dim k ef (saved p) (restored p') m n q ≡ some m
  unfolding compare_loop
  compare_loop-same zero q m p p' hp hp' = refl
  compare_loop-same (suc n) q m p p' hp hp' =
      let (rs, t, t', run, run', ht, ht', few, ranked) =
        same_answers o idx h (index_labels idx.count 0 idx.labels []) (P.seeded 100)
          (new_pool 1 idx.max_elements) (reloaded-IsIndex idx h) (row P queries dim q) k ef p p' hp
          hp' in
      rw (compare_loop, run, ◌>>=◌, run', same_labels_refl rs)
        (compare_loop-same n (suc q) m t t' ht ht')

module _ (P : Platform) (space : Space) (dim max_elements m ef_construction seed : ℕ)
    (a : Accepts P space dim max_elements m ef_construction seed) (no_wrap : m < 2 ^ 63)
    (small : max_elements < 2 ^ 32) (room : max_elements * dim < 2 ^ 64) where
  -- Where distances are ordered, for an index that an accepted call of the constructor built,
  -- with M below 2 ^ 63, fewer than 2 ^ 32 slots and fewer than 2 ^ 64 floats, and that any
  -- sequence of calls of addPoint, markDeleted, unmarkDeleted and search led to, if its numbers
  -- lie in the ranges of their C++ types: the check of save and load of the benchmark, with a
  -- file that opens and is written to its end, ends with 0 mismatches, whatever the queries.
  pub save_and_compare-passes :
      (o : IsOrdered P) (enc : Encoding P) (idx : Index P)
      → Reaches (initial_index P space dim max_elements m ef_construction seed) idx
      → IsTyped enc idx
      → (to_string : ℕ → String) (path : String) (queries : List P.F) (query_dim k ef n : ℕ)
      → save_and_compare queries query_dim k ef enc to_string idx true true path n ≡ some (loaded 0)
  unfolding save_and_compare
  save_and_compare-passes o enc idx reached t to_string path queries query_dim k ef n =
      let born = initial_index P space dim max_elements m ef_construction seed in
      let h =
        initial-IsIndex P space dim max_elements m ef_construction seed a no_wrap small room in
      let kept =
        initial-IsKept P space dim max_elements m ef_construction seed a no_wrap small room in
      let (b, blank) = Reaches-IsKept o born h kept idx reached in
      let i = Reaches-IsIndex o born h idx reached in
      let (file, saved_file, back) =
        load-save enc idx i.graph.store t b blank to_string path path in
      rw
        (
          save_and_compare,
          saved_file,
          back,
          ◌>>=◌,
          compare_loop-same o idx i queries query_dim k ef n 0 0 idx.visited_pool
              (new_pool 1 idx.max_elements) i.graph.store.pool (new_pool-IsPool 1 idx.max_elements),
        )
        refl
