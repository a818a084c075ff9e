-- ===== src/Tests/Programs.antt =====
-- The checks of the benchmark programs on small indexes.
use vector_search_engine.Base.{ℕ, ◌*◌, ◌≤◌, true, [], ◌∷◌, some, ◌≡◌, ◌⊎◌, arith}
use vector_search_engine.Result.{ok}
use vector_search_engine.Index.{Index, l2}
use vector_search_engine.Search.{search}
use vector_search_engine.Visited.{VisitedListPool}
use vector_search_engine.Snapshot.{loaded, undefined}
use vector_search_engine.Shards.Build.{placement}
use vector_search_engine.Programs.{recall_loop, sift_loop, soft_delete, save_and_compare}
use vector_search_engine.Programs.Cluster.{build_mono, build_shards, exact_matches}
use vector_search_engine.Programs.Deletion.{soft_delete-passes}
use vector_search_engine.Programs.Measures.{recall-le}
use vector_search_engine.Programs.Reload.{save_and_compare-passes}
use vector_search_engine.Programs.Agreement.{exact_matches-one}
use vector_search_engine.Tests.Samples.{
  counting, counting-IsOrdered, client_label, empty_Accepts, three, three-IsIndex, two,
}
use vector_search_engine.Tests.Snapshots.{plain, digits, two-Reaches, two-IsTyped}

soft_delete-passes_example :
    ((r : Index counting) × (search three (8 ∷ []) 2 3 ≡ some ([], r))
      × (soft_delete three (8 ∷ []) 2 3 ≡ some undefined))
    ⊎ (pool : VisitedListPool) × (soft_delete three (8 ∷ []) 2 3
        ≡ some (loaded (true, record three { visited_pool = pool })))
soft_delete-passes_example = soft_delete-passes counting-IsOrdered three three-IsIndex (8 ∷ []) 2 3

recall-le_example :
    (hits : ℕ) × (sift : ℕ) × (pool : VisitedListPool) × (pool' : VisitedListPool) × (recall_loop
        (8 ∷ 1 ∷ [])
        1
        2
        3
        ((client_label 9 ∷ []) ∷ (client_label 2 ∷ []) ∷ [])
        three
        0
        2
        0
      ≡ some (hits, record three { visited_pool = pool }))
    × (sift_loop (8 ∷ 1 ∷ []) 1 2 3 (9 ∷ 5 ∷ 2 ∷ 5 ∷ []) 2 three 0 2 0
        ≡ some (sift, record three { visited_pool = pool' }))
    × (hits ≤ 2 * 2)
    × (sift ≤ 2 * 2)
recall-le_example =
    recall-le counting-IsOrdered three three-IsIndex (8 ∷ 1 ∷ []) 1 2 3
      ((client_label 9 ∷ []) ∷ (client_label 2 ∷ []) ∷ []) (9 ∷ 5 ∷ 2 ∷ 5 ∷ []) 2 2

save_and_compare-passes_example :
    save_and_compare (8 ∷ 1 ∷ []) 1 2 3 plain digits two true true "a.hnsw" 2 ≡ some (loaded 0)
save_and_compare-passes_example =
    save_and_compare-passes counting l2 1 3 2 4 7 empty_Accepts (omega arith) (omega arith)
      (omega arith) counting-IsOrdered plain two two-Reaches two-IsTyped digits "a.hnsw"
      (8 ∷ 1 ∷ []) 1 2 3 2

exact_matches-one_example :
    (idx : Index counting) × (build_mono (5 ∷ 9 ∷ []) 1 (1 ∷ 2 ∷ []) 2 2 4 ≡ some (ok idx))
    × (build_shards (5 ∷ 9 ∷ []) 1 (1 ∷ 2 ∷ []) (placement (1 ∷ 2 ∷ []) 1 2) 2 4 1 0
        ≡ some (ok (idx ∷ [])))
    × (exact_matches (5 ∷ 9 ∷ []) 1 (1 ∷ 2 ∷ []) 2 1 2 3 (8 ∷ 1 ∷ []) idx (idx ∷ []) 0 2 0
        ≡ some (loaded 2))
exact_matches-one_example =
    exact_matches-one counting-IsOrdered (5 ∷ 9 ∷ []) (1 ∷ 2 ∷ []) 1 2 4 2 2 3 (8 ∷ 1 ∷ []) 2
      (omega arith) (omega arith) (omega arith) (omega arith) (omega arith) (omega arith)
      (omega arith) (omega arith) (omega arith) (omega arith)
