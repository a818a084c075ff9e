-- ===== src/Tests/Calls.antt =====
-- The theorems on the operations of an index, on the indexes of Samples.
use vector_search_engine.Base.{
  length, ◌+◌, ◌≤◌, ◌<◌, ◌⊎◌, ◌^◌, ℕ, ◌≡◌, ◌≢◌, ◌↔◌, refl, Bool, true, subst, List, [], ◌∷◌, some,
  All, arith,
}
use vector_search_engine.Base.Int.{ℤ, pos}
use vector_search_engine.Result.{Result, ok}
use vector_search_engine.Index.{get_data, Index, new_index, initial_index, l2, find_id, label_eq}
use vector_search_engine.Index.Invariant.{Node, IsGraph, IsStore}
use vector_search_engine.Index.Construction.{new_index-accepts}
use vector_search_engine.Heap.{Cand}
use vector_search_engine.Visited.{VisitedListPool}
use vector_search_engine.Search.{search_layer, search, SearchResult}
use vector_search_engine.Search.Layers.{Finds, search_layer-Finds}
use vector_search_engine.Search.Answers.{Answers, search-Answers}
use vector_search_engine.Insert.{add_point, stored_vector, allocate, between, connect_new_element}
use vector_search_engine.Insert.Allocation.{allocate-IsStore}
use vector_search_engine.Insert.Linked.{Stored, connect_new_element-Stored}
use vector_search_engine.Insert.Outcome.{Outcome, add_point-Outcome}
use vector_search_engine.Delete.{mark_deleted}
use vector_search_engine.Delete.Undo.{search-mark}
use vector_search_engine.Lifetime.{IsIndex, here, later, adds, marks}
use vector_search_engine.Lifetime.Preservation.{Step-IsIndex, Reaches-IsIndex, initial-IsIndex}
use vector_search_engine.CApi.{Arrays, hnsw_search, Call, hnsw_add}
use vector_search_engine.CApi.Codes.{AddCodes, hnsw_add-AddCodes}
use vector_search_engine.Insert.Vectors.{get_data-add_point}
use vector_search_engine.CApi.Outputs.{filled, hnsw_search-filled}
use vector_search_engine.Tests.Samples.{
  counting, counting-IsOrdered, client_label, empty, two, three, empty_Accepts, two-IsIndex,
  three-IsIndex, three_added,
}

abbrev at_three : List ℕ
at_three = 8 ∷ []

search-Answers_example :
    (r : List (SearchResult counting) × Index counting) × (search three at_three 2 3 ≡ some r)
    × Answers three at_three 2 r
search-Answers_example = search-Answers three counting-IsOrdered three-IsIndex.graph at_three 2 3

add_point-Outcome_example :
    (r : Result ℕ × Index counting) × (add_point two (2 ∷ []) (client_label 2) ≡ some r)
    × IsGraph r.1
    × Outcome two (2 ∷ []) (client_label 2) r
add_point-Outcome_example =
    add_point-Outcome two (2 ∷ []) (client_label 2) counting-IsOrdered two-IsIndex.graph

entry_Node : Node three 0 1
entry_Node = (omega arith, omega arith)

search_layer-Finds_example :
    (r : List (Cand counting) × VisitedListPool) × (search_layer three at_three 1 3 0 true ≡ some r)
    × Finds three at_three 3 0 true r
search_layer-Finds_example =
    search_layer-Finds three counting-IsOrdered three-IsIndex.graph.store at_three 1 3 0 true
      entry_Node

-- `three` after its element 9 was deleted
abbrev without_nine : Index counting
without_nine = record three { deleted = 0 ∷ 1 ∷ 0 ∷ []; num_deleted = 1 }

nine_marked : mark_deleted three (client_label 9) ≡ (true, without_nine)
unfolding mark_deleted find_id label_eq initial_index
nine_marked = refl

abbrev mark_two : Index counting
mark_two = (mark_deleted three (client_label 2)).1

Reaches-IsIndex_example : IsIndex mark_two
Reaches-IsIndex_example = Reaches-IsIndex counting-IsOrdered two two-IsIndex mark_two (
    later (later here (adds (2 ∷ []) (client_label 2) (ok 2, three) three_added))
      (marks (client_label 2)))

without_nine-IsIndex : IsIndex without_nine
without_nine-IsIndex =
    subst (λ (r : Bool × Index counting). IsIndex r.1) nine_marked
      (Step-IsIndex three counting-IsOrdered three-IsIndex _ (marks (client_label 9)))

without_nine_search :
    (r : List (SearchResult counting) × Index counting) × (search without_nine at_three 2 3
      ≡ some r)
    × Answers without_nine at_three 2 r
without_nine_search =
    search-Answers without_nine counting-IsOrdered without_nine-IsIndex.graph at_three 2 3

search-mark_example : All (λ res. res.label ≢ client_label 9) without_nine_search.0.0
search-mark_example =
    search-mark three without_nine (client_label 9) three-IsIndex.labelled three-IsIndex.counted
      nine_marked counting-IsOrdered three-IsIndex.graph at_three 2 3 without_nine_search.0
      without_nine_search.1

initial-IsIndex_example : IsIndex empty
initial-IsIndex_example =
    initial-IsIndex counting l2 1 3 2 4 7 empty_Accepts (omega arith) (omega arith) (omega arith)

new_index-accepts_example :
    (new_index counting l2 1 3 2 4 7 ≡ ok (initial_index counting l2 1 3 2 4 7))
    ↔ ((0 < 1) × (0 < 3) × (((0 < 2) × (2 ≤ 128)) ⊎ ((2 ^ 63 ≤ 2) × (2 ≤ 2 ^ 63 + 128))))
new_index-accepts_example = new_index-accepts counting l2 1 3 2 4 7 (omega arith)

allocate-IsStore_example : IsStore (allocate two (2 ∷ []) (client_label 2))
unfolding initial_index
allocate-IsStore_example =
    allocate-IsStore two (2 ∷ []) (client_label 2) two-IsIndex.graph.store (omega arith)

connect_new_element-Stored_example :
    let r =
      connect_new_element counting (between three) 2 2 0 three.links ((36, 1) ∷ (9, 0) ∷ []) in
    Node three 0 r.0 × Stored three r.1
connect_new_element-Stored_example =
    connect_new_element-Stored three (between three) 2 2 0 counting-IsOrdered
      (omega arith, omega arith) three.links ((36, 1) ∷ (9, 0) ∷ []) three-IsIndex.graph.store
      (entry_Node, ((omega arith, omega arith), tt))

hnsw_add-AddCodes_example :
    (c : Call counting ℤ) × (hnsw_add "" (some two) (some (2 ∷ [])) 1 2 ≡ some c)
    × AddCodes two (2 ∷ []) (client_label 2) "" c
hnsw_add-AddCodes_example =
    hnsw_add-AddCodes counting-IsOrdered two two-IsIndex.graph "" (2 ∷ []) 1 2

get_data-add_point_example :
    (find_id (client_label 2) three.label_to_id ≡ some 2)
    × (get_data three 2 ≡ stored_vector two (2 ∷ []))
    × ((j : ℕ) → j < two.count → get_data three j ≡ get_data two j)
unfolding initial_index
get_data-add_point_example =
    get_data-add_point two (2 ∷ []) (client_label 2) 2 three counting-IsOrdered two-IsIndex.graph
      (omega arith) three_added

-- the caller's arrays, with room for two results and one entry more
abbrev arrays : Arrays counting
arrays = record { client_ids = 0 ∷ 0 ∷ 7 ∷ []; labels = 0 ∷ 0 ∷ 7 ∷ []; distances = 0 ∷ 0 ∷ 7 ∷ [] }

hnsw_search-filled_example :
    (r : List (SearchResult counting) × Index counting) × (hnsw_search ""
        (some three)
        (some at_three)
        2
        3
        (some arrays)
      ≡ some (
        record { returned = pos (length r.0); last_error = ""; index = some r.1 },
        some (filled arrays r.0),
      ))
    × Answers three at_three 2 r
hnsw_search-filled_example =
    hnsw_search-filled counting-IsOrdered three three-IsIndex.graph "" at_three 2 3 arrays
      (omega arith)
      (record { client_ids = omega arith; labels = omega arith; distances = omega arith })
