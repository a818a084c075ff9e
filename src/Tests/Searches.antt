-- ===== src/Tests/Searches.antt =====
-- A search with room for every element.
use vector_search_engine.Base.{ℕ, ◌≡◌, refl, List, [], ◌∷◌, some, arith}
use vector_search_engine.Layer.Exhaustive.{Linked, here, link}
use vector_search_engine.Index.{Index, distance, initial_index, raw_distance, get_data}
use vector_search_engine.Search.{
  SearchResult, search, descend_levels, greedy_descend, link_buffer, query_vector,
}
use vector_search_engine.Search.Answers.{Answers}
use vector_search_engine.Search.Exhaustive.{Reported, search-Linked}
use vector_search_engine.Distance.{
  l2_squared_distance, avx_kernel, hadd, horizontal_sum, kernel, lane_loop, load_term,
  scalar_kernel, scalar_loop, squared_difference,
}
use vector_search_engine.Greedy.{descend, round, visit_link, visit_links, walk}
use vector_search_engine.Links.{copy_links, link_at, link_count, link_neighbors}
use vector_search_engine.Tests.Samples.{counting, counting-IsOrdered, three, three-IsIndex}

abbrev query : List ℕ
query = 8 ∷ []

down : descend_levels three (query_vector three query) three.entry_point 0 three.max_level ≡ some 1
unfolding initial_index descend_levels greedy_descend query_vector distance raw_distance get_data
    l2_squared_distance avx_kernel hadd horizontal_sum kernel lane_loop load_term scalar_kernel
    scalar_loop squared_difference descend round visit_link visit_links walk copy_links link_at
    link_count link_neighbors
down = refl

-- a link of 9 leads to 5
linked : Linked (link_buffer three 0) 1 0
unfolding initial_index link_buffer copy_links link_at link_count
linked = link here refl

search-Linked_example :
    (r : List (SearchResult counting) × Index counting) × (a : Answers three query 2 r) × (search
        three query 2 3
      ≡ some r)
    × Reported three 2 (distance three (query_vector three query)) a.cands 0
unfolding initial_index
search-Linked_example =
    search-Linked three counting-IsOrdered three-IsIndex.graph query 2 3 1 0 (omega arith)
      (omega arith) down linked refl
