-- ===== src/Tests/Samples.antt =====
-- A concrete platform and a small index on it.
use vector_search_engine.Base.{
  ℕ, ◌+◌, ◌-◌, ◌*◌, ◌/◌, ◌%◌, ◌≡◌, refl, true, List, [], ◌∷◌, Option, none, some, ltb, leb, arith,
  map, replicate,
}
use vector_search_engine.Platform.{Platform, IsOrdered}
use vector_search_engine.Result.{ok}
use vector_search_engine.Index.{Index, Label, initial_index, l2}
use vector_search_engine.Index.Construction.{Accepts}
use vector_search_engine.Insert.{add_point}
use vector_search_engine.Search.{search, SearchResult}
use vector_search_engine.Lifetime.{IsIndex, adds}
use vector_search_engine.Lifetime.Preservation.{Step-IsIndex, initial-IsIndex}
use vector_search_engine.Index.{
  find_id, assign_id, label_eq, distance, raw_distance, get_data, normalize_in_place,
}
use vector_search_engine.Insert.{
  attach, allocate, insert_layers, assign_row, between, connect_new_element, connect_selected,
  fill_pool, link_all_back, link_back, random_level, store, stored_vector,
}
use vector_search_engine.Search.{
  descend_levels, search_layer, admits, greedy_descend, link_buffer, query_vector, trim, unload,
}
use vector_search_engine.Layer.{loop, next, start, scan, enter, offer, pop, push_result, top_or}
use vector_search_engine.Distance.{
  l2_squared_distance, avx_kernel, cosine_distance, dot_product, hadd, horizontal_sum, kernel,
  lane_loop, load_term, product, scalar_kernel, scalar_loop, squared_difference,
}
use vector_search_engine.Greedy.{descend, round, visit_link, visit_links, walk}
use vector_search_engine.Heap.{closer_first, emplace, farther_first, pair_less, sort}
use vector_search_engine.Links.{
  append_link, copy_links, degree_cap, link_at, link_count, link_neighbors, link_put, set_links,
  write_links,
}
use vector_search_engine.Neighbors.{backfill, select_neighbors_heuristic, spread, too_close}
use vector_search_engine.Visited.{acquire, new_pool, new_visited, release, reset, test_and_set}

abbrev pub counting : Platform
counting = record {
  F = ℕ;
  fzero = 0;
  fone = 1;
  ftiny = 0;
  fmax = 1000000;
  fadd = λ a b. a + b;
  fsub = λ a b. (a - b) + (b - a);
  fmul = λ a b. a * b;
  fdiv = λ a b. a / b;
  fsqrt = λ a. a;
  flt = ltb;
  fle = leb;
  D = ℕ;
  dzero = 0;
  done = 1;
  dmin = 1;
  of_size = λ n. n;
  dmul = λ a b. a;
  ddiv = λ a b. a / b;
  dneg = λ a. a;
  dlog = λ a. a;
  dle = leb;
  to_int = λ d. d % 3;
  Rng = ℕ;
  seeded = λ s. s;
  uniform = λ r. (r, r + 1);
  avx = true;
}

pub counting-IsOrdered : IsOrdered counting
counting-IsOrdered = record {
  irrefl = λ a. ground arith;
  trans = λ a b c h k. ground arith;
  weak = λ a b c h k. ground arith;
}

abbrev pub client_label : ℕ → Label
client_label n = record { client_id = 1; label = n }

-- an empty index of three slots for vectors of one number, M = 2
abbrev pub empty : Index counting
empty = initial_index counting l2 1 3 2 4 7

-- the index after 5 was inserted at level 1
abbrev pub one : Index counting
one = record empty {
  vectors = 5 ∷ 0 ∷ 0 ∷ [];
  levels = 1 ∷ 0 ∷ 0 ∷ [];
  labels =
      client_label 5
      ∷ record { client_id = 0; label = 0 }
      ∷ record { client_id = 0; label = 0 }
      ∷ [];
  links = record {
    max_m = 2;
    max_m0 = 4;
    stride_l0 = 5;
    stride_upper = 3;
    links_l0 = replicate 15 0;
    links_upper = (0 ∷ 0 ∷ 0 ∷ []) ∷ [] ∷ [] ∷ [];
  };
  count = 1;
  entry_point = 0;
  max_level = 1;
  label_to_id = (client_label 5, 0) ∷ [];
  rng = 8;
}

-- then 9 at level 2
abbrev pub two : Index counting
two = record empty {
  vectors = 5 ∷ 9 ∷ 0 ∷ [];
  levels = 1 ∷ 2 ∷ 0 ∷ [];
  labels = client_label 5 ∷ client_label 9 ∷ record { client_id = 0; label = 0 } ∷ [];
  links = record {
    max_m = 2;
    max_m0 = 4;
    stride_l0 = 5;
    stride_upper = 3;
    links_l0 = 1 ∷ 1 ∷ 0 ∷ 0 ∷ 0 ∷ 1 ∷ 0 ∷ 0 ∷ 0 ∷ 0 ∷ 0 ∷ 0 ∷ 0 ∷ 0 ∷ 0 ∷ [];
    links_upper = (1 ∷ 1 ∷ 0 ∷ []) ∷ (1 ∷ 0 ∷ 0 ∷ 0 ∷ 0 ∷ 0 ∷ []) ∷ [] ∷ [];
  };
  count = 2;
  entry_point = 1;
  max_level = 2;
  label_to_id = (client_label 5, 0) ∷ (client_label 9, 1) ∷ [];
  rng = 9;
  visited_pool = record { pool = record { marks = 4 ∷ 0 ∷ 0 ∷ []; cur = 4 } ∷ []; n = 3 };
}

-- then 2 at level 0
abbrev pub three : Index counting
three = record two {
  vectors = 5 ∷ 9 ∷ 2 ∷ [];
  levels = 1 ∷ 2 ∷ 0 ∷ [];
  labels = client_label 5 ∷ client_label 9 ∷ client_label 2 ∷ [];
  links = record {
    max_m = 2;
    max_m0 = 4;
    stride_l0 = 5;
    stride_upper = 3;
    links_l0 = 2 ∷ 1 ∷ 2 ∷ 0 ∷ 0 ∷ 2 ∷ 0 ∷ 2 ∷ 0 ∷ 0 ∷ 2 ∷ 0 ∷ 1 ∷ 0 ∷ 0 ∷ [];
    links_upper = (1 ∷ 1 ∷ 0 ∷ []) ∷ (1 ∷ 0 ∷ 0 ∷ 0 ∷ 0 ∷ 0 ∷ []) ∷ [] ∷ [];
  };
  count = 3;
  label_to_id = (client_label 5, 0) ∷ (client_label 9, 1) ∷ (client_label 2, 2) ∷ [];
  rng = 10;
  visited_pool = record { pool = record { marks = 6 ∷ 6 ∷ 0 ∷ []; cur = 6 } ∷ []; n = 3 };
}

pub empty_Accepts : Accepts counting l2 1 3 2 4 7
empty_Accepts = (omega arith, omega arith, omega arith, omega arith)

pub empty-IsIndex : IsIndex empty
empty-IsIndex =
    initial-IsIndex counting l2 1 3 2 4 7 empty_Accepts (omega arith) (omega arith) (omega arith)

pub one_added : add_point empty (5 ∷ []) (client_label 5) ≡ some (ok 0, one)
unfolding add_point search initial_index find_id attach allocate assign_id label_eq descend_levels
    insert_layers search_layer loop next start admits distance raw_distance l2_squared_distance
    get_data scan avx_kernel cosine_distance dot_product hadd horizontal_sum kernel lane_loop
    load_term product scalar_kernel scalar_loop squared_difference descend round visit_link
    visit_links walk closer_first emplace farther_first pair_less sort normalize_in_place assign_row
    between connect_new_element connect_selected fill_pool link_all_back link_back random_level
    store stored_vector enter offer pop push_result top_or append_link copy_links degree_cap link_at
    link_count link_neighbors link_put set_links write_links backfill select_neighbors_heuristic
    spread too_close greedy_descend link_buffer query_vector trim unload acquire new_pool
    new_visited release reset test_and_set
one_added = refl

pub one-IsIndex : IsIndex one
one-IsIndex =
    Step-IsIndex empty counting-IsOrdered empty-IsIndex one
      (adds (5 ∷ []) (client_label 5) (ok 0, one) one_added)

pub two_added : add_point one (9 ∷ []) (client_label 9) ≡ some (ok 1, two)
unfolding add_point search initial_index find_id attach allocate assign_id label_eq descend_levels
    insert_layers search_layer loop next start admits distance raw_distance l2_squared_distance
    get_data scan avx_kernel cosine_distance dot_product hadd horizontal_sum kernel lane_loop
    load_term product scalar_kernel scalar_loop squared_difference descend round visit_link
    visit_links walk closer_first emplace farther_first pair_less sort normalize_in_place assign_row
    between connect_new_element connect_selected fill_pool link_all_back link_back random_level
    store stored_vector enter offer pop push_result top_or append_link copy_links degree_cap link_at
    link_count link_neighbors link_put set_links write_links backfill select_neighbors_heuristic
    spread too_close greedy_descend link_buffer query_vector trim unload acquire new_pool
    new_visited release reset test_and_set
two_added = refl

pub two-IsIndex : IsIndex two
two-IsIndex =
    Step-IsIndex one counting-IsOrdered one-IsIndex two
      (adds (9 ∷ []) (client_label 9) (ok 1, two) two_added)

pub three_added : add_point two (2 ∷ []) (client_label 2) ≡ some (ok 2, three)
unfolding add_point search initial_index find_id attach allocate assign_id label_eq descend_levels
    insert_layers search_layer loop next start admits distance raw_distance l2_squared_distance
    get_data scan avx_kernel cosine_distance dot_product hadd horizontal_sum kernel lane_loop
    load_term product scalar_kernel scalar_loop squared_difference descend round visit_link
    visit_links walk closer_first emplace farther_first pair_less sort normalize_in_place assign_row
    between connect_new_element connect_selected fill_pool link_all_back link_back random_level
    store stored_vector enter offer pop push_result top_or append_link copy_links degree_cap link_at
    link_count link_neighbors link_put set_links write_links backfill select_neighbors_heuristic
    spread too_close greedy_descend link_buffer query_vector trim unload acquire new_pool
    new_visited release reset test_and_set
three_added = refl

pub three-IsIndex : IsIndex three
three-IsIndex =
    Step-IsIndex two counting-IsOrdered two-IsIndex three
      (adds (2 ∷ []) (client_label 2) (ok 2, three) three_added)

-- a search for the two nearest of 8
found_labels : Option (List (SearchResult counting) × Index counting) → List ℕ
found_labels none = []
found_labels (some r) = map (λ res. res.label.label) r.0

search_run : found_labels (search three (8 ∷ []) 2 3) ≡ 9 ∷ 5 ∷ []
unfolding found_labels add_point search initial_index find_id attach allocate assign_id label_eq
    descend_levels insert_layers search_layer loop next start admits distance raw_distance
    l2_squared_distance get_data scan avx_kernel cosine_distance dot_product hadd horizontal_sum
    kernel lane_loop load_term product scalar_kernel scalar_loop squared_difference descend round
    visit_link visit_links walk closer_first emplace farther_first pair_less sort normalize_in_place
    assign_row between connect_new_element connect_selected fill_pool link_all_back link_back
    random_level store stored_vector enter offer pop push_result top_or append_link copy_links
    degree_cap link_at link_count link_neighbors link_put set_links write_links backfill
    select_neighbors_heuristic spread too_close greedy_descend link_buffer query_vector trim unload
    acquire new_pool new_visited release reset test_and_set
search_run = refl
