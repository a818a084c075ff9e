-- ===== src/Index/Invariant.antt =====
-- When an index is well formed: the arrays have the sizes of the capacity, the links of an element
-- lead to elements of the level, and the entry point is an element of the top level.
use vector_search_engine.Base.{ℕ, ◌*◌, ◌≤◌, ◌<◌, ◌^◌, ◌≡◌, length, get_or, All}
use vector_search_engine.Platform.{Platform}
use vector_search_engine.Visited.Refinement.{IsPool}
use vector_search_engine.Links.{link_count, link_neighbors, degree_cap}
use vector_search_engine.Links.Cells.{Room}
use vector_search_engine.Links.Blocks.{IsShaped}
use vector_search_engine.Index.{Index, k_none, max_degree}

-- the level of an element
abbrev pub level_of : {P : Platform} → Index P → ℕ → ℕ
level_of idx id = get_or idx.levels id 0

-- an element whose level reaches `l`
abbrev pub Node : {P : Platform} → Index P → ℕ → ℕ → Type 0
Node idx l i = (i < idx.count) × (l ≤ level_of idx i)

-- the links of an element at a level lead to elements of that level
pub record IsBlock {P : Platform} (idx : Index P) (id l : ℕ) : Type 0 where
  pub room : Room idx.links id l
  pub fits : link_count idx.links id l ≤ degree_cap idx.links l
  pub inside : All (Node idx l) (link_neighbors idx.links id l)

-- the sizes of the arrays
pub record IsSized {P : Platform} (idx : Index P) : Type 0 where
  pub vectors : length idx.vectors ≡ idx.max_elements * idx.dim
  pub layer0 : length idx.links.links_l0 ≡ idx.max_elements * idx.links.stride_l0
  pub upper : length idx.links.links_upper ≡ idx.max_elements
  pub levels : length idx.levels ≡ idx.max_elements
  pub labels : length idx.labels ≡ idx.max_elements
  pub deleted : length idx.deleted ≡ idx.max_elements

-- the storage and the graph
pub record IsStore {P : Platform} (idx : Index P) : Type 0 where
  pub shaped : IsShaped idx.links
  pub degree : idx.links.max_m0 ≤ max_degree
  pub degree_upper : idx.links.max_m ≤ max_degree
  pub sized : IsSized idx
  pub capacity : idx.count ≤ idx.max_elements
  pub small : idx.max_elements < 2 ^ 32
  pub blocks : (id l : ℕ) → Node idx l id → IsBlock idx id l
  -- the blocks of layer 0 that are not in use yet are empty
  pub unused : (id : ℕ) → idx.count ≤ id → id < idx.max_elements → link_count idx.links id 0 ≡ 0
  pub pool : IsPool idx.max_elements idx.visited_pool

pub record IsGraph {P : Platform} (idx : Index P) : Type 0 where
  pub store : IsStore idx
  -- the entry point is an element of the top level, and there is none in an empty index
  pub entry : 0 < idx.count → idx.entry_point < idx.count
  pub top : 0 < idx.count → idx.max_level ≤ level_of idx idx.entry_point
  pub none_yet : idx.count ≡ 0 → idx.entry_point ≡ k_none
