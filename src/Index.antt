-- ===== src/Index.antt =====
-- hnsw::Index of include/hnsw.hpp: its state, the constructor and the accessors. Its operations are
-- in Search (search), Insert (addPoint) and Delete (markDeleted, unmarkDeleted).
use Prim.Native.String.{String}
use vector_search_engine.Base.{
  ℕ, zero, suc, ◌+◌, ◌-◌, ◌*◌, ◌%◌, ◌^◌, max, Bool, true, false, not, ◌&&◌, ◌||◌, List, [], ◌∷◌,
  Option, none, some, if◌then◌else◌, ltb, leb, ◌==◌, length, get_or, set, take, drop, replicate,
  map,
}
use vector_search_engine.Platform.{Platform}
pub mod Invariant
pub mod Labels
pub mod Construction
use vector_search_engine.Result.{Result, ok, throw}
use vector_search_engine.Visited.{VisitedListPool, new_pool}
use vector_search_engine.Links.{Links}
use vector_search_engine.Distance.{dot_product, l2_squared_distance, cosine_distance}

pub record Label : Type 0 where
  pub client_id : ℕ
  pub label : ℕ

unfoldable pub label_eq : Label → Label → Bool
label_eq a b = (a.client_id == b.client_id) && (a.label == b.label)

pub data Space : Type 0 where
  cosine l2 : Space

abbrev pub max_degree : ℕ
max_degree = 256

abbrev pub k_none : ℕ
k_none = 2 ^ 32 - 1

-- The members, less the locks. `links` groups maxM_, maxM0_, the strides and the two link arrays;
-- `label_to_id` is the std::unordered_map, one entry for each key.
pub record Index (P : Platform) : Type 0 where
  pub space : Space
  pub dim : ℕ
  pub max_elements : ℕ
  pub m : ℕ
  pub ef_construction : ℕ
  pub level_mult : P.D
  pub vectors : List P.F
  pub levels : List ℕ
  pub labels : List Label
  pub deleted : List ℕ
  pub links : Links
  pub count : ℕ
  pub num_deleted : ℕ
  pub entry_point : ℕ
  pub max_level : ℕ
  pub label_to_id : List (Label × ℕ)
  pub rng : P.Rng
  pub visited_pool : VisitedListPool

-- std::unordered_map<Label, idx_t>: find, and assignment through operator[]
unfoldable pub find_id : Label → List (Label × ℕ) → Option ℕ
find_id l [] = none
find_id l ((j, id) ∷ entries) = if label_eq j l then some id else find_id l entries

unfoldable pub assign_id : Label → ℕ → List (Label × ℕ) → List (Label × ℕ)
assign_id l id [] = (l, id) ∷ []
assign_id l id ((j, old) ∷ entries) =
    if label_eq j l then (j, id) ∷ entries else (j, old) ∷ assign_id l id entries

module _ (P : Platform) where
  -- the member initialisers and the assignments of the constructor
  unfoldable pub initial_index : Space → ℕ → ℕ → ℕ → ℕ → ℕ → Index P
  initial_index space dim max_elements m ef_construction seed =
      let max_m0 = (m * 2) % 2 ^ 64 in
      let stride_l0 = (max_m0 + 1) % 2 ^ 64 in
      record {
        space = space;
        dim = dim;
        max_elements = max_elements;
        m = m;
        ef_construction = max ef_construction m;
        level_mult = P.ddiv P.done (P.dlog (P.of_size m));
        vectors = replicate ((max_elements * dim) % 2 ^ 64) P.fzero;
        levels = replicate max_elements 0;
        labels = replicate max_elements (record { client_id = 0; label = 0 });
        deleted = replicate max_elements 0;
        links = record {
          max_m = m;
          max_m0 = max_m0;
          stride_l0 = stride_l0;
          stride_upper = (m + 1) % 2 ^ 64;
          links_l0 = replicate ((max_elements * stride_l0) % 2 ^ 64) 0;
          links_upper = replicate max_elements [];
        };
        count = 0;
        num_deleted = 0;
        entry_point = k_none;
        max_level = 0;
        label_to_id = [];
        rng = P.seeded seed;
        visited_pool = new_pool 1 max_elements;
      }

  -- The constructor. A failed allocation is not modelled.
  unfoldable pub new_index : Space → ℕ → ℕ → ℕ → ℕ → ℕ → Result (Index P)
  new_index space dim max_elements m ef_construction seed =
      if dim == 0
      then throw "dim must be > 0"
      else if max_elements == 0
      then throw "maxElements must be > 0"
      else if m == 0 || ltb max_degree ((m * 2) % 2 ^ 64)
      then throw "M must be in 1..kMaxDegree/2"
      else ok (initial_index space dim max_elements m ef_construction seed)

module _ {P : Platform} (idx : Index P) where
  unfoldable pub size : ℕ
  size = idx.count

  unfoldable pub active_size : ℕ
  active_size = (idx.count + 2 ^ 64 - idx.num_deleted) % 2 ^ 64

  unfoldable pub get_data : ℕ → List P.F
  get_data id = take idx.dim (drop (id * idx.dim) idx.vectors)

  unfoldable pub normalize_in_place : List P.F → List P.F
  normalize_in_place v =
      let norm = P.fsqrt (dot_product P v v idx.dim) in
      if P.fle norm P.ftiny then v else (let inv = P.fdiv P.fone norm in map (λ x. P.fmul x inv) v)

  unfoldable pub raw_distance : List P.F → List P.F → P.F
  raw_distance a b = elim idx.space [
    | cosine ↦ cosine_distance P a b idx.dim
    | l2 ↦ l2_squared_distance P a b idx.dim
  ]

  unfoldable pub distance : List P.F → ℕ → P.F
  distance q target = raw_distance q (get_data target)

  -- sums of the lengths of the upper rows, in bytes
  unfoldable pub upper_bytes : List (List ℕ) → ℕ
  upper_bytes [] = 0
  upper_bytes (row ∷ rows) = length row * 4 + upper_bytes rows

  unfoldable pub memory_bytes : ℕ
  memory_bytes =
      (length idx.vectors * 4 + length idx.links.links_l0 * 4 + upper_bytes idx.links.links_upper)
      % 2 ^ 64
