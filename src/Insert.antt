-- ===== src/Insert.antt =====
-- Index::addPoint, connectNewElement and randomLevel of include/hnsw.hpp, for one caller at a time:
-- the locks and the entry-point probe then have no effect of their own.
pub mod Connect
pub mod Linked
pub mod Rows
pub mod Allocation
pub mod Growth
pub mod Beyond
pub mod Outcome
pub mod Labelled
pub mod Vectors
use vector_search_engine.Base.{
  ℕ, zero, suc, ◌+◌, ◌-◌, ◌*◌, ◌%◌, ◌^◌, min, Bool, true, false, List, [], ◌∷◌, Option, none, some,
  if◌then◌else◌, ltb, leb, ◌==◌, length, set, take, replicate,
}
use vector_search_engine.Platform.{Platform}
use vector_search_engine.Result.{Result, ok, throw}
use vector_search_engine.Heap.{Cand, emplace, farther_first}
use vector_search_engine.Links.{
  Links, link_count, link_neighbors, degree_cap, set_links, append_link,
}
use vector_search_engine.Neighbors.{select_neighbors_heuristic}
use vector_search_engine.Index.{
  Index, Label, Space, cosine, l2, k_none, get_data, raw_distance, normalize_in_place, find_id,
  assign_id,
}
use vector_search_engine.Search.{search_layer, descend_levels, ◌>>=◌}

module _ (P : Platform) (between : ℕ → ℕ → P.F) (m id level : ℕ) where
  -- the candidates for a full node `n`: the new element and the old links
  unfoldable pub fill_pool : ℕ → List ℕ → List (Cand P) → List (Cand P)
  fill_pool n [] pool = pool
  fill_pool n (e ∷ es) pool = fill_pool n es (emplace (farther_first P) (between n e, e) pool)

  -- the body of the loop over `selected`: a link from `n` back to the new element
  unfoldable pub link_back : Links → ℕ → Links
  unfolding fill_pool
  link_back lk n =
      let deg = link_count lk n level in
      let cap = degree_cap lk level in
      let pool = fill_pool n (link_neighbors lk n level) ((between n id, id) ∷ []) in
      if ltb deg cap
      then append_link lk n level id
      else set_links lk n level (select_neighbors_heuristic P between pool cap)

  unfoldable pub link_all_back : Links → List ℕ → Links
  unfolding link_back
  link_all_back lk [] = lk
  link_all_back lk (n ∷ ns) = link_all_back (link_back lk n) ns

  -- what follows the selection: the entry for the next level, and the links
  unfoldable pub connect_selected : Links → List ℕ → ℕ × Links
  unfolding link_all_back
  connect_selected lk [] = (id, lk)
  connect_selected lk (first ∷ rest) =
      let selected = first ∷ rest in
      (first, link_all_back (set_links lk id level selected) selected)

  unfoldable pub connect_new_element : Links → List (Cand P) → ℕ × Links
  unfolding connect_selected
  connect_new_element lk top = connect_selected lk (select_neighbors_heuristic P between top m)

-- std::memcpy of a vector to an offset
unfoldable pub store {ℓ} : {A : Type ℓ} → List A → ℕ → List A → List A
store dst offset [] = dst
store dst offset (x ∷ xs) = store (set dst offset x) (suc offset) xs

-- `if (level > 0) linksUpper_[id].assign(level * strideUpper_, 0)`
unfoldable pub assign_row : Links → ℕ → ℕ → Links
assign_row lk id level =
    if ltb 0 level
    then record lk { links_upper = set lk.links_upper id (replicate (level * lk.stride_upper) 0) }
    else lk

module _ {P : Platform} (idx : Index P) where
  unfoldable pub between : ℕ → ℕ → P.F
  between a b = raw_distance idx (get_data idx a) (get_data idx b)

  -- randomLevel. For M = 1 the number that it casts is infinite and the cast undefined in C++.
  unfoldable pub random_level : ℕ × P.Rng
  random_level =
      let (u, rng) = P.uniform idx.rng in
      let u' = if P.dle u P.dzero then P.dmin else u in
      (P.to_int (P.dmul (P.dneg (P.dlog u')) idx.level_mult), rng)

  -- the vector as it is stored
  unfoldable pub stored_vector : List P.F → List P.F
  stored_vector vec = elim idx.space [
    | cosine ↦ normalize_in_place idx (take idx.dim vec)
    | l2 ↦ take idx.dim vec
  ]

  -- the new element's vector, label, level and empty blocks
  unfoldable pub allocate : List P.F → Label → Index P
  unfolding store stored_vector random_level assign_row
  allocate vec label =
      let id = idx.count % 2 ^ 32 in
      let (level, rng) = random_level in
      record idx {
        count = (idx.count + 1) % 2 ^ 64;
        vectors = store idx.vectors (id * idx.dim) (stored_vector vec);
        labels = set idx.labels id label;
        deleted = set idx.deleted id 0;
        label_to_id = assign_id label id idx.label_to_id;
        levels = set idx.levels id level;
        rng = rng;
        links = assign_row idx.links id level;
      }

-- the loop over the levels from `l - 1` down to 0
unfoldable pub insert_layers : {P : Platform} → Index P → ℕ → ℕ → ℕ → Option (Index P)
unfolding connect_new_element between
insert_layers idx id cur zero = some idx
insert_layers {P} idx id cur (suc l) =
    search_layer idx (get_data idx id) cur idx.ef_construction l false >>= λ r.
    let (next, lk) = connect_new_element P (between idx) idx.m id l idx.links r.0 in
    insert_layers (record idx { visited_pool = r.1; links = lk }) id next l

-- what follows the allocation of `id` at `level`
unfoldable pub attach : {P : Platform} → Index P → ℕ → ℕ → Option (Index P)
attach idx id level =
    let top = idx.max_level in
    let raised = λ (idx' : Index _).
      if ltb top level then record idx' { entry_point = id; max_level = level } else idx' in
    let run = descend_levels idx (get_data idx id) idx.entry_point level (top - level) >>= λ cur.
    insert_layers idx id cur (min level top + 1) >>= λ idx'. some (raised idx') in
    if idx.entry_point == k_none
    then some (record idx { entry_point = id; max_level = level })
    else run

-- The new id or the exception, and the index afterwards; `none` is fuel that ran out.
unfoldable pub add_point : {P : Platform} → Index P → List P.F → Label → Option (Result ℕ × Index P)
add_point idx vec label =
    let id = idx.count % 2 ^ 32 in
    let run =
      attach (allocate idx vec label) id (random_level idx).0 >>= λ idx'. some (ok id, idx') in
    elim (find_id label idx.label_to_id) [
      | some _ ↦ some (throw "duplicate label; use updatePoint or a new label", idx)
      | none ↦
          if leb idx.max_elements id
          then some (
            throw "index is full: raise maxElements",
            record idx { count = ((idx.count + 1) % 2 ^ 64 + 2 ^ 64 - 1) % 2 ^ 64 },
          )
          else run
    ]
