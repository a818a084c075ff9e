-- ===== src/Snapshot/Conditions.antt =====
-- What a snapshot relies on: the ranges of the C++ types, what the constructor sets, and the slots
-- that are not in use; and the index that load gives back.
use vector_search_engine.Base.{◌+◌, ◌*◌, ◌%◌, ◌^◌, ◌<◌, max, [], length, drop, replicate, All, ◌≡◌}
use vector_search_engine.Platform.{Platform}
use vector_search_engine.Visited.{new_pool}
use vector_search_engine.Bytes.Arrays.{Fits}
use vector_search_engine.Index.{Index, initial_index}
use vector_search_engine.Index.Construction.{Accepts}
use vector_search_engine.Snapshot.{Encoding, index_labels}
use vector_search_engine.Snapshot.Reading.{IsRow}
use vector_search_engine.Snapshot.Labels.{IsLabel}

module _ {P : Platform} (enc : Encoding P) where
  -- a float that its four bytes hold
  abbrev pub IsFloat : P.F → Type 0
  IsFloat x = Fits 4 (enc.bits x) × (enc.of_bits (enc.bits x) ≡ x)

  -- Every number of the index lies in the range of its C++ type.
  pub record IsTyped (idx : Index P) : Type 0 where
    pub dim : idx.dim < 2 ^ 64
    pub m : idx.m < 2 ^ 64
    pub ef_construction : idx.ef_construction < 2 ^ 64
    pub num_deleted : idx.num_deleted < 2 ^ 64
    pub max_level : idx.max_level < 2 ^ 32
    pub entry_point : idx.entry_point < 2 ^ 32
    pub vectors : All IsFloat idx.vectors
    pub zero : IsFloat P.fzero
    pub levels : All (Fits 4) idx.levels
    pub labels : All IsLabel idx.labels
    pub deleted : All (Fits 1) idx.deleted
    pub links_l0 : All (Fits 4) idx.links.links_l0
    pub links_upper : All IsRow idx.links.links_upper
    -- the arrays lie in an address space of 64 bits
    pub bytes : idx.max_elements * idx.dim * 4 < 2 ^ 64

-- What the constructor sets and no operation changes.
pub record IsBuilt {P : Platform} (idx : Index P) : Type 0 where
  pub accepted : Accepts P idx.space idx.dim idx.max_elements idx.m idx.ef_construction 100
  pub max_m : idx.links.max_m ≡ idx.m
  pub max_m0 : idx.links.max_m0 ≡ (idx.m * 2) % 2 ^ 64
  pub stride_l0 : idx.links.stride_l0 ≡ (idx.links.max_m0 + 1) % 2 ^ 64
  pub stride_upper : idx.links.stride_upper ≡ (idx.m + 1) % 2 ^ 64
  pub level_mult : idx.level_mult ≡ P.ddiv P.done (P.dlog (P.of_size idx.m))
  pub ef_construction : max idx.ef_construction idx.m ≡ idx.ef_construction
  pub vectors : length idx.vectors ≡ idx.max_elements * idx.dim

-- The slots that are not in use hold what the constructor put there.
pub record IsBlank {P : Platform} (idx : Index P) : Type 0 where
  pub vectors :
      drop (idx.count * idx.dim) (replicate (idx.max_elements * idx.dim) P.fzero)
      ≡ drop (idx.count * idx.dim) idx.vectors
  pub levels : drop idx.count (replicate idx.max_elements 0) ≡ drop idx.count idx.levels
  pub labels :
      drop idx.count (replicate idx.max_elements (record { client_id = 0; label = 0 }))
      ≡ drop idx.count idx.labels
  pub deleted : drop idx.count (replicate idx.max_elements 0) ≡ drop idx.count idx.deleted
  pub links_l0 :
      drop (idx.count * idx.links.stride_l0) (replicate (idx.max_elements * idx.links.stride_l0) 0)
      ≡ drop (idx.count * idx.links.stride_l0) idx.links.links_l0
  pub links_upper :
      drop idx.count (replicate idx.max_elements []) ≡ drop idx.count idx.links.links_upper

-- what load gives for the snapshot of an index
abbrev pub reloaded : {P : Platform} → Index P → Index P
reloaded {P} idx = record idx {
  label_to_id = index_labels idx.count 0 idx.labels [];
  rng = P.seeded 100;
  visited_pool = new_pool 1 idx.max_elements;
}

-- the index that the constructor builds in load
abbrev pub fresh : {P : Platform} → Index P → Index P
fresh {P} idx = initial_index P idx.space idx.dim idx.max_elements idx.m idx.ef_construction 100
