-- ===== src/Links.antt =====
-- The adjacency storage of hnsw::Index (include/hnsw.hpp: linksL0_, linksUpper_, linkBlock,
-- linkCount, linkNeighbors, setLinks). A block is a count followed by that many links; layer 0 has
-- its blocks in one array, and each node keeps the blocks of its upper layers in an array of its own.
use vector_search_engine.Base.{
  ℕ, zero, suc, ◌+◌, ◌*◌, ◌%◌, ◌^◌, min, List, [], ◌∷◌, length, get_or, set, take,
}
pub mod Cells
pub mod Blocks
pub mod Writes
pub mod Beyond

pub record Links : Type 0 where
  pub max_m : ℕ
  pub max_m0 : ℕ
  pub stride_l0 : ℕ
  pub stride_upper : ℕ
  pub links_l0 : List ℕ
  pub links_upper : List (List ℕ)

-- `linkBlock(id, level)[k]`, read
unfoldable pub link_at : Links → ℕ → ℕ → ℕ → ℕ
link_at lk id zero k = get_or lk.links_l0 (id * lk.stride_l0 + k) 0
link_at lk id (suc l) k = get_or (get_or lk.links_upper id []) (l * lk.stride_upper + k) 0

-- `linkBlock(id, level)[k] = v`
unfoldable pub link_put : Links → ℕ → ℕ → ℕ → ℕ → Links
link_put lk id zero k v = record lk { links_l0 = set lk.links_l0 (id * lk.stride_l0 + k) v }
link_put lk id (suc l) k v = record lk {
  links_upper =
      set lk.links_upper id (set (get_or lk.links_upper id []) (l * lk.stride_upper + k) v);
}

unfoldable pub link_count : Links → ℕ → ℕ → ℕ
link_count lk id level = link_at lk id level 0

-- `n` entries of a block from the `k`-th on
unfoldable pub copy_links : Links → ℕ → ℕ → ℕ → ℕ → List ℕ
copy_links lk id level k zero = []
copy_links lk id level k (suc n) = link_at lk id level k ∷ copy_links lk id level (suc k) n

-- the links that linkNeighbors points to
unfoldable pub link_neighbors : Links → ℕ → ℕ → List ℕ
link_neighbors lk id level = copy_links lk id level 1 (link_count lk id level)

unfoldable pub degree_cap : Links → ℕ → ℕ
degree_cap lk zero = lk.max_m0
degree_cap lk (suc l) = lk.max_m

unfoldable pub write_links : Links → ℕ → ℕ → ℕ → List ℕ → Links
write_links lk id level k [] = lk
write_links lk id level k (x ∷ xs) = write_links (link_put lk id level k x) id level (suc k) xs

unfoldable pub set_links : Links → ℕ → ℕ → List ℕ → Links
unfolding write_links
set_links lk id level ns =
    let n = min (length ns) (degree_cap lk level) in
    write_links (link_put lk id level 0 (n % 2 ^ 32)) id level 1 (take n ns)

-- the append in connectNewElement: `blk[deg + 1] = id; blk[0] = deg + 1`
unfoldable pub append_link : Links → ℕ → ℕ → ℕ → Links
append_link lk n level id =
    let deg = link_count lk n level in
    link_put (link_put lk n level (deg + 1) id) n level 0 ((deg + 1) % 2 ^ 32)
