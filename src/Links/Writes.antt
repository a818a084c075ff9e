-- ===== src/Links/Writes.antt =====
-- What one write of a whole block does to the adjacency storage, for setLinks and for the append.
use vector_search_engine.Base.{
  ℕ, zero, suc, ◌+◌, ◌%◌, ◌^◌, min, ◌<◌, false, ◌&&◌, List, [], ◌∷◌, ◌++◌, length, take, ◌==◌, ◌≡◌,
  refl, ap, ◌∙◌, length-set,
}
use vector_search_engine.Links.{
  Links, link_put, link_count, copy_links, link_neighbors, degree_cap, write_links, set_links,
  append_link,
}
use vector_search_engine.Links.Cells.{Room, Room-put}
use vector_search_engine.Links.Blocks.{
  Same, IsShaped, Room-write, neighbors-set_links, set_links-Same, neighbors-append_link,
  append_link-Same,
}

-- the same degrees, strides and array lengths
pub record SameShape (lk lk' : Links) : Type 0 where
  pub m : lk'.max_m ≡ lk.max_m
  pub m0 : lk'.max_m0 ≡ lk.max_m0
  pub s0 : lk'.stride_l0 ≡ lk.stride_l0
  pub s : lk'.stride_upper ≡ lk.stride_upper
  pub size0 : length lk'.links_l0 ≡ length lk.links_l0
  pub size : length lk'.links_upper ≡ length lk.links_upper

pub SameShape-trans : {a b c : Links} → SameShape a b → SameShape b c → SameShape a c
SameShape-trans h k = record {
  m = k.m ∙ h.m;
  m0 = k.m0 ∙ h.m0;
  s0 = k.s0 ∙ h.s0;
  s = k.s ∙ h.s;
  size0 = k.size0 ∙ h.size0;
  size = k.size ∙ h.size;
}

put-SameShape : (lk : Links) (i l k v : ℕ) → SameShape lk (link_put lk i l k v)
unfolding link_put
put-SameShape lk i zero k v = record {
  m = refl;
  m0 = refl;
  s0 = refl;
  s = refl;
  size0 = length-set lk.links_l0 _ v;
  size = refl;
}
put-SameShape lk i (suc l) k v = record {
  m = refl;
  m0 = refl;
  s0 = refl;
  s = refl;
  size0 = refl;
  size = length-set lk.links_upper i _;
}

write-SameShape :
    (i l : ℕ) (xs : List ℕ) (lk : Links) (k : ℕ) → SameShape lk (write_links lk i l k xs)
unfolding write_links
write-SameShape i l [] lk k = record {
  m = refl;
  m0 = refl;
  s0 = refl;
  s = refl;
  size0 = refl;
  size = refl;
}
write-SameShape i l (x ∷ xs) lk k =
    SameShape-trans (put-SameShape lk i l k x)
      (write-SameShape i l xs (link_put lk i l k x) (suc k))

-- block (i, l) now holds `ns`, and nothing else changed
pub record Writes (lk lk' : Links) (i l : ℕ) (ns : List ℕ) : Type 0 where
  pub shape : SameShape lk lk'
  pub room : (j m : ℕ) → Room lk j m → Room lk' j m
  pub block : link_neighbors lk' i l ≡ ns
  pub other : (j m : ℕ) → ((l == m) && (i == j)) ≡ false → Same lk lk' j m

-- a list read from a block is as long as its count
length-copy : (lk : Links) (i l k n : ℕ) → length (copy_links lk i l k n) ≡ n
unfolding copy_links
length-copy lk i l k zero = refl
length-copy lk i l k (suc n) = ap suc (length-copy lk i l (suc k) n)

pub length-neighbors : (lk : Links) (i l : ℕ) → length (link_neighbors lk i l) ≡ link_count lk i l
unfolding link_neighbors
length-neighbors lk i l = length-copy lk i l 1 (link_count lk i l)

module _ (lk : Links) (i l : ℕ) (h : IsShaped lk) (r : Room lk i l) where
  -- Where the strides fit the degrees and the storage has the block, setLinks leaves in it the
  -- first links that fit, in their order, and leaves every other block and the shape of the
  -- storage as they were.
  pub set_links-Writes :
      (ns : List ℕ) → Writes lk (set_links lk i l ns) i l (take (degree_cap lk l) ns)
  unfolding set_links
  set_links-Writes ns =
      let n = min (length ns) (degree_cap lk l) in
      let lk1 = link_put lk i l 0 (n % 2 ^ 32) in
      record {
        shape =
            SameShape-trans (put-SameShape lk i l 0 (n % 2 ^ 32))
              (write-SameShape i l (take n ns) lk1 1);
        room =
            λ j m rj. Room-write i l (take n ns) lk1 1 j m (Room-put lk i (n % 2 ^ 32) l 0 j m rj);
        block = neighbors-set_links lk i l h r ns;
        other = set_links-Same lk i l h r ns;
      }

  -- Where the strides fit the degrees, the storage has the block and the block has space, the
  -- append of connectNewElement adds one link at the end of the block, and leaves every other
  -- block and the shape of the storage as they were.
  pub append_link-Writes :
      (new : ℕ)
      → link_count lk i l < degree_cap lk l
      → Writes lk (append_link lk i l new) i l (link_neighbors lk i l ++ new ∷ [])
  unfolding append_link
  append_link-Writes new space =
      let deg = link_count lk i l in
      let lk1 = link_put lk i l (deg + 1) new in
      record {
        shape =
            SameShape-trans (put-SameShape lk i l (deg + 1) new)
              (put-SameShape lk1 i l 0 ((deg + 1) % 2 ^ 32));
        room = λ j m rj.
            Room-put lk1 i ((deg + 1) % 2 ^ 32) l 0 j m (Room-put lk i new l (deg + 1) j m rj);
        block = neighbors-append_link lk i l new h r space;
        other = append_link-Same lk i l new h r space;
      }
