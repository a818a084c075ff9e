-- ===== src/Links/Blocks.antt =====
-- Blocks of include/hnsw.hpp read back as lists, after setLinks and after the append of
-- connectNewElement.
use vector_search_engine.Base.{
  ℕ, zero, suc, ◌+◌, ◌%◌, ◌^◌, min, ◌≤◌, ◌<◌, false, ◌&&◌, List, [], ◌∷◌, ◌++◌, length, take,
  if◌then◌else◌, ◌==◌, ◌≡◌, refl, ap, arith, inl, inr, ◌∙◌, ◌⊎◌, length-take,
}
use vector_search_engine.Links.{
  Links, link_at, link_put, link_count, copy_links, link_neighbors, degree_cap, write_links,
  set_links, append_link,
}
use vector_search_engine.Links.Cells.{stride, Room, Room-put, link_at-put}

pub stride-put : (lk : Links) (i l k v m : ℕ) → stride (link_put lk i l k v) m ≡ stride lk m
unfolding link_put
stride-put lk i zero k v zero = refl
stride-put lk i zero k v (suc m) = refl
stride-put lk i (suc l) k v zero = refl
stride-put lk i (suc l) k v (suc m) = refl

-- the same cells in one block of two states
unfoldable pub Same : Links → Links → ℕ → ℕ → Type 0
Same lk lk' j m = (q : ℕ) → q < stride lk m → link_at lk' j m q ≡ link_at lk j m q

module _ (i l : ℕ) where
  pub Room-write :
      (xs : List ℕ) (lk : Links) (k j m : ℕ) → Room lk j m → Room (write_links lk i l k xs) j m
  unfolding write_links
  Room-write [] lk k j m r = r
  Room-write (x ∷ xs) lk k j m r =
      Room-write xs (link_put lk i l k x) (suc k) j m (Room-put lk i x l k j m r)

  pub stride-write :
      (xs : List ℕ) (lk : Links) (k m : ℕ) → stride (write_links lk i l k xs) m ≡ stride lk m
  unfolding write_links
  stride-write [] lk k m = refl
  stride-write (x ∷ xs) lk k m =
      stride-write xs (link_put lk i l k x) (suc k) m ∙ stride-put lk i l k x m

  -- cells of other blocks and cells before the first one written stay
  link_at-write :
      (xs : List ℕ) (lk : Links) (k j m q : ℕ)
      → Room lk i l
      → k + length xs ≤ stride lk l
      → q < stride lk m
      → (((l == m) && (i == j)) ≡ false) ⊎ (q < k)
      → link_at (write_links lk i l k xs) j m q ≡ link_at lk j m q
  unfolding write_links
  link_at-write [] lk k j m q r h hq other = refl
  link_at-write (x ∷ xs) lk k j m q r h hq other =
      link_at-write xs (link_put lk i l k x) (suc k) j m q (Room-put lk i x l k i l r)
        (rw stride-put (omega arith)) (rw stride-put hq) (ground arith)
      ∙ link_at-put lk i x l k j m q r (omega arith) hq
      ∙ ground arith

  copy-write :
      (xs : List ℕ) (lk : Links) (k : ℕ)
      → Room lk i l
      → k + length xs ≤ stride lk l
      → copy_links (write_links lk i l k xs) i l k (length xs) ≡ xs
  unfolding write_links copy_links
  copy-write [] lk k r h = refl
  copy-write (x ∷ xs) lk k r h =
      let lk' = link_put lk i l k x in
      let r' = Room-put lk i x l k i l r in
      let h' : suc k + length xs ≤ stride lk' l = rw stride-put (omega arith) in
      let head : link_at (write_links lk' i l (suc k) xs) i l k ≡ x =
        link_at-write xs lk' (suc k) i l k r' h' (rw stride-put (omega arith)) (inr (omega arith))
        ∙ link_at-put lk i x l k i l k r (omega arith) (omega arith)
        ∙ ground arith in
      rw (head, copy-write xs lk' (suc k) r' h')

-- blocks that agree on the cells read give the same list
copy_agree :
    (lk lk' : Links) (j m k n : ℕ)
    → ((q : ℕ) → k ≤ q → q < k + n → link_at lk' j m q ≡ link_at lk j m q)
    → copy_links lk' j m k n ≡ copy_links lk j m k n
unfolding copy_links
copy_agree lk lk' j m k zero s = refl
copy_agree lk lk' j m k (suc n) s = rw (
  s k (omega arith) (omega arith),
  copy_agree lk lk' j m (suc k) n (λ q lo hi. s q (omega arith) (omega arith)),
)

-- a block that is the same reads back as the same list
pub neighbors-Same :
    (lk lk' : Links) (j m : ℕ)
    → Same lk lk' j m
    → link_count lk j m < stride lk m
    → link_neighbors lk' j m ≡ link_neighbors lk j m
unfolding link_neighbors link_count
neighbors-Same lk lk' j m s h =
    let e : link_at lk' j m 0 ≡ link_at lk j m 0 = unfold Same in s 0 (omega arith) in
    rw e (copy_agree lk lk' j m 1 (link_at lk j m 0) (λ q lo hi. unfold Same in s q (omega arith)))

take-min : (n : ℕ) (xs : List ℕ) → take (min (length xs) n) xs ≡ take n xs
take-min zero [] = refl
take-min (suc n) [] = let e : min 0 (suc n) ≡ 0 = omega arith in rw e
take-min zero (x ∷ xs) = let e : min (suc (length xs)) 0 ≡ 0 = omega arith in rw e
take-min (suc n) (x ∷ xs) =
    let e : min (suc (length xs)) (suc n) ≡ suc (min (length xs) n) = omega arith in
    rw e (ap (◌∷◌ x) (take-min n xs))

-- the strides leave room for the counts, which fit their uint32_t
pub record IsShaped (lk : Links) : Type 0 where
  pub layer0 : lk.stride_l0 ≡ lk.max_m0 + 1
  pub upper : lk.stride_upper ≡ lk.max_m + 1
  pub small0 : lk.max_m0 + 1 < 2 ^ 32
  pub small : lk.max_m + 1 < 2 ^ 32

pub stride-cap :
    (lk : Links) (m : ℕ)
    → IsShaped lk
    → (stride lk m ≡ degree_cap lk m + 1) × (degree_cap lk m + 1 < 2 ^ 32)
unfolding degree_cap
stride-cap lk zero h = (h.layer0, h.small0)
stride-cap lk (suc m) h = (h.upper, h.small)

module _ (lk : Links) (i l : ℕ) (h : IsShaped lk) (r : Room lk i l) where
  counted : List ℕ → Links
  counted ns = link_put lk i l 0 (min (length ns) (degree_cap lk l) % 2 ^ 32)

  kept : List ℕ → List ℕ
  kept ns = take (min (length ns) (degree_cap lk l)) ns

  kept-fits : (ns : List ℕ) → 1 + length (kept ns) ≤ stride (counted ns) l
  unfolding kept counted
  kept-fits ns = rw stride-put (omega (arith, length-take {0}, stride-cap lk l h))

  -- setLinks stores the links that fit the block, in their order.
  pub neighbors-set_links :
      (ns : List ℕ) → link_neighbors (set_links lk i l ns) i l ≡ take (degree_cap lk l) ns
  unfolding link_neighbors link_count set_links counted kept kept-fits
  neighbors-set_links ns =
      let r' = Room-put lk i (min (length ns) (degree_cap lk l) % 2 ^ 32) l 0 i l r in
      let count : link_at (set_links lk i l ns) i l 0 ≡ length (kept ns) =
        link_at-write i l (kept ns) (counted ns) 1 i l 0 r' (kept-fits ns)
          (rw stride-put (omega (arith, stride-cap lk l h))) (inr (omega arith))
        ∙ link_at-put lk i (min (length ns) (degree_cap lk l) % 2 ^ 32) l 0 i l 0 r
            (omega (arith, stride-cap lk l h)) (omega (arith, stride-cap lk l h))
        ∙ ground (arith, length-take (min (length ns) (degree_cap lk l)) ns, stride-cap lk l h) in
      rw count
        (copy-write i l (kept ns) (counted ns) 1 r' (kept-fits ns) ∙ take-min (degree_cap lk l) ns)

  -- ... and leaves every other block as it was.
  pub set_links-Same :
      (ns : List ℕ) (j m : ℕ) → ((l == m) && (i == j)) ≡ false → Same lk (set_links lk i l ns) j m
  unfolding Same set_links counted kept kept-fits
  set_links-Same ns j m other q hq =
      let r' = Room-put lk i (min (length ns) (degree_cap lk l) % 2 ^ 32) l 0 i l r in
      link_at-write i l (kept ns) (counted ns) 1 j m q r' (kept-fits ns) (rw stride-put hq)
        (inl other)
      ∙ link_at-put lk i (min (length ns) (degree_cap lk l) % 2 ^ 32) l 0 j m q r
          (omega (arith, stride-cap lk l h)) hq
      ∙ ground arith

copy_concat :
    (lk : Links) (j m k n : ℕ)
    → copy_links lk j m k (suc n) ≡ copy_links lk j m k n ++ link_at lk j m (k + n) ∷ []
unfolding copy_links
copy_concat lk j m k zero = let e : k + 0 ≡ k = omega arith in rw e
copy_concat lk j m k (suc n) =
    let e : k + suc n ≡ suc k + n = omega arith in
    rw e (ap (◌∷◌ (link_at lk j m k)) (copy_concat lk j m (suc k) n))

module _ (lk : Links) (i l new : ℕ) (h : IsShaped lk) (r : Room lk i l)
    (space : link_count lk i l < degree_cap lk l) where
  appended-at :
      (j m q : ℕ)
      → q < stride lk m
      → link_at (append_link lk i l new) j m q ≡ (
          if ((l == m) && (i == j)) && (0 == q)
          then link_count lk i l + 1
          else if ((l == m) && (i == j)) && ((link_count lk i l + 1) == q)
          then new
          else link_at lk j m q)
  unfolding append_link
  appended-at j m q hq =
      let deg = link_count lk i l in
      let cap = stride-cap lk l h in
      link_at-put (link_put lk i l (deg + 1) new) i ((deg + 1) % 2 ^ 32) l 0 j m q
        (Room-put lk i new l (deg + 1) i l r) (rw stride-put (omega arith)) (rw stride-put hq)
      ∙ rw
          (
            link_at-put lk i new l (deg + 1) j m q r (omega arith) hq,
            let e : (deg + 1) % 2 ^ 32 ≡ deg + 1 = omega arith in e,
          )
          refl

  -- Where there is space the append adds one link at the end of the block.
  pub neighbors-append_link :
      link_neighbors (append_link lk i l new) i l ≡ link_neighbors lk i l ++ new ∷ []
  unfolding link_neighbors
  neighbors-append_link =
      let lk' = append_link lk i l new in
      let deg = link_count lk i l in
      let cap = stride-cap lk l h in
      let count : link_count lk' i l ≡ suc deg =
        unfold link_count in (appended-at i l 0 (omega arith) ∙ ground arith) in
      let last : link_at lk' i l (1 + deg) ≡ new =
        appended-at i l (1 + deg) (omega arith) ∙ ground arith in
      rw (count, copy_concat lk' i l 1 deg, last)
        (ap (λ ns. ns ++ new ∷ [])
          (copy_agree lk lk' i l 1 deg (λ q lo hi. appended-at i l q (omega arith) ∙ ground arith)))

  -- ... and leaves every other block as it was.
  pub append_link-Same :
      (j m : ℕ) → ((l == m) && (i == j)) ≡ false → Same lk (append_link lk i l new) j m
  unfolding Same
  append_link-Same j m other q hq = appended-at j m q hq ∙ ground arith
