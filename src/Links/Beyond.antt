-- ===== src/Links/Beyond.antt =====
-- What the writes of include/hnsw.hpp to the blocks of elements below a bound leave as it was: the
-- blocks from the bound on, and the members that the constructor sets.
use vector_search_engine.Base.{
  ℕ, zero, suc, ◌+◌, ◌*◌, ◌%◌, ◌^◌, min, ◌≤◌, ◌<◌, List, [], ◌∷◌, length, take, drop, set, get_or,
  drop-set, ◌≡◌, refl, ◌∙◌, arith, length-take,
}
use vector_search_engine.Links.{
  Links, link_put, link_count, degree_cap, write_links, set_links, append_link,
}
use vector_search_engine.Links.Cells.{stride}
use vector_search_engine.Links.Blocks.{IsShaped, stride-cap, stride-put}

-- the same members, and the same blocks from `n` on
pub record SameBeyond (n : ℕ) (lk lk' : Links) : Type 0 where
  pub m : lk'.max_m ≡ lk.max_m
  pub m0 : lk'.max_m0 ≡ lk.max_m0
  pub s0 : lk'.stride_l0 ≡ lk.stride_l0
  pub s : lk'.stride_upper ≡ lk.stride_upper
  pub layer0 : drop (n * lk.stride_l0) lk'.links_l0 ≡ drop (n * lk.stride_l0) lk.links_l0
  pub upper : drop n lk'.links_upper ≡ drop n lk.links_upper

pub SameBeyond-refl : (n : ℕ) (lk : Links) → SameBeyond n lk lk
SameBeyond-refl n lk = record {
  m = refl;
  m0 = refl;
  s0 = refl;
  s = refl;
  layer0 = refl;
  upper = refl;
}

pub SameBeyond-trans :
    {n : ℕ} {a b c : Links} → SameBeyond n a b → SameBeyond n b c → SameBeyond n a c
SameBeyond-trans {n} {a} {b} {c} h k = record {
  m = k.m ∙ h.m;
  m0 = k.m0 ∙ h.m0;
  s0 = k.s0 ∙ h.s0;
  s = k.s ∙ h.s;
  layer0 =
      let e : drop (n * a.stride_l0) c.links_l0 ≡ drop (n * a.stride_l0) b.links_l0 =
        rw (← h.s0) k.layer0 in
      e ∙ h.layer0;
  upper = k.upper ∙ h.upper;
}

pub IsShaped-beyond : (n : ℕ) (lk lk' : Links) → SameBeyond n lk lk' → IsShaped lk → IsShaped lk'
IsShaped-beyond n lk lk' h g = record {
  layer0 = omega (arith, h.s0, h.m0, g.layer0);
  upper = omega (arith, h.s, h.m, g.upper);
  small0 = omega (arith, h.m0, g.small0);
  small = omega (arith, h.m, g.small);
}

module _ (n i : ℕ) (lt : i < n) where
  put-beyond :
      (l : ℕ) (lk : Links) (k v : ℕ) → k < stride lk l → SameBeyond n lk (link_put lk i l k v)
  unfolding link_put
  put-beyond zero lk k v inside = record {
    m = refl;
    m0 = refl;
    s0 = refl;
    s = refl;
    layer0 = drop-set (n * lk.stride_l0) lk.links_l0 (i * lk.stride_l0 + k) v (grind arith);
    upper = refl;
  }
  put-beyond (suc l) lk k v inside = record {
    m = refl;
    m0 = refl;
    s0 = refl;
    s = refl;
    layer0 = refl;
    upper =
        drop-set n lk.links_upper i (set (get_or lk.links_upper i []) (l * lk.stride_upper + k) v)
          lt;
  }

  module _ (l : ℕ) where
    write-beyond :
        (xs : List ℕ) (lk : Links) (k : ℕ)
        → k + length xs ≤ stride lk l
        → SameBeyond n lk (write_links lk i l k xs)
    unfolding write_links
    write-beyond [] lk k fits = SameBeyond-refl n lk
    write-beyond (x ∷ xs) lk k fits =
        SameBeyond-trans (put-beyond l lk k x (omega arith))
          (write-beyond xs (link_put lk i l k x) (suc k) (rw stride-put (omega arith)))

    pub set_links-beyond :
        (lk : Links) (ns : List ℕ) → IsShaped lk → SameBeyond n lk (set_links lk i l ns)
    unfolding set_links
    set_links-beyond lk ns h =
        let c = min (length ns) (degree_cap lk l) in
        let cap = stride-cap lk l h in
        SameBeyond-trans (put-beyond l lk 0 (c % 2 ^ 32) (omega arith)) (
          write-beyond (take c ns) (link_put lk i l 0 (c % 2 ^ 32)) 1
            (rw stride-put (omega (arith, length-take {0}))))

    pub append_link-beyond :
        (lk : Links) (new : ℕ)
        → IsShaped lk
        → link_count lk i l < degree_cap lk l
        → SameBeyond n lk (append_link lk i l new)
    unfolding append_link
    append_link-beyond lk new h space =
        let deg = link_count lk i l in
        let cap = stride-cap lk l h in
        SameBeyond-trans (put-beyond l lk (deg + 1) new (omega arith)) (
          put-beyond l (link_put lk i l (deg + 1) new) 0 ((deg + 1) % 2 ^ 32)
            (rw stride-put (omega arith)))
