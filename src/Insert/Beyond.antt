-- ===== src/Insert/Beyond.antt =====
-- The blocks that connectNewElement of include/hnsw.hpp does not write to.
use vector_search_engine.Base.{
  ℕ, ◌<◌, List, [], ◌∷◌, ltb, arith, Bool-cases, inl, inr, All, refl, drop-set, replicate, ◌*◌,
}
use vector_search_engine.Platform.{Platform, IsOrdered}
use vector_search_engine.Heap.{Cand}
use vector_search_engine.Links.{Links, link_count, degree_cap}
use vector_search_engine.Links.Blocks.{IsShaped}
use vector_search_engine.Links.Beyond.{
  SameBeyond, SameBeyond-refl, SameBeyond-trans, IsShaped-beyond, set_links-beyond,
  append_link-beyond,
}
use vector_search_engine.Insert.{
  link_back, link_all_back, connect_selected, connect_new_element, assign_row,
}
use vector_search_engine.Insert.Connect.{All-select}

pub assign_row-beyond :
    (n : ℕ) (lk : Links) (id level : ℕ) → id < n → SameBeyond n lk (assign_row lk id level)
unfolding assign_row
assign_row-beyond n lk id level lt = elim (Bool-cases (ltb 0 level)) [
  | inl tall ↦ rw tall record {
    m = refl;
    m0 = refl;
    s0 = refl;
    s = refl;
    layer0 = refl;
    upper = drop-set n lk.links_upper id (replicate (level * lk.stride_upper) 0) lt;
  }
  | inr flat ↦ rw flat (SameBeyond-refl n lk)
]

module _ (P : Platform) (between : ℕ → ℕ → P.F) (m id l n : ℕ) (new : id < n) where
  link_back-beyond :
      (lk : Links) (i : ℕ) → IsShaped lk → i < n → SameBeyond n lk (link_back P between m id l lk i)
  unfolding link_back
  link_back-beyond lk i h lt = elim (Bool-cases (ltb (link_count lk i l) (degree_cap lk l))) [
    | inl space ↦ rw space (append_link-beyond n i lt l lk id h (ground arith))
    | inr full ↦ rw full (set_links-beyond n i lt l lk _ h)
  ]

  link_all_back-beyond :
      (is : List ℕ) (lk : Links)
      → IsShaped lk
      → All (λ i. i < n) is
      → SameBeyond n lk (link_all_back P between m id l lk is)
  unfolding link_all_back
  link_all_back-beyond [] lk h below = SameBeyond-refl n lk
  link_all_back-beyond (i ∷ is) lk h below =
      let lk' = link_back P between m id l lk i in
      let b = link_back-beyond lk i h below.0 in
      SameBeyond-trans b (link_all_back-beyond is lk' (IsShaped-beyond n lk lk' b h) below.1)

  connect_selected-beyond :
      (selected : List ℕ) (lk : Links)
      → IsShaped lk
      → All (λ i. i < n) selected
      → SameBeyond n lk (connect_selected P between m id l lk selected).1
  unfolding connect_selected
  connect_selected-beyond [] lk h below = SameBeyond-refl n lk
  connect_selected-beyond (i ∷ is) lk h below =
      let b = set_links-beyond n id new l lk (i ∷ is) h in
      SameBeyond-trans b (link_all_back-beyond (i ∷ is) _ (IsShaped-beyond n lk _ b h) below)

  pub connect_new_element-beyond :
      (lk : Links) (top : List (Cand P))
      → IsOrdered P
      → IsShaped lk
      → All (λ c. c.1 < n) top
      → SameBeyond n lk (connect_new_element P between m id l lk top).1
  unfolding connect_new_element
  connect_new_element-beyond lk top o h below =
      connect_selected-beyond _ lk h (All-select P between (λ i. i < n) top m o below)
