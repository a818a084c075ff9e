-- ===== src/Insert/Rows.antt =====
-- The row of upper blocks that addPoint gives a new element, and the other blocks.
use vector_search_engine.Base.{
  ℕ, zero, suc, ◌+◌, ◌*◌, ◌≤◌, ◌<◌, [], length, replicate, get_or, ltb, ◌≡◌, ◌≢◌, refl, ap, arith,
  Bool-cases, inl, inr, length-set, length-replicate, get_or-replicate, get_or-set_self,
  get_or-set_ne,
}
use vector_search_engine.Links.{Links, link_at, link_count, link_neighbors, copy_links}
use vector_search_engine.Links.Cells.{Room}
use vector_search_engine.Links.Blocks.{Same}
use vector_search_engine.Links.Writes.{SameShape}
use vector_search_engine.Insert.{assign_row}

module _ (lk : Links) (id level : ℕ) where
  pub assign_row-SameShape : SameShape lk (assign_row lk id level)
  unfolding assign_row
  assign_row-SameShape = elim (Bool-cases (ltb 0 level)) [
    | inl up ↦ rw up record {
      m = refl;
      m0 = refl;
      s0 = refl;
      s = refl;
      size0 = refl;
      size = length-set lk.links_upper id (replicate (level * lk.stride_upper) 0);
    }
    | inr base ↦
        rw base record { m = refl; m0 = refl; s0 = refl; s = refl; size0 = refl; size = refl }
  ]

  assign_row-l0 : (assign_row lk id level).links_l0 ≡ lk.links_l0
  unfolding assign_row
  assign_row-l0 = elim (Bool-cases (ltb 0 level)) [ inl up ↦ rw up | inr base ↦ rw base ]

  row-other :
      (j : ℕ)
      → id ≢ j
      → get_or (assign_row lk id level).links_upper j [] ≡ get_or lk.links_upper j []
  unfolding assign_row
  row-other j ne = elim (Bool-cases (ltb 0 level)) [
    | inl up ↦ rw up (get_or-set_ne lk.links_upper id j _ [] ne)
    | inr base ↦ rw base
  ]

  row-new :
      0 < level
      → id < length lk.links_upper
      → get_or (assign_row lk id level).links_upper id [] ≡ replicate (level * lk.stride_upper) 0
  unfolding assign_row
  row-new pos lt = elim (Bool-cases (ltb 0 level)) [
    | inl up ↦ rw up (get_or-set_self lk.links_upper id _ [] lt)
    | inr base ↦ absurd (ground arith)
  ]

  -- blocks of layer 0 and of other elements stay
  pub assign_row-Same0 : (j : ℕ) → Same lk (assign_row lk id level) j 0
  unfolding Same link_at
  assign_row-Same0 j q hq = rw (assign_row-l0, assign_row-SameShape.s0)

  pub assign_row-Same : (j m : ℕ) → id ≢ j → Same lk (assign_row lk id level) j m
  unfolding Same link_at
  assign_row-Same j zero ne q hq = rw (assign_row-l0, assign_row-SameShape.s0)
  assign_row-Same j (suc m) ne q hq = rw (row-other j ne, assign_row-SameShape.s)

  pub assign_row-Room : (j m : ℕ) → id ≢ j → Room lk j m → Room (assign_row lk id level) j m
  assign_row-Room j zero ne r = rw (assign_row-l0, assign_row-SameShape.s0) r
  assign_row-Room j (suc m) ne r =
      rw (assign_row-SameShape.size, row-other j ne, assign_row-SameShape.s) r

  pub assign_row-Room_new :
      (m : ℕ)
      → m ≤ level
      → id < length lk.links_upper
      → Room lk id 0
      → Room (assign_row lk id level) id m
  assign_row-Room_new zero le lt r = rw (assign_row-l0, assign_row-SameShape.s0) r
  assign_row-Room_new (suc m) le lt r =
      rw
        (
          assign_row-SameShape.size,
          row-new (omega arith) lt,
          assign_row-SameShape.s,
          length-replicate,
        )
        (lt, grind arith)

  -- the blocks of the new element are empty
  pub count-new :
      (m : ℕ)
      → m ≤ level
      → id < length lk.links_upper
      → link_count lk id 0 ≡ 0
      → link_count (assign_row lk id level) id m ≡ 0
  unfolding link_count link_at
  count-new zero le lt e = rw (assign_row-l0, assign_row-SameShape.s0) e
  count-new (suc m) le lt e =
      rw (row-new (omega arith) lt) (
        get_or-replicate (level * lk.stride_upper) (m * (assign_row lk id level).stride_upper + 0)
          0)

pub neighbors_empty : (lk : Links) (j m : ℕ) → link_count lk j m ≡ 0 → link_neighbors lk j m ≡ []
unfolding link_neighbors copy_links
neighbors_empty lk j m e = ap (copy_links lk j m 1) e
