-- ===== src/Links/Cells.antt =====
-- Reads of linkBlock after a write to one of its cells.
use vector_search_engine.Base.{
  ℕ, zero, suc, ◌+◌, ◌*◌, ◌≤◌, ◌<◌, ◌&&◌, List, [], ◌∷◌, length, get_or, set, if◌then◌else◌, ◌==◌,
  ==_iff, ◌≡◌, refl, arith, Bool-cases, inl, inr, length-set, get_or-set_self, get_or-set_ne,
}
use vector_search_engine.Links.{Links, link_at, link_put}

abbrev pub stride : Links → ℕ → ℕ
stride lk zero = lk.stride_l0
stride lk (suc l) = lk.stride_upper

-- the storage has the block of a node at a level
abbrev pub Room : Links → ℕ → ℕ → Type 0
Room lk id zero = (id + 1) * lk.stride_l0 ≤ length lk.links_l0
Room lk id (suc l) =
    (id < length lk.links_upper)
    × ((l + 1) * lk.stride_upper ≤ length (get_or lk.links_upper id []))

pub get_or-set {ℓ} :
    {A : Type ℓ} (xs : List A) (i j : ℕ) (v d : A)
    → i < length xs
    → get_or (set xs i v) j d ≡ (if i == j then v else get_or xs j d)
get_or-set xs i j v d h = elim (Bool-cases (i == j)) [
  | inl same ↦ rw (same, ← (==_iff i j).0 same) (get_or-set_self xs i v d h)
  | inr other ↦ rw other (get_or-set_ne xs i j v d (λ e. ground (arith, (==_iff i j).1 e)))
]

cell_inj : (i j k q s : ℕ) → k < s → q < s → i * s + k ≡ j * s + q → i ≡ j
cell_inj i j k q s hk hq e = grind arith

cell_eq : (i j k q s : ℕ) → k < s → q < s → ((i * s + k) == (j * s + q)) ≡ ((i == j) && (k == q))
cell_eq i j k q s hk hq = elim (Bool-cases (i == j)) [
  | inl same ↦
      let e = (==_iff i j).0 same in
      rw (same, ← e) (ground (arith, ==_iff (i * s + k) (i * s + q), ==_iff k q))
  | inr other ↦
      rw other
        (ground (arith, ==_iff (i * s + k) (j * s + q), cell_inj i j k q s hk hq, ==_iff i j))
]

-- a write into one row leaves the lengths of the rows
length-row :
    (xss : List (List ℕ)) (i j c v : ℕ)
    → length (get_or (set xss i (set (get_or xss i []) c v)) j []) ≡ length (get_or xss j [])
length-row [] i j c v = refl
length-row (xs ∷ xss) zero zero c v = length-set xs c v
length-row (xs ∷ xss) zero (suc j) c v = refl
length-row (xs ∷ xss) (suc i) zero c v = refl
length-row (xs ∷ xss) (suc i) (suc j) c v = length-row xss i j c v

module _ (lk : Links) (i : ℕ) (v : ℕ) where
  pub Room-put : (l k j m : ℕ) → Room lk j m → Room (link_put lk i l k v) j m
  unfolding link_put
  Room-put zero k j zero h = rw length-set h
  Room-put zero k j (suc m) h = h
  Room-put (suc l) k j zero h = h
  Room-put (suc l) k j (suc m) h = (rw length-set h.0, rw length-row h.1)

  -- A read after a write to a block that the storage has, both at places inside their blocks: the
  -- new value in the written cell, the old one in every other cell of any block.
  pub link_at-put :
      (l k j m q : ℕ)
      → Room lk i l
      → k < stride lk l
      → q < stride lk m
      → link_at (link_put lk i l k v) j m q
        ≡ (if ((l == m) && (i == j)) && (k == q) then v else link_at lk j m q)
  unfolding link_at link_put
  link_at-put zero k j zero q r hk hq = rw (
    get_or-set lk.links_l0 (i * lk.stride_l0 + k) (j * lk.stride_l0 + q) v 0 (grind arith),
    cell_eq i j k q lk.stride_l0 hk hq,
  )
  link_at-put zero k j (suc m) q r hk hq = ground arith
  link_at-put (suc l) k j zero q r hk hq = ground arith
  link_at-put (suc l) k j (suc m) q r hk hq =
      let s = lk.stride_upper in
      let row = get_or lk.links_upper i [] in
      elim (Bool-cases (i == j)) [
        | inl same ↦
            let e = (==_iff i j).0 same in
            rw
              (
                get_or-set lk.links_upper i j (set row (l * s + k) v) [] r.0,
                same,
                ← e,
                get_or-set row (l * s + k) (m * s + q) v 0 (grind arith),
                cell_eq l m k q s hk hq,
              )
              (ground arith)
        | inr other ↦
            rw (get_or-set lk.links_upper i j (set row (l * s + k) v) [] r.0, other) (ground arith)
      ]
