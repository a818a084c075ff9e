-- ===== src/Delete/Flags.antt =====
-- markDeleted and unmarkDeleted on one element, and the count of deleted elements.
use vector_search_engine.Base.{
  ℕ, zero, suc, ◌+◌, ◌-◌, ◌%◌, ◌^◌, ◌≤◌, ◌<◌, true, false, List, [], ◌∷◌, some, if◌then◌else◌, ◌==◌,
  ◌≡◌, ◌≢◌, refl, ap, sym, arith, length, length-set, get_or, set,
}
use vector_search_engine.Platform.{Platform}
use vector_search_engine.Index.{Index, Label, find_id, active_size}
use vector_search_engine.Delete.{mark_deleted, unmark_deleted}

-- how many of the first n flags are set
pub flagged : ℕ → List ℕ → ℕ
flagged zero ds = 0
flagged (suc n) [] = 0
flagged (suc n) (d ∷ ds) = (if d == 0 then 0 else 1) + flagged n ds

-- `num_deleted` counts the flags of the elements
pub record IsCounted {P : Platform} (idx : Index P) : Type 0 where
  pub counted : idx.num_deleted ≡ flagged idx.count idx.deleted
  pub flags : idx.count ≤ length idx.deleted
  pub small : idx.count < 2 ^ 64

flagged-le : (n : ℕ) (ds : List ℕ) → flagged n ds ≤ n
unfolding flagged
flagged-le zero ds = omega arith
flagged-le (suc n) [] = omega arith
flagged-le (suc n) (d ∷ ds) = ground (arith, flagged-le n ds)

flagged-set :
    (n : ℕ) (ds : List ℕ) (i v : ℕ)
    → i < n
    → i < length ds
    → flagged n (set ds i v) + (if get_or ds i 0 == 0 then 0 else 1)
      ≡ flagged n ds + (if v == 0 then 0 else 1)
unfolding flagged
flagged-set zero ds i v h k = absurd (omega arith)
flagged-set (suc n) [] i v h k = absurd (omega arith)
flagged-set (suc n) (d ∷ ds) zero v h k = omega arith
flagged-set (suc n) (d ∷ ds) (suc i) v h k =
    omega (arith, flagged-set n ds i v (omega arith) (omega arith))

-- a new element's flag is clear
pub flagged-next :
    (n : ℕ) (ds : List ℕ) → n < length ds → flagged (suc n) (set ds n 0) ≡ flagged n ds
unfolding flagged
flagged-next n [] lt = absurd (omega arith)
flagged-next zero (d ∷ ds) lt = refl
flagged-next (suc n) (d ∷ ds) lt =
    ap (λ k. (if d == 0 then 0 else 1) + k) (flagged-next n ds (omega arith))

pub flagged-zero : (ds : List ℕ) → flagged 0 ds ≡ 0
unfolding flagged
flagged-zero ds = refl

pub set_undo : (ds : List ℕ) (i u v : ℕ) → get_or ds i 0 ≡ v → set (set ds i u) i v ≡ ds
set_undo [] i u v e = refl
set_undo (d ∷ ds) zero u v e = ap (λ x. x ∷ ds) (sym e)
set_undo (d ∷ ds) (suc i) u v e = ap (◌∷◌ d) (set_undo ds i u v e)

module _ {P : Platform} (idx : Index P) (c : IsCounted idx) where
  -- Where the counter counts the deletion flags, activeSize is the number of elements whose flag
  -- is clear.
  pub active_size-flagged : active_size idx + flagged idx.count idx.deleted ≡ idx.count
  unfolding active_size
  active_size-flagged = omega (arith, c.counted, c.small, flagged-le idx.count idx.deleted)

-- the element that a label names
pub record Names {P : Platform} (idx : Index P) (label : Label) (id : ℕ) : Type 0 where
  pub found : find_id label idx.label_to_id ≡ some id
  pub below : id < idx.count

module _ {P : Platform} (idx : Index P) (label : Label) (id : ℕ) (n : Names idx label id)
    (c : IsCounted idx) where
  -- the index with one flag and the counter set
  abbrev pub flag : ℕ → ℕ → Index P
  flag v count = record idx { deleted = set idx.deleted id v; num_deleted = count }

  flags_below : id < length idx.deleted
  flags_below = omega (arith, n.below, c.flags)

  -- setting a clear flag, and clearing a set one
  set-count :
      get_or idx.deleted id 0 ≡ 0 → flagged idx.count (set idx.deleted id 1) ≡ idx.num_deleted + 1
  set-count e =
      ground (arith, flagged-set idx.count idx.deleted id 1 n.below flags_below, c.counted)

  clear-count :
      get_or idx.deleted id 0 ≢ 0 → flagged idx.count (set idx.deleted id 0) + 1 ≡ idx.num_deleted
  clear-count ne =
      ground (arith, flagged-set idx.count idx.deleted id 0 n.below flags_below, c.counted)

  pub mark-clear :
      get_or idx.deleted id 0 ≡ 0 → mark_deleted idx label ≡ (true, flag 1 (idx.num_deleted + 1))
  unfolding mark_deleted
  mark-clear e =
      let z : (get_or idx.deleted id 0 == 0) ≡ true = ground arith in
      let w : (idx.num_deleted + 1) % 2 ^ 64 ≡ idx.num_deleted + 1 =
        omega (arith, c.small, set-count e, flagged-le idx.count (set idx.deleted id 1)) in
      rw (n.found, mark_deleted, z, w)

  pub mark-set : get_or idx.deleted id 0 ≢ 0 → mark_deleted idx label ≡ (false, idx)
  unfolding mark_deleted
  mark-set ne =
      let z : (get_or idx.deleted id 0 == 0) ≡ false = ground arith in rw (n.found, mark_deleted, z)

  pub unmark-set :
      get_or idx.deleted id 0 ≢ 0 → unmark_deleted idx label ≡ (true, flag 0 (idx.num_deleted - 1))
  unfolding unmark_deleted
  unmark-set ne =
      let z : (get_or idx.deleted id 0 == 0) ≡ false = ground arith in
      let w : (idx.num_deleted + 2 ^ 64 - 1) % 2 ^ 64 ≡ idx.num_deleted - 1 =
        omega (arith, c.small, c.counted, clear-count ne, flagged-le idx.count idx.deleted) in
      rw (n.found, unmark_deleted, z, w)

  pub flag-IsCounted :
      (v : ℕ) (k : ℕ) → flagged idx.count (set idx.deleted id v) ≡ k → IsCounted (flag v k)
  flag-IsCounted v k e = record { counted = sym e; flags = rw length-set c.flags; small = c.small }

  pub mark-IsCounted : get_or idx.deleted id 0 ≡ 0 → IsCounted (flag 1 (idx.num_deleted + 1))
  mark-IsCounted e = flag-IsCounted 1 _ (set-count e)

  pub unmark-IsCounted : get_or idx.deleted id 0 ≢ 0 → IsCounted (flag 0 (idx.num_deleted - 1))
  unmark-IsCounted ne = flag-IsCounted 0 _ (omega (arith, clear-count ne))
