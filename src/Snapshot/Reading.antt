-- ===== src/Snapshot/Reading.antt =====
-- Reads of what was written: scalars, arrays and rows.
use mathlib.Core.List.{append_assoc, append-nil}
use vector_search_engine.Base.{
  ℕ, zero, suc, ◌*◌, ◌%◌, ◌^◌, ◌≤◌, ◌<◌, min, true, false, List, [], ◌∷◌, ◌++◌, length,
  length-append, length-take, length-drop, length-replicate, take-append, drop-append, take_self,
  drop-replicate, nil_of_length, set-append, take, drop, replicate, All, All-append, All-take,
  All-drop, All-replicate, ltb, leb, ◌==◌, Bool-cases, inl, inr, ◌≡◌, refl, ap, ◌∙◌, arith,
}
use vector_search_engine.Bytes.{le_bytes, array_bytes, words}
use vector_search_engine.Bytes.Arrays.{
  Fits, Fits-uint32, length-le_bytes, length-array_bytes, array_bytes-append, take-array_bytes,
  drop-array_bytes, words-array_bytes,
}
use vector_search_engine.Snapshot.{
  Reader, loaded, advance, scalar, late_scalar, read_array, save_row, load_row, save_rows,
  load_rows,
}

-- a stream that stands before these bytes
abbrev pub at : List ℕ → Reader
at bs = record { rest = bs; good = true }

leb-length-append : (xs ys : List ℕ) (n : ℕ) → length xs ≡ n → leb n (length (xs ++ ys)) ≡ true
leb-length-append xs ys n e = ground (arith, length-append xs ys)

pub advance-append : (xs ys : List ℕ) (n : ℕ) → length xs ≡ n → advance n (at (xs ++ ys)) ≡ at ys
unfolding advance
advance-append xs ys n e = rw (drop-append xs ys n e, leb-length-append xs ys n e)

pub late_scalar-le_bytes :
    (w x : ℕ) (ys : List ℕ) → Fits w x → late_scalar w (at (le_bytes w x ++ ys)) ≡ (x, at ys)
unfolding late_scalar
late_scalar-le_bytes w x ys h = rw (
  take-append (le_bytes w x) ys w (length-le_bytes w x),
  h,
  advance-append (le_bytes w x) ys w (length-le_bytes w x),
)

pub scalar-le_bytes :
    (w x : ℕ) (ys : List ℕ) → Fits w x → scalar w (at (le_bytes w x ++ ys)) ≡ loaded (x, at ys)
unfolding scalar
scalar-le_bytes w x ys h = rw (
  advance-append (le_bytes w x) ys w (length-le_bytes w x),
  take-append (le_bytes w x) ys w (length-le_bytes w x),
  h,
)

-- the memory of an array after a read of its first k numbers
module _ (w k : ℕ) (xs ys : List ℕ) (le : k ≤ length xs) (le' : k ≤ length ys) (h : All (Fits w) xs)
    (h' : All (Fits w) ys) where
  abbrev saved : List ℕ
  saved = array_bytes w (take k ys)

  length-saved : length saved ≡ k * w
  length-saved =
      let e : length (take k ys) ≡ k = omega (arith, length-take k ys) in
      length-array_bytes w (take k ys) ∙ ap (λ j. j * w) e

  over : words w (length xs) (saved ++ array_bytes w (drop k xs)) ≡ take k ys ++ drop k xs
  over =
      let e : length xs ≡ length (take k ys ++ drop k xs) =
        omega (arith, length-append (take k ys) (drop k xs), length-take k ys, length-drop k xs) in
      rw (← array_bytes-append w (take k ys) (drop k xs), e)
        (words-array_bytes w (take k ys ++ drop k xs) (
          All-append (Fits w) (take k ys) (drop k xs) (All-take (Fits w) k ys h')
            (All-drop (Fits w) k xs h)))

  -- A read of what a write of the first k numbers left gives them, and the old ones after them.
  pub read_array-saved :
      (n : ℕ) (r : List ℕ)
      → n ≡ k * w
      → read_array w n xs (at (take n (array_bytes w ys) ++ r))
        ≡ loaded (take k ys ++ drop k xs, at r)
  unfolding read_array
  read_array-saved n r e =
      let size = length-saved in
      let front : take (k * w) (saved ++ r) ≡ saved = take-append saved r (k * w) size in
      let more : min (k * w) (length (saved ++ r)) ≡ k * w =
        omega (arith, length-append saved r, size) in
      let fits : ltb (length xs * w) (k * w) ≡ false = grind arith in
      let rest : drop (k * w) (saved ++ r) ≡ r = drop-append saved r (k * w) size in
      rw (
        e,
        take-array_bytes w k ys,
        front,
        more,
        fits,
        drop-array_bytes w k xs,
        over,
        advance-append saved r (k * w) size,
      )

-- a row that its saved form holds
abbrev pub IsRow : List ℕ → Type 0
IsRow row = (length row < 2 ^ 32) × All (Fits 4) row

pub load_row-save_row :
    (row r : List ℕ) → IsRow row → load_row (at (save_row row ++ r)) ≡ loaded (row, at r)
unfolding load_row save_row
load_row-save_row row r h =
    let n = length row in
    let m : n % 2 ^ 32 ≡ n = omega arith in
    let zeros = All-replicate (Fits 4) n 0 (Fits-uint32 0 (omega arith)) in
    let z : n ≤ length (replicate {A = ℕ} n 0) = omega (arith, length-replicate {A = ℕ} n 0) in
    let t : take n row ++ drop n (replicate n 0) ≡ row =
      rw (take_self row, drop-replicate {A = ℕ} n 0) (append-nil row) in
    elim (Bool-cases (n == 0)) [
      | inl none ↦
          let e : row ≡ [] = nil_of_length row (ground arith) in
          rw (m, none, append_assoc, scalar-le_bytes 4 n r (Fits-uint32 n h.0)) (rw (none, e))
      | inr some ↦
          rw (m, some, append_assoc (le_bytes 4 n) (take (n * 4) (array_bytes 4 row)) r)
            (rw (scalar-le_bytes 4 n (take (n * 4) (array_bytes 4 row) ++ r) (Fits-uint32 n h.0)) (
              rw some (
                read_array-saved 4 n (replicate n 0) row z (omega arith) zeros h.1 (n * 4) r refl
                ∙ ap (λ (x : List ℕ). loaded (x, at r)) t)))
    ]

pub load_rows-save_rows :
    (n i : ℕ) (done old rows : List (List ℕ)) (r : List ℕ)
    → length done ≡ i
    → n ≤ length old
    → n ≤ length rows
    → All IsRow rows
    → load_rows n i (done ++ old) (at (save_rows n rows ++ r))
      ≡ loaded (done ++ (take n rows ++ drop n old), at r)
unfolding load_rows save_rows
load_rows-save_rows zero i done old rows r e le le' h = refl
load_rows-save_rows (suc n) i done old [] r e le le' h = absurd (omega arith)
load_rows-save_rows (suc n) i done [] (row ∷ rows) r e le le' h = absurd (omega arith)
load_rows-save_rows (suc n) i done (x ∷ old) (row ∷ rows) r e le le' h =
    let room : ltb i (length (done ++ x ∷ old)) ≡ true =
      ground (arith, length-append done (x ∷ old)) in
    rw
      (
        append_assoc (save_row row) (save_rows n rows) r,
        load_row-save_row row (save_rows n rows ++ r) h.0,
        room,
        set-append done x old i row e,
      )
      (rw (← append_assoc done (row ∷ []) old) (
        load_rows-save_rows n (suc i) (done ++ row ∷ []) old rows r
          (omega (arith, length-append done (row ∷ []))) (omega arith) (omega arith) h.1
        ∙ ap (λ (x : List (List ℕ)). loaded (x, at r))
            (append_assoc done (row ∷ []) (take n rows ++ drop n old))))
