-- ===== src/Vecs/RoundTrip.antt =====
-- A file that writeFvecs or writeIvecs wrote, read by readVecs.
use Prim.Native.String.{String}
use mathlib.Core.List.{append-nil}
use native.Mathlib.Nat.{mul-div_cancel, mul-mod_left}
use vector_search_engine.Base.{
  ℕ, zero, suc, ◌+◌, ◌*◌, ◌/◌, ◌%◌, ◌^◌, ◌≤◌, ◌<◌, min, true, false, ◌==◌, leb, if◌then◌else◌, List,
  ◌++◌, length, length-append, length-take, length-drop, length-replicate, drop-replicate, take,
  drop, take-length_add, append-take-drop, replicate, All, All-drop, All-replicate, some, ◌≡◌, refl,
  ap, sym, ◌∙◌, arith,
}
use vector_search_engine.Bytes.{le_bytes, array_bytes}
use vector_search_engine.Bytes.Arrays.{
  Fits, Fits-uint32, length-le_bytes, length-array_bytes, take-array_bytes,
}
use vector_search_engine.Snapshot.{Reader, loaded, read_array, late_scalar}
use vector_search_engine.Snapshot.Reading.{
  at, scalar-le_bytes, late_scalar-le_bytes, read_array-saved,
}
use vector_search_engine.Vecs.{write_vecs, read_records, read_all, read_vecs}

take_add :
    (n k : ℕ) (xs : List ℕ) → n ≤ length xs → take n xs ++ take k (drop n xs) ≡ take (n + k) xs
take_add n k xs le =
    let e : length (take n xs) ≡ n = omega (arith, length-take n xs) in
    sym (take-length_add (take n xs) (drop n xs) n k e) ∙ ap (take (n + k)) (append-take-drop n xs)

module _ (d : ℕ) (small : d < 2 ^ 31) where
  length-write_vecs :
      (n : ℕ) (xs : List ℕ) → length xs ≡ n * d → length (write_vecs n d xs) ≡ n * (4 + d * 4)
  unfolding write_vecs
  length-write_vecs zero xs e = omega arith
  length-write_vecs (suc n) xs e =
      let more : suc n * d ≡ d + n * d = grind arith in
      let left : length (drop d xs) ≡ n * d = omega (arith, length-drop d xs) in
      let rows : suc n * (4 + d * 4) ≡ 4 + (d * 4 + n * (4 + d * 4)) = grind arith in
      let row : length (take d xs) ≡ d = omega (arith, length-take d xs) in
      omega (
        arith,
        length-append (le_bytes 4 (d % 2 ^ 32))
            (array_bytes 4 (take d xs) ++ write_vecs n d (drop d xs)),
        length-append (array_bytes 4 (take d xs)) (write_vecs n d (drop d xs)),
        length-le_bytes 4 (d % 2 ^ 32),
        length-array_bytes 4 (take d xs),
        length-write_vecs n (drop d xs) left,
      )

  -- a row of the file
  read_row :
      (xs r : List ℕ)
      → d ≤ length xs
      → All (Fits 4) xs
      → read_array 4 (d * 4) (replicate d 0) (at (array_bytes 4 (take d xs) ++ r))
        ≡ loaded (take d xs, at r)
  read_row xs r le h =
      let z = length-replicate {A = ℕ} d 0 in
      rw (← take-array_bytes 4 d xs) (
        read_array-saved 4 d (replicate d 0) xs (omega arith) le
          (All-replicate (Fits 4) d 0 (Fits-uint32 0 (omega arith))) h (d * 4) r refl
        ∙ ap (λ (ys : List ℕ). loaded (ys, at r))
            (ap (λ ys. take d xs ++ ys) (drop-replicate {A = ℕ} d 0) ∙ append-nil (take d xs)))

  module _ (to_string : ℕ → String) (path : String) where
    read_record :
        (m n i : ℕ) (xs : List ℕ) (rest : Reader)
        → d ≤ length xs
        → All (Fits 4) xs
        → read_records to_string path m (suc i) d (at (write_vecs n d (drop d xs)))
          ≡ loaded (take (m * d) (drop d xs), rest)
        → read_records to_string path (suc m) i d (at (write_vecs (suc n) d xs))
          ≡ loaded (take (suc m * d) xs, rest)
    unfolding read_records write_vecs
    read_record m n i xs rest enough h run =
        let part : suc m * d ≡ d + m * d = grind arith in
        let whole : d % 2 ^ 32 ≡ d = omega arith in
        let equal : (d == d) ≡ true = ground arith in
        rw (
          whole,
          scalar-le_bytes 4 d (array_bytes 4 (take d xs) ++ write_vecs n d (drop d xs))
              (Fits-uint32 d (omega arith)),
          equal,
          read_row xs (write_vecs n d (drop d xs)) enough h,
          run,
          take_add d (m * d) xs enough,
          part,
        )

    -- the first m records
    read_records-write_vecs :
        (m n i : ℕ) (xs : List ℕ)
        → m ≤ n
        → length xs ≡ n * d
        → All (Fits 4) xs
        → (rest : Reader) × (read_records to_string path m i d (at (write_vecs n d xs))
            ≡ loaded (take (m * d) xs, rest))
    unfolding read_records
    read_records-write_vecs zero n i xs le e h =
        let z : 0 * d ≡ 0 = omega arith in (at (write_vecs n d xs), rw z refl)
    read_records-write_vecs (suc m) zero i xs le e h = absurd (omega arith)
    read_records-write_vecs (suc m) (suc n) i xs le e h =
        let more : suc n * d ≡ d + n * d = grind arith in
        let enough : d ≤ length xs = omega arith in
        let (rest, run) =
          read_records-write_vecs m n (suc i) (drop d xs) (omega arith)
            (omega (arith, length-drop d xs)) (All-drop (Fits 4) d xs h) in
        (rest, read_record m n i xs rest enough h run)

    -- how many records readVecs takes
    abbrev pub taken : ℕ → ℕ → ℕ
    taken limit n = if limit == 0 then n else min limit n

    taken-le : (limit n : ℕ) → taken limit n ≤ n
    taken-le limit n = ground arith

    read_all-write_vecs :
        (limit n : ℕ) (xs : List ℕ)
        → length xs ≡ n * d
        → All (Fits 4) xs
        → read_all to_string path limit (write_vecs n d xs) d
          ≡ loaded (record { values = take (taken limit n * d) xs; n = taken limit n; d = d })
    unfolding read_all
    read_all-write_vecs limit n xs e h =
        let (rest, run) = read_records-write_vecs (taken limit n) n 0 xs (taken-le limit n) e h in
        let even : ((n * (4 + d * 4)) % (4 + d * 4) == 0) ≡ true =
          ground (arith, mul-mod_left n (4 + d * 4)) in
        let count : n * (4 + d * 4) / (4 + d * 4) ≡ n = mul-div_cancel n (omega arith) in
        rw (length-write_vecs n xs e, even, count, run)

    first_word :
        (n : ℕ) (xs : List ℕ)
        → late_scalar 4 (at (write_vecs (suc n) d xs))
          ≡ (d, at (array_bytes 4 (take d xs) ++ write_vecs n d (drop d xs)))
    unfolding write_vecs
    first_word n xs =
        let whole : d % 2 ^ 32 ≡ d = omega arith in
        rw whole (
          late_scalar-le_bytes 4 d (array_bytes 4 (take d xs) ++ write_vecs n d (drop d xs))
            (Fits-uint32 d (omega arith)))

    -- A file of at least one vector of the same dimension above 0 and below 2 ^ 31, as writeFvecs
    -- and writeIvecs write it, is read by readVecs without an exception: with the dimension, the
    -- first vectors up to the limit (all of them for the limit 0) and their number.
    pub read_vecs-write_vecs :
        (limit n : ℕ) (xs : List ℕ)
        → 0 < d
        → 0 < n
        → length xs ≡ n * d
        → All (Fits 4) xs
        → read_vecs to_string path limit (some (write_vecs n d xs))
          ≡ loaded (record { values = take (taken limit n * d) xs; n = taken limit n; d = d })
    unfolding read_vecs
    read_vecs-write_vecs limit zero xs pos some_rows e h = absurd (omega arith)
    read_vecs-write_vecs limit (suc n) xs pos some_rows e h =
        let above : (d == 0) ≡ false = ground arith in
        let below : leb (2 ^ 31) d ≡ false = ground arith in
        rw (first_word n xs, above, below, read_all-write_vecs limit (suc n) xs e h)
