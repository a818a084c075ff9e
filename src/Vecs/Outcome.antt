-- ===== src/Vecs/Outcome.antt =====
-- What readVecs comes to on any file.
use Prim.Native.String.{String}
use native.Mathlib.Nat.{mul-div-le}
use vector_search_engine.Base.{
  ℕ, zero, suc, ◌+◌, ◌*◌, ◌/◌, ◌%◌, ◌^◌, ◌≤◌, ◌<◌, min, true, false, ◌||◌, not, ◌==◌, ltb, leb,
  if◌then◌else◌, List, [], ◌++◌, length, length-append, length-drop, length-replicate, take,
  replicate, some, ◌≡◌, refl, ap, sym, subst, ◌∙◌, ◌⊎◌, inl, inr, Bool-cases, arith,
}
use vector_search_engine.Bytes.{word_of}
use vector_search_engine.Bytes.Arrays.{length-words}
use vector_search_engine.Snapshot.{
  Reader, Loaded, loaded, rejects, undefined, ◌>>=◌, advance, scalar, late_scalar, read_array,
}
use vector_search_engine.Vecs.{VecFile, read_records, read_all, read_vecs}

mul_le : (a b c : ℕ) → a ≤ b → a * c ≤ b * c
mul_le a b c le = grind arith

-- An exception, or a value with the property.
pub data Comes {A : Type 0} (Q : A → Type 0) : Loaded A → Type 0 where
  returns : (a : A) → Q a → Comes Q (loaded a)
  throws : (msg : String) → Comes Q (rejects msg)

Comes->>= :
    {A B : Type 0} (Q : A → Type 0) (R : B → Type 0) (m : Loaded A) (f : A → Loaded B)
    → Comes Q m
    → ((a : A) → Q a → Comes R (f a))
    → Comes R (m >>= f)
Comes->>= Q R m f (returns a q) next = next a q
Comes->>= Q R m f (throws msg) next = throws msg

-- a good stream with so many bytes left
pub record Has (n : ℕ) (s : Reader) : Type 0 where
  pub good : s.good ≡ true
  pub bytes : n ≤ length s.rest

advance-Has : (n k : ℕ) (s : Reader) → Has (n + k) s → Has k (advance n s)
unfolding advance
advance-Has n k s h = record {
  good = ground (arith, h.good, h.bytes);
  bytes = omega (arith, length-drop n s.rest, h.bytes);
}

scalar-Has :
    (w k : ℕ) (s : Reader) → Has (w + k) s → Comes (λ (r : ℕ × Reader). Has k r.1) (scalar w s)
unfolding scalar
scalar-Has w k s h =
    let rest = advance-Has w k s h in
    let r : ℕ × Reader = (word_of (take w s.rest), advance w s) in
    let e : scalar w s ≡ loaded r = ap (λ b. if b then loaded r else undefined) rest.good in
    subst (Comes (λ r. Has k r.1)) (sym e) (returns r rest)

read_row-Has :
    (d k : ℕ) (s : Reader)
    → Has (d * 4 + k) s
    → Comes
        (λ (r : List ℕ × Reader). (length r.0 ≡ d) × Has k r.1)
        (read_array 4 (d * 4) (replicate d 0) s)
unfolding read_array
read_row-Has d k s h =
    let size = length-replicate {A = ℕ} d 0 in
    let room : ltb (length (replicate {A = ℕ} d 0) * 4) (min (d * 4) (length s.rest)) ≡ false =
      ground (arith, size) in
    rw room (
      returns _
        (length-words 4 (length (replicate {A = ℕ} d 0)) _ ∙ size, advance-Has (d * 4) k s h))

-- a vector file as large as the file that it was read from
pub record IsRead (limit size : ℕ) (v : VecFile) : Type 0 where
  pub positive : 0 < v.d
  pub whole : length v.values ≡ v.n * v.d
  pub inside : v.n * (4 + v.d * 4) ≤ size
  pub limited : (limit ≡ 0) ⊎ (v.n ≤ limit)

module _ (to_string : ℕ → String) (path : String) where
  read_records-Comes :
      (n i d : ℕ) (s : Reader)
      → Has (n * (4 + d * 4)) s
      → Comes (λ (r : List ℕ × Reader). length r.0 ≡ n * d) (read_records to_string path n i d s)
  unfolding read_records
  read_records-Comes zero i d s h = returns ([], s) (omega arith)
  read_records-Comes (suc n) i d s h =
      let size : suc n * (4 + d * 4) ≡ 4 + (d * 4 + n * (4 + d * 4)) = grind arith in
      let more : suc n * d ≡ d + n * d = grind arith in
      Comes->>= _ _ (scalar 4 s) _
        (scalar-Has 4 (d * 4 + n * (4 + d * 4)) s (subst (λ k. Has k s) size h))
        (λ r has. elim (Bool-cases (r.0 == d)) [
          | inl same ↦ rw same (
              Comes->>= _ _ (read_array 4 (d * 4) (replicate d 0) r.1) _
                (read_row-Has d (n * (4 + d * 4)) r.1 has)
                (λ row left.
                  Comes->>= _ _ (read_records to_string path n (suc i) d row.1) _
                    (read_records-Comes n (suc i) d row.1 left.1)
                    (λ rest done.
                      returns (row.0 ++ rest.0, rest.1)
                        (omega (arith, length-append row.0 rest.0, left.0, done)))))
          | inr other ↦ rw other (throws _)
        ])

  read_all-Comes :
      (limit : ℕ) (bytes : List ℕ) (d : ℕ)
      → 0 < d
      → Comes (IsRead limit (length bytes)) (read_all to_string path limit bytes d)
  unfolding read_all
  read_all-Comes limit bytes d pos =
      let size = 4 + d * 4 in
      let total = length bytes / size in
      let n = if limit == 0 then total else min limit total in
      let few : n ≤ total = ground arith in
      let fits : total * size ≤ length bytes = omega (arith, mul-div-le (length bytes) size) in
      let inside : n * size ≤ length bytes = omega (arith, mul_le n total size few, fits) in
      elim (Bool-cases (length bytes % size == 0)) [
        | inl even ↦ rw even (
            Comes->>= _ _ (read_records to_string path n 0 d (record { rest = bytes; good = true }))
              _
              (read_records-Comes n 0 d (record { rest = bytes; good = true })
                (record { good = refl; bytes = inside }))
              (λ r e.
                returns (record { values = r.0; n = n; d = d })
                  (record { positive = pos; whole = e; inside = inside; limited = ground arith })))
        | inr odd ↦ rw odd (throws _)
      ]

  -- On every file that opens readVecs ends in an exception or in a result and never uses a
  -- variable that no read has set; a result has a dimension above 0, as many numbers as its
  -- vectors take, no more records than the file has room for, and no more vectors than a limit
  -- other than 0.
  pub read_vecs-Comes :
      (limit : ℕ) (bytes : List ℕ)
      → Comes (IsRead limit (length bytes)) (read_vecs to_string path limit (some bytes))
  unfolding read_vecs
  read_vecs-Comes limit bytes =
      let r = late_scalar 4 (record { rest = bytes; good = true }) in
      elim (Bool-cases (not r.1.good || (r.0 == 0 || leb (2 ^ 31) r.0))) [
        | inl bad ↦ rw bad (throws _)
        | inr fine ↦ rw fine (read_all-Comes limit bytes r.0 (ground arith))
      ]
