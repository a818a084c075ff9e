-- ===== src/Bytes/Arrays.antt =====
-- Numbers and arrays read back from their bytes.
use vector_search_engine.Base.{
  ℕ, zero, suc, ◌+◌, ◌*◌, ◌/◌, ◌^◌, ◌<◌, List, [], ◌∷◌, ◌++◌, length, length-append, take_nil,
  drop_nil, take-append, drop-append, take-length_add, drop-length_add, take, drop, All, ◌≡◌, refl,
  ap, sym, ◌∙◌, arith,
}
use mathlib.Core.List.{append_assoc}
use vector_search_engine.Bytes.{le_bytes, word_of, array_bytes, words}

-- a number that its `w` bytes hold
abbrev pub Fits : ℕ → ℕ → Type 0
Fits w x = word_of (le_bytes w x) ≡ x

pub Fits-byte : (x : ℕ) → x < 2 ^ 8 → Fits 1 x
unfolding le_bytes word_of
Fits-byte x lt = omega arith

pub Fits-uint32 : (x : ℕ) → x < 2 ^ 32 → Fits 4 x
unfolding le_bytes word_of
Fits-uint32 x lt = omega arith

pub Fits-uint64 : (x : ℕ) → x < 2 ^ 64 → Fits 8 x
unfolding le_bytes word_of
Fits-uint64 x lt = omega arith

pub length-le_bytes : (w x : ℕ) → length (le_bytes w x) ≡ w
unfolding le_bytes
length-le_bytes zero x = refl
length-le_bytes (suc w) x = ap suc (length-le_bytes w (x / 2 ^ 8))

module _ (w : ℕ) where
  pub length-array_bytes : (xs : List ℕ) → length (array_bytes w xs) ≡ length xs * w
  unfolding array_bytes
  length-array_bytes [] = omega arith
  length-array_bytes (x ∷ xs) = grind (
    arith,
    length-array_bytes xs,
    length-append (le_bytes w x) (array_bytes w xs),
    length-le_bytes w x,
  )

  pub array_bytes-append :
      (xs ys : List ℕ) → array_bytes w (xs ++ ys) ≡ array_bytes w xs ++ array_bytes w ys
  unfolding array_bytes
  array_bytes-append [] ys = refl
  array_bytes-append (x ∷ xs) ys =
      rw (array_bytes-append xs ys)
        (sym (append_assoc (le_bytes w x) (array_bytes w xs) (array_bytes w ys)))

  -- the first k numbers of an array take up its first k * w bytes
  pub take-array_bytes :
      (k : ℕ) (xs : List ℕ) → take (k * w) (array_bytes w xs) ≡ array_bytes w (take k xs)
  unfolding array_bytes
  take-array_bytes zero xs = let z : 0 * w ≡ 0 = omega arith in rw z
  take-array_bytes (suc k) [] = take_nil (suc k * w)
  take-array_bytes (suc k) (x ∷ xs) =
      let z : suc k * w ≡ w + k * w = grind arith in
      rw z (
        take-length_add (le_bytes w x) (array_bytes w xs) w (k * w) (length-le_bytes w x)
        ∙ ap (◌++◌ (le_bytes w x)) (take-array_bytes k xs))

  pub drop-array_bytes :
      (k : ℕ) (xs : List ℕ) → drop (k * w) (array_bytes w xs) ≡ array_bytes w (drop k xs)
  unfolding array_bytes
  drop-array_bytes zero xs = let z : 0 * w ≡ 0 = omega arith in rw z
  drop-array_bytes (suc k) [] = drop_nil (suc k * w)
  drop-array_bytes (suc k) (x ∷ xs) =
      let z : suc k * w ≡ w + k * w = grind arith in
      rw z (
        drop-length_add (le_bytes w x) (array_bytes w xs) w (k * w) (length-le_bytes w x)
        ∙ drop-array_bytes k xs)

  -- An array is read back from its bytes.
  pub words-array_bytes :
      (xs : List ℕ) → All (Fits w) xs → words w (length xs) (array_bytes w xs) ≡ xs
  unfolding words array_bytes
  words-array_bytes [] h = refl
  words-array_bytes (x ∷ xs) h = rw (
    take-append (le_bytes w x) (array_bytes w xs) w (length-le_bytes w x),
    drop-append (le_bytes w x) (array_bytes w xs) w (length-le_bytes w x),
    h.0,
    words-array_bytes xs h.1,
  )

pub length-words : (w k : ℕ) (bs : List ℕ) → length (words w k bs) ≡ k
unfolding words
length-words w zero bs = refl
length-words w (suc k) bs = ap suc (length-words w k (drop w bs))
