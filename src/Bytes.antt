-- ===== src/Bytes.antt =====
-- How numbers lie in memory and in files: the lowest byte first, as on the little-endian machines
-- that the program is built for. A file and an array of numbers are lists of bytes.
pub mod Arrays
use vector_search_engine.Base.{
  ℕ, zero, suc, ◌+◌, ◌*◌, ◌/◌, ◌%◌, ◌^◌, List, [], ◌∷◌, ◌++◌, take, drop,
}

-- the `w` bytes of a number
unfoldable pub le_bytes : ℕ → ℕ → List ℕ
le_bytes zero x = []
le_bytes (suc w) x = x % 2 ^ 8 ∷ le_bytes w (x / 2 ^ 8)

-- the number with these bytes
unfoldable pub word_of : List ℕ → ℕ
word_of [] = 0
word_of (b ∷ bs) = b + 2 ^ 8 * word_of bs

-- an array of numbers of `w` bytes each
unfoldable pub array_bytes : ℕ → List ℕ → List ℕ
array_bytes w [] = []
array_bytes w (x ∷ xs) = le_bytes w x ++ array_bytes w xs

-- the first `k` numbers of `w` bytes
unfoldable pub words : ℕ → ℕ → List ℕ → List ℕ
words w zero bs = []
words w (suc k) bs = word_of (take w bs) ∷ words w k (drop w bs)
