-- ===== src/Vecs.antt =====
-- The files of vectors that the benchmarks read and write: readVecs of src/sift_bench.cpp, writeFvecs
-- and writeIvecs of make_test_fvecs.cpp. A number of a file, a float or an int32_t, is kept as the
-- number of its four bytes. The file system is a parameter: a file is the list of its bytes.
pub mod RoundTrip
pub mod Outcome
use Prim.Native.String.{String, ◌++◌ as append_text}
use vector_search_engine.Base.{
  ℕ, zero, suc, ◌+◌, ◌*◌, ◌/◌, ◌%◌, ◌^◌, min, Bool, true, false, ◌||◌, not, List, [], ◌∷◌, ◌++◌,
  Option, none, some, if◌then◌else◌, ltb, leb, ◌==◌, length, take, drop, replicate,
}
use vector_search_engine.Bytes.{le_bytes, array_bytes}
use vector_search_engine.Snapshot.{
  Reader, Loaded, loaded, rejects, undefined, ◌>>=◌, scalar, late_scalar, read_array,
}

-- VecFile<T>, its `data` being `values`
pub record VecFile : Type 0 where
  pub values : List ℕ
  pub n : ℕ
  pub d : ℕ

-- the loop of writeFvecs and writeIvecs over the rows, `n` of them, from the data on that are left
unfoldable pub write_vecs : ℕ → ℕ → List ℕ → List ℕ
write_vecs zero d xs = []
write_vecs (suc n) d xs =
    le_bytes 4 (d % 2 ^ 32) ++ (array_bytes 4 (take d xs) ++ write_vecs n d (drop d xs))

module _ (to_string : ℕ → String) (path : String) where
  -- The loop over the records from `i` on, `n` of them; the row is read over the zeros of resize.
  unfoldable pub read_records : ℕ → ℕ → ℕ → Reader → Loaded (List ℕ × Reader)
  read_records zero i d s = loaded ([], s)
  read_records (suc n) i d s = do
    (dim, s1) ← scalar 4 s
    (if dim == d
        then (read_array 4 (d * 4) (replicate d 0) s1 >>= λ (row : List ℕ × Reader).
            (read_records n (suc i) d row.1 >>= λ (rest : List ℕ × Reader).
            loaded (row.0 ++ rest.0, rest.1)))
        else rejects
            (append_text path (append_text ": inconsistent dimension at record " (to_string i))))

  -- what follows the test of the dimension: an int32_t above 0
  unfoldable pub read_all : ℕ → List ℕ → ℕ → Loaded VecFile
  read_all limit bytes d =
      let size = 4 + d * 4 in
      let total = length bytes / size in
      let n = if limit == 0 then total else min limit total in
      if length bytes % size == 0
      then (read_records n 0 d (record { rest = bytes; good = true }) >>= λ (r : List ℕ × Reader).
          loaded (record { values = r.0; n = n; d = d }))
      else rejects (
          append_text path
            ": file size not a multiple of record size -- wrong dtype (fvecs vs ivecs) or corrupt file?")

  -- `none` is a file that does not open. A read fails only at the end of the file, so the last test,
  -- which excepts that, throws nothing.
  unfoldable pub read_vecs : ℕ → Option (List ℕ) → Loaded VecFile
  read_vecs limit none = rejects (append_text "cannot open " path)
  read_vecs limit (some bytes) =
      let (d0, s) = late_scalar 4 (record { rest = bytes; good = true }) in
      if not s.good || (d0 == 0 || leb (2 ^ 31) d0)
      then rejects (append_text path ": failed to read dimension header")
      else read_all limit bytes d0
