-- ===== src/Tests/Vecs.antt =====
-- Files of vectors.
use Prim.Native.String.{String}
use vector_search_engine.Base.{ℕ, ◌^◌, ◌<◌, ◌≡◌, refl, List, [], ◌∷◌, length, some, arith}
use vector_search_engine.Bytes.Arrays.{Fits-uint32}
use vector_search_engine.Snapshot.{loaded}
use vector_search_engine.Vecs.{write_vecs, read_vecs}
use vector_search_engine.Vecs.RoundTrip.{read_vecs-write_vecs}
use vector_search_engine.Vecs.Outcome.{Comes, IsRead, read_vecs-Comes}

abbrev digits : ℕ → String
digits n = "?"

-- three vectors of two numbers, of which two are read
abbrev numbers : List ℕ
numbers = 7 ∷ 8 ∷ 9 ∷ 10 ∷ 11 ∷ 12 ∷ []

read_vecs-write_vecs_example :
    read_vecs digits "base.fvecs" 2 (some (write_vecs 3 2 numbers))
    ≡ loaded (record { values = 7 ∷ 8 ∷ 9 ∷ 10 ∷ []; n = 2; d = 2 })
read_vecs-write_vecs_example =
    let f = λ (x : ℕ) (lt : x < 2 ^ 32). Fits-uint32 x lt in
    read_vecs-write_vecs 2 (omega arith) digits "base.fvecs" 2 3 numbers (omega arith) (omega arith)
      refl
      (
        f 7 (omega arith),
        (
          f 8 (omega arith),
          (f 9 (omega arith), (f 10 (omega arith), (f 11 (omega arith), (f 12 (omega arith), tt)))),
        ),
      )

-- a file whose second record has another dimension
abbrev uneven : List ℕ
uneven = 1 ∷ 0 ∷ 0 ∷ 0 ∷ 5 ∷ 0 ∷ 0 ∷ 0 ∷ 2 ∷ 0 ∷ 0 ∷ 0 ∷ 5 ∷ 0 ∷ 0 ∷ 0 ∷ []

read_vecs-Comes_example :
    Comes (IsRead 0 (length uneven)) (read_vecs digits "uneven.fvecs" 0 (some uneven))
read_vecs-Comes_example = read_vecs-Comes digits "uneven.fvecs" 0 uneven
