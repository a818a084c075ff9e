-- ===== src/Tests/Shards.antt =====
-- The theorems on src/shard_sim.cpp at concrete inputs, and the published hash of one byte.
use vector_search_engine.Base.{
  ℕ, ◌≡◌, refl, min, List, [], ◌∷◌, take, map, arith, some, length, get_or, ◌<◌,
}
use vector_search_engine.Search.{SearchResult}
use vector_search_engine.Shards.{fnv_loop, fnv1a64, gather}
use vector_search_engine.Shards.Gather.{nearer_than, found_in, nearer-gather-take}
use vector_search_engine.Shards.{distribute, no_members}
use vector_search_engine.Shards.Build.{build_shard, build_shard-returns, placement}
use vector_search_engine.Lifetime.{IsIndex}
use vector_search_engine.Index.{Index}
use vector_search_engine.Result.{ok}
use vector_search_engine.Shards.Balance.{IsPlaced, distribute-IsPlaced}
use vector_search_engine.Tests.Samples.{counting, counting-IsOrdered, client_label}

-- FNV-1a of the text "a"
fnv1a64_a : fnv1a64 (97 ∷ []) ≡ 0xaf63dc4c8601ec8c
unfolding fnv1a64 fnv_loop
fnv1a64_a = refl

abbrev result : ℕ → SearchResult counting
result n = record { label = client_label n; distance = n }

-- the answers of two shards
abbrev answers : List (List (SearchResult counting))
answers = (result 1 ∷ result 4 ∷ result 6 ∷ []) ∷ (result 2 ∷ result 3 ∷ result 9 ∷ []) ∷ []

nearer-gather-take_example :
    (nearer_than {P = counting} 4 (gather counting 2 (map (take 2) answers))
      ≡ min 2 (found_in {P = counting} 4 answers))
    × (nearer_than {P = counting} 4 (gather counting 2 answers)
        ≡ min 2 (found_in {P = counting} 4 answers))
nearer-gather-take_example = nearer-gather-take counting-IsOrdered 4 2 answers (
  ((refl, (refl, tt)), ((refl, tt), (tt, tt))),
  (((refl, (refl, tt)), ((refl, tt), (tt, tt))), tt),
)

distribute-IsPlaced_example :
    IsPlaced (1 ∷ 2 ∷ 3 ∷ []) 2 (omega arith) 3 (distribute (1 ∷ 2 ∷ 3 ∷ []) 2 (no_members 2) 3 0)
distribute-IsPlaced_example = distribute-IsPlaced (1 ∷ 2 ∷ 3 ∷ []) 2 (omega arith) 3

-- three vectors of one number on two shards
abbrev base : List ℕ
base = 5 ∷ 9 ∷ 2 ∷ []

abbrev clients : List ℕ
clients = 1 ∷ 2 ∷ 3 ∷ []

some_shard : 0 < 2
some_shard = omega arith

build_shard-returns_example :
    (r : Index counting) × (build_shard base 1 clients (placement clients 2 3) 2 4 0 ≡ some (ok r))
    × IsIndex r
    × (r.count ≡ length (get_or (placement clients 2 3).members 0 []))
build_shard-returns_example =
    build_shard-returns counting-IsOrdered base clients 2 some_shard 1 2 4 3 0 (omega arith)
      (omega arith) (omega arith) (omega arith) (omega arith) (omega arith) (omega arith)
      (omega arith)
