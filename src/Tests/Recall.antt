-- ===== src/Tests/Recall.antt =====
-- The search through all vectors of a small base.
use vector_search_engine.Base.{ℕ, ◌≡◌, List, [], ◌∷◌, some, take, arith}
use vector_search_engine.Shards.{Scored}
use vector_search_engine.Recall.{unit, brute_force}
use vector_search_engine.Recall.Nearest.{IsTruth, brute_force-IsTruth}
use vector_search_engine.Tests.Samples.{counting, counting-IsOrdered}

abbrev base : List ℕ
base = 5 ∷ 9 ∷ 2 ∷ []

abbrev clients : List ℕ
clients = 1 ∷ 2 ∷ 1 ∷ []

brute_force-IsTruth_example :
    (xs : List (Scored counting)) × (brute_force counting base 1 clients 3 (8 ∷ []) 2 ≡ some xs)
    × IsTruth counting base 1 clients (unit counting 1 (take 1 (8 ∷ []))) 3 2 0 xs
brute_force-IsTruth_example =
    brute_force-IsTruth counting base 1 clients counting-IsOrdered 3 2 0 (8 ∷ []) (omega arith)
      (omega arith)
