-- ===== src/Recall.antt =====
-- How the programs judge the index: the search through all vectors (bruteForce of src/shard_sim.cpp and
-- of src/benchmark.cpp) and the counts of the answers that it shares with a search. Both programs
-- call std::partial_sort for the first k, which is undefined where there are fewer: `none`.
pub mod Nearest
use vector_search_engine.Base.{
  ℕ, zero, suc, ◌+◌, ◌*◌, Bool, true, false, ◌||◌, ◌&&◌, List, [], ◌∷◌, Option, none, some,
  if◌then◌else◌, ltb, ◌==◌, length, take, drop, map, get_or,
}
use vector_search_engine.Platform.{Platform}
use vector_search_engine.Heap.{Cand, sort, pair_less}
use vector_search_engine.Distance.{dot_product, cosine_distance, l2_squared_distance}
use vector_search_engine.Index.{Label, Space, cosine, l2, label_eq}
use vector_search_engine.Search.{SearchResult}
use vector_search_engine.Shards.{Scored, scored_less}

module _ (P : Platform) where
  -- a vector divided by its norm, if that is above 0
  unfoldable pub unit : ℕ → List P.F → List P.F
  unit dim v =
      let norm = P.fsqrt (dot_product P v v dim) in
      if P.flt P.fzero norm then map (λ x. P.fdiv x norm) v else v

  module _ (base : List P.F) (dim : ℕ) where
    unfoldable pub row : ℕ → List P.F
    row i = take dim (drop (i * dim) base)

    -- the distance of row i from the normalised query
    unfoldable pub row_distance : List P.F → ℕ → P.F
    row_distance qn i = cosine_distance P qn (unit dim (row i)) dim

    -- the loop of shard_sim.cpp over the rows from i on, n of them
    unfoldable pub score_rows : List ℕ → List P.F → ℕ → ℕ → List (Scored P)
    score_rows client_ids qn zero i = []
    score_rows client_ids qn (suc n) i =
        record { distance = row_distance qn i; client_id = get_or client_ids i 0; label = i }
        ∷ score_rows client_ids qn n (suc i)

    unfoldable pub brute_force : List ℕ → ℕ → List P.F → ℕ → Option (List (Scored P))
    brute_force client_ids n query k =
        let qn = unit dim (take dim query) in
        if ltb n k
        then none
        else some (take k (sort (scored_less P) (score_rows client_ids qn n 0)))

    -- bruteForce of benchmark.cpp: its query, its distances, its loop over the rows
    unfoldable pub bench_query : Space → List P.F → List P.F
    bench_query cosine query = unit dim (take dim query)
    bench_query l2 query = take dim query

    unfoldable pub bench_distance : Space → List P.F → ℕ → P.F
    bench_distance cosine qn i = row_distance qn i
    bench_distance l2 qn i = l2_squared_distance P qn (row i) dim

    unfoldable pub bench_rows : Space → List P.F → ℕ → ℕ → List (Cand P)
    bench_rows space qn zero i = []
    bench_rows space qn (suc n) i = (bench_distance space qn i, i) ∷ bench_rows space qn n (suc i)

    unfoldable pub bench_brute_force : Space → ℕ → List P.F → ℕ → Option (List Label)
    bench_brute_force space n query k =
        let scored = sort (pair_less P) (bench_rows space (bench_query space query) n 0) in
        if ltb n k
        then none
        else some (map (λ (c : Cand P). record { client_id = 1; label = c.1 }) (take k scored))

  -- `sb.count`
  unfoldable pub among : List (Scored P) → Scored P → Bool
  among [] x = false
  among (y ∷ ys) x = (y.client_id == x.client_id && y.label == x.label) || among ys x

  unfoldable pub overlap_hits : List (Scored P) → List (Scored P) → ℕ
  overlap_hits [] b = 0
  overlap_hits (x ∷ a) b = (if among b x then 1 else 0) + overlap_hits a b

  unfoldable pub overlap_fraction : List (Scored P) → List (Scored P) → P.D
  overlap_fraction [] b = P.dzero
  overlap_fraction (x ∷ a) b =
      P.ddiv (P.of_size (overlap_hits (x ∷ a) b)) (P.of_size (length (x ∷ a)))

  -- the loop of benchmark.cpp over the truth, up to the first label that is the result's
  unfoldable pub in_truth : List Label → Label → Bool
  in_truth [] l = false
  in_truth (t ∷ ts) l = label_eq l t || in_truth ts l

  unfoldable pub recall_hits : List (SearchResult P) → List Label → ℕ
  recall_hits [] truth = 0
  recall_hits (r ∷ rs) truth = (if in_truth truth r.label then 1 else 0) + recall_hits rs truth
