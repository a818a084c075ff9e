-- ===== src/Programs/Measures.antt =====
-- The hits that src/benchmark.cpp and src/sift_bench.cpp count.
use vector_search_engine.Base.{
  ℕ, zero, suc, ◌+◌, ◌*◌, ◌≤◌, ◌<◌, List, [], ◌∷◌, some, length, get_or, ◌≡◌, refl, ap, ◌∙◌, arith,
}
use vector_search_engine.Platform.{Platform, IsOrdered}
use vector_search_engine.Result.{ok}
use vector_search_engine.Visited.{VisitedListPool}
use vector_search_engine.Visited.Refinement.{IsPool}
use vector_search_engine.Index.{Index, Label}
use vector_search_engine.Search.{SearchResult, search, ◌>>=◌}
use vector_search_engine.Search.Answers.{search-Answers}
use vector_search_engine.Lifetime.{IsIndex}
use vector_search_engine.Lifetime.Preservation.{repool-IsIndex}
use vector_search_engine.Vecs.{VecFile}
use vector_search_engine.Recall.{row, recall_hits}
use vector_search_engine.Programs.{recall_loop, sift_hits, sift_loop, sift_checks}

module _ {P : Platform} where
  recall_hits-le :
      (rs : List (SearchResult P)) (truth : List Label) → recall_hits P rs truth ≤ length rs
  unfolding recall_hits
  recall_hits-le [] truth = omega arith
  recall_hits-le (r ∷ rs) truth = ground (arith, recall_hits-le rs truth)

  sift_hits-le :
      (gt : List ℕ) (start k : ℕ) (rs : List (SearchResult P)) → sift_hits gt start k rs ≤ length rs
  unfolding sift_hits
  sift_hits-le gt start k [] = omega arith
  sift_hits-le gt start k (r ∷ rs) = ground (arith, sift_hits-le gt start k rs)

module _ {P : Platform} (o : IsOrdered P) (idx : Index P) (h : IsIndex idx) (queries : List P.F)
    (dim k ef : ℕ) where
  abbrev with_lists : VisitedListPool → Index P
  with_lists pool = record idx { visited_pool = pool }

  -- one search of the loops
  searched :
      (p : VisitedListPool) (q : ℕ)
      → IsPool idx.max_elements p
      → (rs : List (SearchResult P)) × (p' : VisitedListPool) × (search
            (with_lists p)
            (row P queries dim q)
            k
            ef
          ≡ some (rs, with_lists p'))
        × (length rs ≤ k)
        × IsPool idx.max_elements p'
  searched p q hp =
      let (r, run, a) =
        search-Answers (with_lists p) o (repool-IsIndex idx o h p hp).graph (row P queries dim q) k
          ef in
      (r.0, a.pool, run ∙ ap (λ x. some (r.0, x)) a.kept, a.at_most, a.pooled)

  recall_loop-from :
      (truth : List (List Label)) (n q hits : ℕ) (p : VisitedListPool)
      → IsPool idx.max_elements p
      → (total : ℕ) × (p' : VisitedListPool) × (recall_loop queries dim k ef truth
            (with_lists p)
            hits
            n
            q
          ≡ some (total, with_lists p'))
        × (total ≤ hits + n * k)
  unfolding recall_loop
  recall_loop-from truth zero q hits p hp = (hits, p, refl, omega arith)
  recall_loop-from truth (suc n) q hits p hp =
      let (rs, p1, run, few, hp1) = searched p q hp in
      let here = recall_hits P rs (get_or truth q []) in
      let (total, p2, rest, le) = recall_loop-from truth n (suc q) (hits + here) p1 hp1 in
      let le' = recall_hits-le rs (get_or truth q []) in
      (total, p2, rw (recall_loop, run, ◌>>=◌) rest, grind (arith, le, le', few))

  sift_loop-from :
      (gt : List ℕ) (d n q hits : ℕ) (p : VisitedListPool)
      → IsPool idx.max_elements p
      → (total : ℕ) × (p' : VisitedListPool) × (sift_loop queries dim k ef gt d
            (with_lists p)
            hits
            n
            q
          ≡ some (total, with_lists p'))
        × (total ≤ hits + n * k)
  unfolding sift_loop
  sift_loop-from gt d zero q hits p hp = (hits, p, refl, omega arith)
  sift_loop-from gt d (suc n) q hits p hp =
      let (rs, p1, run, few, hp1) = searched p q hp in
      let here = sift_hits gt (q * d) k rs in
      let (total, p2, rest, le) = sift_loop-from gt d n (suc q) (hits + here) p1 hp1 in
      let le' = sift_hits-le gt (q * d) k rs in
      (total, p2, rw (sift_loop, run, ◌>>=◌) rest, grind (arith, le, le', few))

  -- Where distances are ordered, on an index in order the loops of both benchmarks over n queries
  -- return, with at most n * K hits, the divisor of the recall; of the index they change the pool
  -- of visited lists alone.
  pub recall-le :
      (truth : List (List Label)) (gt : List ℕ) (d n : ℕ)
      → (hits : ℕ) × (sift : ℕ) × (pool : VisitedListPool) × (pool' : VisitedListPool)
        × (recall_loop queries dim k ef truth idx 0 n 0 ≡ some (hits, with_lists pool))
        × (sift_loop queries dim k ef gt d idx 0 n 0 ≡ some (sift, with_lists pool'))
        × (hits ≤ n * k)
        × (sift ≤ n * k)
  recall-le truth gt d n =
      let p = idx.visited_pool in
      let (hits, p1, run, le) = recall_loop-from truth n 0 0 p h.graph.store.pool in
      let (sift, p2, run', le') = sift_loop-from gt d n 0 0 p h.graph.store.pool in
      (hits, sift, p1, p2, run, run', omega arith, omega arith)

-- Every read of the ground truth that the loop makes for a query lies inside the file that was read.
pub sift_checks-inside :
    (base queries gt : VecFile) (k q t : ℕ)
    → sift_checks base queries gt k ≡ ok tt
    → length gt.values ≡ gt.n * gt.d
    → q < queries.n
    → t < k
    → q * gt.d + t < length gt.values
unfolding sift_checks
sift_checks-inside base queries gt k q t e len lt lt' =
    let rows : queries.n ≤ gt.n = ground arith in
    let entries : k ≤ gt.d = ground arith in grind arith
