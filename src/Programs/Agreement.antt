-- ===== src/Programs/Agreement.antt =====
-- The queries of src/shard_sim.cpp with one shard, beside those of its one index.
use vector_search_engine.Base.{
  ℕ, zero, suc, ◌+◌, ◌*◌, ◌/◌, ◌^◌, ◌≤◌, ◌<◌, max, Bool, true, false, List, [], ◌∷◌, some, All-map,
  length-map, ltb, length, map, take, Pairs, ◌≡◌, refl, sym, ap, ◌∙◌, arith,
}
use vector_search_engine.Platform.{Platform, IsOrdered}
use vector_search_engine.Result.{ok}
use vector_search_engine.Heap.{sort, emplace}
use vector_search_engine.Visited.{VisitedListPool}
use vector_search_engine.Visited.Refinement.{IsPool}
use vector_search_engine.Index.{Index}
use vector_search_engine.Search.{SearchResult, search, ◌>>=◌}
use vector_search_engine.Lifetime.{IsIndex}
use vector_search_engine.Snapshot.{loaded}
use vector_search_engine.Recall.{row, brute_force, unit, score_rows, overlap_fraction}
use vector_search_engine.Shards.{Scored, scored, scored_less, gather, gather_pool}
use vector_search_engine.Shards.Build.{placement, build_shard-returns}
use vector_search_engine.Programs.Twins.{same_answers}
use vector_search_engine.Programs.OneShard.{build_shard-one}
use vector_search_engine.Programs.Cluster.{
  Round, identical_keys, ask_shards, build_mono, build_shards, query_round, exact_matches,
}

-- a ranked list is sorted
sort-ranked {ℓ} :
    {A : Type ℓ} (less : A → A → Bool) (xs : List A)
    → Pairs (λ a b. less b a ≡ false) xs
    → sort less xs ≡ xs
unfolding sort emplace
sort-ranked less [] h = refl
sort-ranked less (x ∷ []) h = refl
sort-ranked less (x ∷ y ∷ ys) h =
    ap (emplace (λ a b. less b a) x) (sort-ranked less (y ∷ ys) h.1) ∙ rw (h.0.0) refl

identical_keys_refl : {P : Platform} (xs : List (Scored P)) → identical_keys xs xs ≡ true
unfolding identical_keys
identical_keys_refl [] = refl
identical_keys_refl (x ∷ xs) = ground (arith, identical_keys_refl xs)

module _ {P : Platform} where
  ranked-scored :
      (rs : List (SearchResult P))
      → Pairs (λ a b. P.flt b.distance a.distance ≡ false) rs
      → Pairs (λ a b. scored_less P b a ≡ false) (map (scored P) rs)
  unfolding scored_less
  ranked-scored [] h = tt
  ranked-scored (r ∷ rs) h =
      (All-map (scored P) (λ b. P.flt b.distance r.distance ≡ false) rs h.0, ranked-scored rs h.1)

  -- the answers of one shard, gathered
  gather-one :
      (k : ℕ) (rs : List (SearchResult P))
      → length rs ≤ k
      → Pairs (λ a b. P.flt b.distance a.distance ≡ false) rs
      → gather P k (rs ∷ []) ≡ map (scored P) rs
  unfolding gather gather_pool
  gather-one k rs few ranked =
      let xs = map (scored P) rs in
      let sorted : sort (scored_less P) xs ≡ xs =
        sort-ranked (scored_less P) xs (ranked-scored rs ranked) in
      let fits : ltb k (length xs) ≡ false = ground (arith, length-map (scored P) rs) in
      rw (sorted, fits) refl

  brute_force-some :
      (base : List P.F) (dim : ℕ) (client_ids : List ℕ) (n : ℕ) (query : List P.F) (k : ℕ)
      → k ≤ n
      → (truth : List (Scored P)) × (brute_force P base dim client_ids n query k ≡ some truth)
  unfolding brute_force
  brute_force-some base dim client_ids n query k le =
      let few : ltb n k ≡ false = ground arith in
      let rows = score_rows P base dim client_ids (unit P dim (take dim query)) n 0 in
      (take k (sort (scored_less P) rows), rw (brute_force, few) refl)

module _ {P : Platform} (o : IsOrdered P) (idx : Index P) (h : IsIndex idx) (base : List P.F)
    (dim : ℕ) (client_ids : List ℕ) (n k ef : ℕ) (le : k ≤ n) where
  abbrev pooled : VisitedListPool → Index P
  pooled p = record idx { visited_pool = p }

  asked :
      (query : List P.F) (k ef : ℕ) (p p' : VisitedListPool)
      → IsPool idx.max_elements p
      → IsPool idx.max_elements p'
      → (rs : List (SearchResult P)) × (q : VisitedListPool) × (q' : VisitedListPool) × (search
            (pooled p)
            query
            k
            ef
          ≡ some (rs, pooled q))
        × (ask_shards (pooled p' ∷ []) query k ef ≡ some (rs ∷ [], pooled q' ∷ []))
        × IsPool idx.max_elements q
        × IsPool idx.max_elements q'
        × (length rs ≤ k)
        × Pairs (λ x y. P.flt y.distance x.distance ≡ false) rs
  unfolding ask_shards
  asked query k ef p p' hp hp' =
      let (rs, q, q', run, run', hq, hq', few, ranked) =
        same_answers o idx h idx.label_to_id idx.rng idx.visited_pool h query k ef p p' hp hp' in
      (rs, q, q', run, rw (ask_shards, run', ◌>>=◌) refl, hq, hq', few, ranked)

  round-agrees :
      (query : List P.F) (p p' : VisitedListPool)
      → IsPool idx.max_elements p
      → IsPool idx.max_elements p'
      → (round : Round P) × (q : VisitedListPool) × (q' : VisitedListPool) × (query_round base dim
            client_ids n 1 k ef
            (pooled p)
            (pooled p' ∷ [])
            query
          ≡ some (loaded (round, pooled q, pooled q' ∷ [])))
        × (round.identical ≡ true)
        × IsPool idx.max_elements q
        × IsPool idx.max_elements q'
  unfolding query_round
  round-agrees query p p' hp hp' =
      let (truth, t) = brute_force-some base dim client_ids n query k le in
      let (rs, q, q', run, run', hq, hq', few, ranked) = asked query k ef p p' hp hp' in
      let (naive, _, s', _, nrun, _, hs', _, _) = asked query (max 1 (k / 1)) ef q q' hq hq' in
      let (fair, s, _, frun, _, hs, _, _, _) = asked query k (ef * 1) q q' hq hq' in
      let same : identical_keys (gather P k (rs ∷ [])) (map (scored P) rs) ≡ true =
        ap (λ xs. identical_keys xs (map (scored P) rs)) (gather-one k rs few ranked)
        ∙ identical_keys_refl (map (scored P) rs) in
      let mono_scored = map (scored P) rs in
      let pool = gather P k (rs ∷ []) in
      let round : Round P = record {
        recall_mono = overlap_fraction P mono_scored truth;
        recall_scatter = overlap_fraction P pool truth;
        recall_naive = overlap_fraction P (gather P k (naive ∷ [])) truth;
        recall_mono_fair = overlap_fraction P (map (scored P) fair) truth;
        overlap_mono_scatter = overlap_fraction P pool mono_scored;
        identical = identical_keys pool mono_scored;
      } in
      (round, s, s', rw (query_round, t, run, ◌>>=◌, run', nrun, frun) refl, same, hs, hs')

  exact_matches-from :
      (queries : List P.F) (n' q m : ℕ) (p p' : VisitedListPool)
      → IsPool idx.max_elements p
      → IsPool idx.max_elements p'
      → exact_matches base dim client_ids n 1 k ef queries (pooled p) (pooled p' ∷ []) m n' q
        ≡ some (loaded (m + n'))
  unfolding exact_matches
  exact_matches-from queries zero q m p p' hp hp' = let z : m + 0 ≡ m = omega arith in rw z refl
  exact_matches-from queries (suc n') q m p p' hp hp' =
      let (round, t, t', run, same, ht, ht') = round-agrees (row P queries dim q) p p' hp hp' in
      let z : m + suc n' ≡ m + 1 + n' = omega arith in
      rw (exact_matches, run, ◌>>=◌, same, z)
        (exact_matches-from queries n' (suc q) (m + 1) t t' ht ht')

module _ {P : Platform} (o : IsOrdered P) (base : List P.F) (client_ids : List ℕ) where
  -- Where distances are ordered, for 0 < n < 2 ^ 32 vectors with fewer than 2 ^ 64 floats
  -- together, all of them, their client ids and the queries given, a dimension above 0, an M from
  -- 2 to 128 and k at most n: with one shard the simulation builds as its shard the same index as
  -- the monolithic one, without an exception, and of any number of queries it counts every one as
  -- an exact match of the scatter-gather and the monolithic search (std::sort taken to leave
  -- equal distances in their order).
  pub exact_matches-one :
      (dim m ef_construction n k ef : ℕ) (queries : List P.F) (num_queries : ℕ)
      → 0 < n
      → n < 2 ^ 32
      → n * dim < 2 ^ 64
      → n * dim ≤ length base
      → n ≤ length client_ids
      → num_queries * dim ≤ length queries
      → 0 < dim
      → 1 < m
      → m ≤ 128
      → k ≤ n
      → (idx : Index P) × (build_mono base dim client_ids n m ef_construction ≡ some (ok idx))
        × (build_shards base dim client_ids (placement client_ids 1 n) m ef_construction 1 0
            ≡ some (ok (idx ∷ [])))
        × (exact_matches base dim client_ids n 1 k ef queries idx (idx ∷ []) 0 num_queries 0
            ≡ some (loaded num_queries))
  unfolding build_shards
  exact_matches-one dim m ef_construction n k ef queries num_queries pos small room rows ids _
        pos_dim pos_m le_m le =
      let (idx, run, h, size) =
        build_shard-returns o base client_ids 1 (omega arith) dim m ef_construction n 0
          (omega arith) small (let e : max n 1 ≡ n = omega arith in rw e room) rows ids pos_dim
          pos_m le_m in
      let z : 0 + num_queries ≡ num_queries = omega arith in
      (
        idx,
        sym (build_shard-one base dim client_ids n m ef_construction pos) ∙ run,
        rw (build_shards, run, ◌>>=◌) refl,
        exact_matches-from o idx h base dim client_ids n k ef le queries num_queries 0 0
              idx.visited_pool idx.visited_pool h.graph.store.pool h.graph.store.pool
            ∙ ap (λ c. some (loaded c)) z,
      )
