-- ===== src/Programs/Cluster.antt =====
-- The main function of src/shard_sim.cpp: the one index and the indexes of the shards, and the three
-- ways to ask a query.
use vector_search_engine.Base.{
  ℕ, zero, suc, ◌+◌, ◌*◌, ◌/◌, max, Bool, true, false, ◌&&◌, List, [], ◌∷◌, Option, none, some,
  if◌then◌else◌, ◌==◌, get_or, map,
}
use vector_search_engine.Platform.{Platform}
use vector_search_engine.Result.{Result, ok, throw}
use vector_search_engine.Index.{Index, cosine, new_index}
use vector_search_engine.Search.{SearchResult, search, ◌>>=◌}
use vector_search_engine.Snapshot.{Loaded, loaded, rejects, undefined}
use vector_search_engine.Recall.{row, brute_force, overlap_fraction}
use vector_search_engine.Shards.{Scored, scored, gather, Placement}
use vector_search_engine.Shards.Build.{build_shard}
use vector_search_engine.Programs.{insert_rows}

-- What one query adds to the sums of the program.
pub record Round (P : Platform) : Type 0 where
  pub recall_mono : P.D
  pub recall_scatter : P.D
  pub recall_naive : P.D
  pub recall_mono_fair : P.D
  pub overlap_mono_scatter : P.D
  pub identical : Bool

-- `identical`: the same size, and the same keys place by place
unfoldable pub identical_keys : {P : Platform} → List (Scored P) → List (Scored P) → Bool
identical_keys [] [] = true
identical_keys (x ∷ xs) (y ∷ ys) =
    (x.client_id == y.client_id && x.label == y.label) && identical_keys xs ys
identical_keys _ _ = false

-- the loop over the shards: their answers, and the shards afterwards
unfoldable pub ask_shards :
    {P : Platform}
    → List (Index P)
    → List P.F
    → ℕ
    → ℕ
    → Option (List (List (SearchResult P)) × List (Index P))
ask_shards [] query k ef = some ([], [])
ask_shards (s ∷ ss) query k ef = search s query k ef >>= λ r.
    ask_shards ss query k ef >>= λ rest. some (r.0 ∷ rest.0, r.1 ∷ rest.1)

module _ {P : Platform} (base : List P.F) (dim : ℕ) (client_ids : List ℕ) where
  unfoldable pub build_mono : ℕ → ℕ → ℕ → Option (Result (Index P))
  build_mono n m ef_construction = elim (new_index P cosine dim n m ef_construction 100) [
    | ok idx ↦ insert_rows base dim (λ i. get_or client_ids i 0) idx n 0
    | throw msg ↦ some (throw msg)
  ]

  -- the loop over the shards from s on, n of them
  unfoldable pub build_shards : Placement → ℕ → ℕ → ℕ → ℕ → Option (Result (List (Index P)))
  build_shards p m ef_construction zero s = some (ok [])
  build_shards p m ef_construction (suc n) s =
      let rest = build_shards p m ef_construction n (suc s) in
      build_shard base dim client_ids p m ef_construction s >>= λ r. elim r [
        | throw msg ↦ some (throw msg)
        | ok idx ↦ rest >>= λ others. elim others [
          | throw msg ↦ some (throw msg)
          | ok idxs ↦ some (ok (idx ∷ idxs))
        ]
      ]

  module _ (n num_shards k ef : ℕ) where
    -- the body of the loop over the queries; the indexes afterwards
    unfoldable pub query_round :
        Index P → List (Index P) → List P.F → Option (Loaded (Round P × Index P × List (Index P)))
    query_round mono shards query = elim (brute_force P base dim client_ids n query k) [
      | none ↦ some undefined
      | some truth ↦ search mono query k ef >>= λ m. ask_shards shards query k ef >>= λ full.
          ask_shards full.1 query (max 1 (k / num_shards)) ef >>= λ naive.
          search m.1 query k (ef * num_shards) >>= λ fair.
          let mono_scored = map (scored P) m.0 in
          let pool = gather P k full.0 in
          let naive_pool = gather P k naive.0 in
          some (
            loaded (
              record {
                recall_mono = overlap_fraction P mono_scored truth;
                recall_scatter = overlap_fraction P pool truth;
                recall_naive = overlap_fraction P naive_pool truth;
                recall_mono_fair = overlap_fraction P (map (scored P) fair.0) truth;
                overlap_mono_scatter = overlap_fraction P pool mono_scored;
                identical = identical_keys pool mono_scored;
              },
              fair.1,
              naive.1,
            ))
    ]

    -- `exactMatches` of the queries from q on, n' of them
    unfoldable pub exact_matches :
        List P.F → Index P → List (Index P) → ℕ → ℕ → ℕ → Option (Loaded ℕ)
    exact_matches queries mono shards matches zero q = some (loaded matches)
    exact_matches queries mono shards matches (suc n') q =
        query_round mono shards (row P queries dim q) >>= λ r. elim r [
          | undefined ↦ some undefined
          | rejects msg ↦ some (rejects msg)
          | loaded (round, mono', shards') ↦
              exact_matches queries mono' shards' (if round.identical then matches + 1 else matches)
                n' (suc q)
        ]
