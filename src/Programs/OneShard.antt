-- ===== src/Programs/OneShard.antt =====
-- The building of the indexes of src/shard_sim.cpp with one shard.
use vector_search_engine.Base.{
  ℕ, zero, suc, ◌+◌, ◌<◌, max, List, [], ◌∷◌, ◌++◌, some, get_or, ◌≡◌, refl, sym, ap, ◌∙◌, arith,
}
use mathlib.Core.List.{append_assoc, append-nil}
use vector_search_engine.Platform.{Platform}
use vector_search_engine.Result.{ok, throw}
use vector_search_engine.Index.{Index, cosine, new_index}
use vector_search_engine.Search.{◌>>=◌}
use vector_search_engine.Insert.{add_point}
use vector_search_engine.Recall.{row}
use vector_search_engine.Shards.{shard_for, place, distribute, no_members, shard_capacity}
use vector_search_engine.Shards.Build.{key, add_members, build_shard, placement}
use vector_search_engine.Programs.{insert_rows}
use vector_search_engine.Programs.Cluster.{build_mono}

-- i, i + 1 and so on, n numbers
from : ℕ → ℕ → List ℕ
from i zero = []
from i (suc n) = i ∷ from (suc i) n

module _ (client_ids : List ℕ) where
  one_place :
      (c : ℕ) (xs : List ℕ) (i : ℕ)
      → place client_ids 1 (record { counts = c ∷ []; members = xs ∷ [] }) i
        ≡ record { counts = (c + 1) ∷ []; members = (xs ++ i ∷ []) ∷ [] }
  unfolding place
  one_place c xs i =
      let z : shard_for (get_or client_ids i 0) i 1 ≡ 0 = unfold shard_for in omega arith in
      rw z refl

  one_distribute :
      (n i c : ℕ) (xs : List ℕ)
      → distribute client_ids 1 (record { counts = c ∷ []; members = xs ∷ [] }) n i
        ≡ record { counts = (c + n) ∷ []; members = (xs ++ from i n) ∷ [] }
  unfolding distribute from
  one_distribute zero i c xs = let z : c + 0 ≡ c = omega arith in rw (z, append-nil)
  one_distribute (suc n) i c xs =
      let z : c + 1 + n ≡ c + suc n = omega arith in
      ap (λ p. distribute client_ids 1 p n (suc i)) (one_place c xs i)
      ∙ one_distribute n (suc i) (c + 1) (xs ++ i ∷ [])
      ∙ (λ j. record {
        counts = z j ∷ [];
        members = append_assoc xs (i ∷ []) (from (suc i) n) j ∷ [];
      })

  one_placement :
      (n : ℕ) → placement client_ids 1 n ≡ record { counts = n ∷ []; members = from 0 n ∷ [] }
  unfolding no_members
  one_placement n =
      let z : 0 + n ≡ n = omega arith in
      one_distribute n 0 0 [] ∙ ap (λ c. record { counts = c ∷ []; members = from 0 n ∷ [] }) z

module _ {P : Platform} (base : List P.F) (dim : ℕ) (client_ids : List ℕ) where
  insert_rows-add_members :
      (n i : ℕ) (idx : Index P)
      → insert_rows base dim (λ i. get_or client_ids i 0) idx n i
        ≡ add_members base dim client_ids idx (from i n)
  unfolding insert_rows add_members row from
  insert_rows-add_members zero i idx = refl
  insert_rows-add_members (suc n) i idx = λ j.
      add_point idx (row P base dim i) (key client_ids i) >>= λ r. elim r.0 [
        | ok id ↦ insert_rows-add_members n (suc i) r.1 j
        | throw msg ↦ some (throw msg)
      ]

  pub build_shard-one :
      (n m ef_construction : ℕ)
      → 0 < n
      → build_shard {P = P} base dim client_ids (placement client_ids 1 n) m ef_construction 0
        ≡ build_mono base dim client_ids n m ef_construction
  unfolding build_shard build_mono shard_capacity
  build_shard-one n m ef_construction pos =
      let z : max n 1 ≡ n = omega arith in
      ap (λ p. build_shard {P = P} base dim client_ids p m ef_construction 0)
        (one_placement client_ids n)
      ∙ (λ j. elim (new_index P cosine dim (z j) m ef_construction 100) [
        | ok idx ↦ sym (insert_rows-add_members n 0 idx) j
        | throw msg ↦ some (throw msg)
      ])
