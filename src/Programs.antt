-- ===== src/Programs.antt =====
-- What the programs around the index do with it: the loops and checks in the main functions of
-- src/benchmark.cpp, src/sift_bench.cpp and src/shard_sim.cpp. Random data, clocks and output are
-- left out; the vectors and queries are arguments. `none` is fuel that ran out, and `undefined` a
-- read that the source makes outside a vector.
pub mod Twins
pub mod Cluster
pub mod OneShard
pub mod Agreement
pub mod Deletion
pub mod Measures
pub mod Reload
use Prim.Native.String.{String}
use vector_search_engine.Base.{
  ℕ, zero, suc, ◌+◌, ◌*◌, ◌/◌, ◌%◌, ◌^◌, max, Bool, true, false, not, ◌&&◌, ◌||◌, List, [], ◌∷◌,
  Option, none, some, if◌then◌else◌, ltb, ◌==◌, length, get_or, map,
}
use vector_search_engine.Platform.{Platform}
use vector_search_engine.Result.{Result, ok, throw}
use vector_search_engine.Index.{Index, Label, label_eq}
use vector_search_engine.Search.{SearchResult, search, ◌>>=◌}
use vector_search_engine.Delete.{mark_deleted, unmark_deleted}
use vector_search_engine.Snapshot.{Encoding, Loaded, loaded, rejects, undefined, save, load}
use vector_search_engine.Recall.{row, recall_hits, overlap_hits}
use vector_search_engine.Shards.{Scored, scored, gather}
use vector_search_engine.Insert.{add_point}
use vector_search_engine.Vecs.{VecFile}

-- the loop over the first K entries of a row of the ground truth, by their four bytes
unfoldable pub sift_in_row : List ℕ → ℕ → ℕ → ℕ → Bool
sift_in_row gt start zero label = false
sift_in_row gt start (suc n) label =
    (label % 2 ^ 32) == get_or gt start 0 || sift_in_row gt (suc start) n label

module _ {P : Platform} where
  -- the labels of the rows from i on, n of them, inserted in their order; an exception ends the loop
  unfoldable pub insert_rows : List P.F → ℕ → (ℕ → ℕ) → Index P → ℕ → ℕ → Option (Result (Index P))
  insert_rows base dim client idx zero i = some (ok idx)
  insert_rows base dim client idx (suc n) i =
      add_point idx (row P base dim i) (record { client_id = client i; label = i }) >>= λ r.
      elim r.0 [ ok id ↦ insert_rows base dim client r.1 n (suc i) | throw msg ↦ some (throw msg) ]

  module _ (queries : List P.F) (dim k ef : ℕ) where
    -- the loop over the queries from q on, n of them, that counts the hits
    unfoldable pub recall_loop : List (List Label) → Index P → ℕ → ℕ → ℕ → Option (ℕ × Index P)
    recall_loop truth idx hits zero q = some (hits, idx)
    recall_loop truth idx hits (suc n) q = search idx (row P queries dim q) k ef >>= λ r.
        recall_loop truth r.1 (hits + recall_hits P r.0 (get_or truth q [])) n (suc q)

  unfoldable pub sift_hits : List ℕ → ℕ → ℕ → List (SearchResult P) → ℕ
  sift_hits gt start k [] = 0
  sift_hits gt start k (r ∷ rs) =
      (if sift_in_row gt start k r.label.label then 1 else 0) + sift_hits gt start k rs

  module _ (queries : List P.F) (dim k ef : ℕ) where
    -- the same loop of sift_bench.cpp, on the rows of the ground truth, each of d entries
    unfoldable pub sift_loop : List ℕ → ℕ → Index P → ℕ → ℕ → ℕ → Option (ℕ × Index P)
    sift_loop gt d idx hits zero q = some (hits, idx)
    sift_loop gt d idx hits (suc n) q = search idx (row P queries dim q) k ef >>= λ r.
        sift_loop gt d r.1 (hits + sift_hits gt (q * d) k r.0) n (suc q)

  -- `if (r.label == victim) victimGone = false`
  unfoldable pub returned : Label → List (SearchResult P) → Bool
  returned victim [] = false
  returned victim (r ∷ rs) = label_eq r.label victim || returned victim rs

  -- The soft delete of the nearest label and its check: `victimGone`, and the index afterwards.
  unfoldable pub soft_delete : Index P → List P.F → ℕ → ℕ → Option (Loaded (Bool × Index P))
  soft_delete idx query k ef = search idx query k ef >>= λ before. elim before.0 [
    | [] ↦ some undefined
    | front ∷ rest ↦ search (mark_deleted before.1 front.label).1 query k ef >>= λ after.
        some (loaded (not (returned front.label after.0), (unmark_deleted after.1 front.label).1))
  ]

  -- the same size and the same labels
  unfoldable pub same_labels : List (SearchResult P) → List (SearchResult P) → Bool
  same_labels [] [] = true
  same_labels (x ∷ xs) (y ∷ ys) = label_eq x.label y.label && same_labels xs ys
  same_labels _ _ = false

  module _ (queries : List P.F) (dim k ef : ℕ) where
    -- the loop over the queries from q on, n of them, that counts the mismatches
    unfoldable pub compare_loop : Index P → Index P → ℕ → ℕ → ℕ → Option ℕ
    compare_loop index reloaded mismatches zero q = some mismatches
    compare_loop index reloaded mismatches (suc n) q =
        search index (row P queries dim q) k ef >>= λ a.
        search reloaded (row P queries dim q) k ef >>= λ b.
        compare_loop a.1 b.1 (if same_labels a.0 b.0 then mismatches else mismatches + 1) n (suc q)

    -- The index saved and loaded, and the mismatches of n queries. `opens` and `written` tell whether
    -- the file opens and is written to its end.
    unfoldable pub save_and_compare :
        Encoding P → (ℕ → String) → Index P → Bool → Bool → String → ℕ → Option (Loaded ℕ)
    save_and_compare enc to_string index opens written path n =
        elim (save enc index opens written path) [
          | throw msg ↦ some (rejects msg)
          | ok file ↦ elim (load enc to_string path (some file)) [
            | loaded reloaded ↦
                compare_loop index reloaded 0 n 0 >>= λ mismatches. some (loaded mismatches)
            | rejects msg ↦ some (rejects msg)
            | undefined ↦ some undefined
          ]
        ]

-- the three tests of sift_bench.cpp on the files that were read
unfoldable pub sift_checks : VecFile → VecFile → VecFile → ℕ → Result (Unit {0})
sift_checks base queries gt k =
    if not (base.d == queries.d)
    then throw "base and query dimension mismatch"
    else if ltb gt.n queries.n
    then throw "ground truth has fewer rows than queries"
    else if ltb gt.d k
    then throw "ground truth has fewer than K neighbours per row"
    else ok tt
