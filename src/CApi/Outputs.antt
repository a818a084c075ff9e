-- ===== src/CApi/Outputs.antt =====
-- hnsw_search: what it writes to the caller's arrays, and what it returns.
use vector_search_engine.Base.{
  ℕ, suc, ◌%◌, ◌^◌, ◌≤◌, ◌<◌, List, [], ◌∷◌, ◌++◌, length, drop, map, length-map, some, ltb, true,
  ◌≡◌, refl, ap, ◌∙◌, arith,
}
use Prim.Native.String.{String}
use vector_search_engine.Base.Int.{pos}
use vector_search_engine.Platform.{Platform, IsOrdered}
use vector_search_engine.Index.{Index}
use vector_search_engine.Index.Invariant.{IsGraph}
use vector_search_engine.Search.{SearchResult, ◌>>=◌}
use vector_search_engine.Search.Answers.{Answers, search-Answers}
use vector_search_engine.Insert.{store}
use vector_search_engine.Insert.Vectors.{store-zero}
use vector_search_engine.CApi.{Arrays, hnsw_search, write_results, to_int32}

module _ {P : Platform} where
  abbrev client_id_of : SearchResult P → ℕ
  client_id_of r = r.label.client_id

  abbrev label_of : SearchResult P → ℕ
  label_of r = r.label.label

  abbrev distance_of : SearchResult P → P.F
  distance_of r = r.distance

  -- the results at the front of the three arrays, and the old entries after them
  abbrev pub filled : Arrays P → List (SearchResult P) → Arrays P
  filled a rs = record {
    client_ids = map client_id_of rs ++ drop (length rs) a.client_ids;
    labels = map label_of rs ++ drop (length rs) a.labels;
    distances = map distance_of rs ++ drop (length rs) a.distances;
  }

  -- each of the three arrays has room for n entries
  pub record Holds (a : Arrays P) (n : ℕ) : Type 0 where
    pub client_ids : n ≤ length a.client_ids
    pub labels : n ≤ length a.labels
    pub distances : n ≤ length a.distances

  write_results-store :
      (rs : List (SearchResult P)) (a : Arrays P) (i : ℕ)
      → write_results a i rs ≡ record {
        client_ids = store a.client_ids i (map client_id_of rs);
        labels = store a.labels i (map label_of rs);
        distances = store a.distances i (map distance_of rs);
      }
  unfolding write_results store
  write_results-store [] a i = refl
  write_results-store (r ∷ rs) a i = write_results-store rs _ (suc i)

  store-filled :
      {A : Type 0} (f : SearchResult P → A) (rs : List (SearchResult P)) (xs : List A)
      → length rs ≤ length xs
      → store xs 0 (map f rs) ≡ map f rs ++ drop (length rs) xs
  store-filled f rs xs le =
      let e = length-map f rs in
      store-zero xs (map f rs) (omega (arith, e)) ∙ ap (λ n. map f rs ++ drop n xs) e

  write_results-filled :
      (rs : List (SearchResult P)) (a : Arrays P)
      → Holds a (length rs)
      → write_results a 0 rs ≡ filled a rs
  write_results-filled rs a h =
      write_results-store rs a 0
      ∙ rw
          (
            store-filled client_id_of rs a.client_ids h.client_ids,
            store-filled label_of rs a.labels h.labels,
            store-filled distance_of rs a.distances h.distances,
          )
          refl

to_int32-small : (n : ℕ) → n < 2 ^ 31 → to_int32 n ≡ pos n
unfolding to_int32
to_int32-small n lt =
    let e : n % 2 ^ 32 ≡ n = omega arith in
    let below : ltb n (2 ^ 31) ≡ true = ground arith in rw (e, below) refl

module _ {P : Platform} (o : IsOrdered P) (idx : Index P) (g : IsGraph idx) where
  -- Where distances are ordered, on a well-formed index, for a k below 2 ^ 31 and arrays with
  -- room for k entries, hnsw_search returns the number of results of the search and leaves their
  -- client ids, labels and distances at the front of the three arrays, in order, and every entry
  -- after them as it was; the results are those that the search promises.
  pub hnsw_search-filled :
      (err : String) (query : List P.F) (k ef : ℕ) (out : Arrays P)
      → k < 2 ^ 31
      → Holds out k
      → (r : List (SearchResult P) × Index P) × (hnsw_search err
            (some idx)
            (some query)
            k
            ef
            (some out)
          ≡ some (
            record { returned = pos (length r.0); last_error = err; index = some r.1 },
            some (filled out r.0),
          ))
        × Answers idx query k r
  unfolding hnsw_search
  hnsw_search-filled err query k ef out small h =
      let (r, run, a) = search-Answers idx o g query k ef in
      let few = a.at_most in
      let fits : Holds out (length r.0) = record {
        client_ids = omega (arith, h.client_ids);
        labels = omega (arith, h.labels);
        distances = omega (arith, h.distances);
      } in
      (
        r,
        rw
            (
              run,
              ◌>>=◌,
              write_results-filled r.0 out fits,
              to_int32-small (length r.0) (omega arith),
            )
            refl,
        a,
      )
