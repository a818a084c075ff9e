-- ===== src/Snapshot/Answers.antt =====
-- Searches of an index that was saved and loaded.
use Prim.Native.String.{String}
use vector_search_engine.Base.{ℕ, true, List, [], some, ◌≡◌}
use vector_search_engine.Platform.{Platform, IsOrdered}
use vector_search_engine.Result.{ok}
use vector_search_engine.Visited.{new_pool}
use vector_search_engine.Visited.Refinement.{new_pool-IsPool}
use vector_search_engine.Index.{Index}
use vector_search_engine.Index.Invariant.{IsGraph}
use vector_search_engine.Search.{SearchResult, search}
use vector_search_engine.Search.Pools.{search-pool}
use vector_search_engine.Snapshot.{Encoding, loaded, save, load, index_labels}
use vector_search_engine.Snapshot.Conditions.{IsTyped, IsBuilt, IsBlank, reloaded}
use vector_search_engine.Snapshot.RoundTrip.{load-save}

-- two searches that return, and with the same results
abbrev pub SameAnswers : {P : Platform} → Index P → Index P → Type 0
SameAnswers {P} a b =
    (query : List P.F) (k ef : ℕ)
    → (r r' : List (SearchResult P) × Index P) × (search a query k ef ≡ some r)
      × (search b query k ef ≡ some r')
      × (r'.0 ≡ r.0)

module _ {P : Platform} (o : IsOrdered P) (enc : Encoding P) (idx : Index P) (g : IsGraph idx)
    (t : IsTyped enc idx) (b : IsBuilt idx) (blank : IsBlank idx) where
  -- Where distances are ordered, a well-formed index whose numbers lie in the ranges of their C++
  -- types, whose parameters are those of the constructor and whose free slots are as the
  -- constructor left them, saved to a file that opens and is written to its end, is loaded from
  -- that file without an exception, and every search of the loaded index returns with the results
  -- of the same search of the saved one.
  pub search-load :
      (to_string : ℕ → String) (path path' : String)
      → (file : List ℕ) × (idx' : Index P) × (save enc idx true true path ≡ ok file)
        × (load enc to_string path' (some file) ≡ loaded idx')
        × SameAnswers idx idx'
  search-load to_string path path' =
      let (file, saved, back) = load-save enc idx g.store t b blank to_string path path' in
      (
        file,
        reloaded idx,
        saved,
        back,
        search-pool idx o g (new_pool 1 idx.max_elements) (new_pool-IsPool 1 idx.max_elements)
            (index_labels idx.count 0 idx.labels []) (P.seeded 100),
      )
