-- ===== src/Lifetime.antt =====
-- The life of an index: the operations of hnsw::Index that change it, called one after another in
-- any order and with any arguments.
pub mod Preservation
use vector_search_engine.Base.{ℕ, List, Bool, Option, some, ◌≡◌}
use vector_search_engine.Platform.{Platform}
use vector_search_engine.Result.{Result}
use vector_search_engine.Index.{Index, Label}
use vector_search_engine.Index.Invariant.{IsGraph}
use vector_search_engine.Index.Labels.{IsLabelled}
use vector_search_engine.Search.{SearchResult, search}
use vector_search_engine.Insert.{add_point}
use vector_search_engine.Delete.{mark_deleted, unmark_deleted}
use vector_search_engine.Delete.Flags.{IsCounted}

-- one call, whether it succeeds or not
pub data Step {P : Platform} (idx : Index P) : Index P → Type 0 where
  adds :
      (vec : List P.F) (label : Label) (r : Result ℕ × Index P)
      → add_point idx vec label ≡ some r
      → Step idx r.1
  marks : (label : Label) → Step idx (mark_deleted idx label).1
  unmarks : (label : Label) → Step idx (unmark_deleted idx label).1
  searches :
      (query : List P.F) (k ef : ℕ) (r : List (SearchResult P) × Index P)
      → search idx query k ef ≡ some r
      → Step idx r.1

pub data Reaches {P : Platform} (start : Index P) : Index P → Type 0 where
  here : Reaches start start
  later : {a b : Index P} → Reaches start a → Step a b → Reaches start b

-- the graph, the label map and the count of deleted elements are in order
pub record IsIndex {P : Platform} (idx : Index P) : Type 0 where
  pub graph : IsGraph idx
  pub labelled : IsLabelled idx
  pub counted : IsCounted idx
