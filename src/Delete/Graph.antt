-- ===== src/Delete/Graph.antt =====
-- The graph of hnsw::Index under a change of the deletion flags.
use vector_search_engine.Base.{ℕ, List, length, ◌≡◌, ◌∙◌}
use vector_search_engine.Platform.{Platform}
use vector_search_engine.Index.{Index}
use vector_search_engine.Index.Invariant.{IsGraph}

pub reflag-IsGraph :
    {P : Platform} (idx : Index P) (ds : List ℕ) (k : ℕ)
    → length ds ≡ length idx.deleted
    → IsGraph idx
    → IsGraph (record idx { deleted = ds; num_deleted = k })
reflag-IsGraph idx ds k len g = record {
  store = record {
    shaped = g.store.shaped;
    degree = g.store.degree;
    degree_upper = g.store.degree_upper;
    sized = record {
      vectors = g.store.sized.vectors;
      layer0 = g.store.sized.layer0;
      upper = g.store.sized.upper;
      levels = g.store.sized.levels;
      labels = g.store.sized.labels;
      deleted = len ∙ g.store.sized.deleted;
    };
    capacity = g.store.capacity;
    small = g.store.small;
    blocks = λ id l nd.
        let b = g.store.blocks id l nd in
        record { room = b.room; fits = b.fits; inside = b.inside };
    unused = g.store.unused;
    pool = g.store.pool;
  };
  entry = g.entry;
  top = g.top;
  none_yet = g.none_yet;
}
