-- ===== src/CApi/Flags.antt =====
-- hnsw_mark_deleted and hnsw_unmark_deleted together.
use Prim.Native.String.{String}
use vector_search_engine.Base.{ℕ, some, ◌≡◌, refl, inl, inr}
use vector_search_engine.Base.Int.{pos, negsuc}
use vector_search_engine.Platform.{Platform}
use vector_search_engine.Index.{Index, Label}
use vector_search_engine.Index.Labels.{IsLabelled}
use vector_search_engine.Delete.Flags.{IsCounted}
use vector_search_engine.Delete.Undo.{mark-cases, unmark-mark}
use vector_search_engine.CApi.{hnsw_ok, flag_result, hnsw_mark_deleted, hnsw_unmark_deleted}

module _ {P : Platform} (idx : Index P) (client_id key : ℕ) (h : IsLabelled idx)
    (c : IsCounted idx) where
  abbrev label : Label
  label = record { client_id = client_id; label = key }

  -- On an index whose label map and counter are in order, after an hnsw_mark_deleted that
  -- returned HNSW_OK, hnsw_unmark_deleted of the same key returns HNSW_OK, leaves the text of the
  -- last error, and restores the index.
  pub hnsw_unmark-mark :
      (err err' : String)
      → (hnsw_mark_deleted err (some idx) client_id key).returned ≡ hnsw_ok
      → hnsw_unmark_deleted err'
          (hnsw_mark_deleted err (some idx) client_id key).index
          client_id
          key
        ≡ record { returned = hnsw_ok; last_error = err'; index = some idx }
  unfolding hnsw_mark_deleted hnsw_unmark_deleted flag_result
  hnsw_unmark-mark err err' marked = elim (mark-cases idx label h c) [
    | inl e ↦ (let q : negsuc 3 ≡ pos 0 = rw e at marked in cc)
    | inr (id, n, z, e) ↦ rw (e, unmark-mark idx _ label h c e) refl
  ]
