-- ===== src/CApi/Codes.antt =====
-- The codes of hnsw_add.
use Prim.Native.String.{String}
use vector_search_engine.Base.{ℕ, ◌<◌, List, none, some, ◌≡◌, refl, inl, inr, ◌⊎◌}
use vector_search_engine.Base.Int.{ℤ}
use vector_search_engine.Platform.{Platform, IsOrdered}
use vector_search_engine.Index.{Index, Label, find_id}
use vector_search_engine.Index.Invariant.{IsGraph}
use vector_search_engine.Search.{◌>>=◌}
use vector_search_engine.Insert.Outcome.{Added, add_point-Outcome}
use vector_search_engine.CApi.{
  Call, add_code, add_result, hnsw_add, hnsw_ok, hnsw_err_duplicate, hnsw_err_full,
}

-- the texts of addPoint's exceptions are told apart by the words that hnsw_add looks for
add_code-duplicate : add_code "duplicate label; use updatePoint or a new label" ≡ hnsw_err_duplicate
unfolding add_code
add_code-duplicate = refl

add_code-full : add_code "index is full: raise maxElements" ≡ hnsw_err_full
unfolding add_code
add_code-full = refl

-- HNSW_ERR_DUPLICATE for a label that is there, HNSW_ERR_FULL at capacity, and otherwise HNSW_OK
-- with the element added; an error leaves the index as it was and sets the text.
abbrev pub AddCodes : {P : Platform} → Index P → List P.F → Label → String → Call P ℤ → Type 0
AddCodes {P} idx vec label err c =
    ((j : ℕ) × (find_id label idx.label_to_id ≡ some j)
      × (c.returned ≡ hnsw_err_duplicate)
      × (c.last_error ≡ "duplicate label; use updatePoint or a new label")
      × (c.index ≡ some idx))
    ⊎ (find_id label idx.label_to_id ≡ none)
      × (idx.count ≡ idx.max_elements)
      × (c.returned ≡ hnsw_err_full)
      × (c.last_error ≡ "index is full: raise maxElements")
      × (c.index ≡ some idx)
    ⊎ ((r : Index P) × (find_id label idx.label_to_id ≡ none)
        × (idx.count < idx.max_elements)
        × (c.returned ≡ hnsw_ok)
        × (c.last_error ≡ err)
        × (c.index ≡ some r)
        × IsGraph r
        × Added idx vec label r)

module _ {P : Platform} (o : IsOrdered P) (idx : Index P) (g : IsGraph idx) (err : String) where
  -- Where distances are ordered, on a well-formed index and a vector that is not null hnsw_add
  -- returns, and its code tells which of three cases it was: a taken label or a full index, where
  -- it sets the text and leaves the index as it was, or the element added.
  pub hnsw_add-AddCodes :
      (vec : List P.F) (client_id label : ℕ)
      → (c : Call P ℤ) × (hnsw_add err (some idx) (some vec) client_id label ≡ some c)
        × AddCodes idx vec (record { client_id = client_id; label = label }) err c
  unfolding hnsw_add add_result
  hnsw_add-AddCodes vec client_id label =
      let l : Label = record { client_id = client_id; label = label } in
      let (r, run, h, out) = add_point-Outcome idx vec l o g in
      (
        add_result err r,
        rw (run, ◌>>=◌),
        elim out [
          | inl (j, taken, e) ↦ rw e (inl (j, taken, add_code-duplicate, refl, refl))
          | inr (inl (free, full, e)) ↦ rw e (inr (inl (free, full, add_code-full, refl, refl)))
          | inr (inr (free, space, e, a)) ↦
              let f : r ≡ (_, r.1) = λ i. (e i, r.1) in
              rw f (inr (inr (r.1, free, space, refl, refl, refl, h, a)))
        ],
      )
