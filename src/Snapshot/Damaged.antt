-- ===== src/Snapshot/Damaged.antt =====
-- Index::load on files that save did not write, or not to the end.
use Prim.Native.String.{String}
use vector_search_engine.Base.{
  ℕ, ◌+◌, ◌*◌, ◌%◌, ◌^◌, ◌≤◌, ◌<◌, List, ◌++◌, length, length-replicate, some, ◌≡◌, ◌∙◌, arith,
}
use vector_search_engine.Platform.{Platform}
use vector_search_engine.Index.{Index, Label}
use vector_search_engine.Snapshot.{Encoding, undefined, load}
use vector_search_engine.Snapshot.Header.{IsHeader, load-header_bytes}
use vector_search_engine.Snapshot.Conditions.{fresh}
use vector_search_engine.Index.{initial_index}
use vector_search_engine.Snapshot.{header_bytes}
use vector_search_engine.Snapshot.Overruns.{HasRoom, load_body-truncated}

module _ {P : Platform} (enc : Encoding P) (to_string : ℕ → String) (path : String) (idx : Index P)
    (h : IsHeader idx) (small : idx.max_elements * idx.dim < 2 ^ 62) where
  length-fresh_vectors : length (fresh idx).vectors ≡ idx.max_elements * idx.dim
  unfolding initial_index
  length-fresh_vectors =
      length-replicate {A = P.F} ((idx.max_elements * idx.dim) % 2 ^ 64) P.fzero ∙ omega arith

  -- the size of what save writes after the header, up to the rows of upper links
  abbrev pub body_size : ℕ
  body_size =
      let n = idx.count in
      n * idx.dim * 4 + (n * 4 + (n * 16 + (n + n * (fresh idx).links.stride_l0 * 4)))

  module _ (le : idx.count ≤ idx.max_elements) (cap : idx.max_elements < 2 ^ 32) where
    strides-le : (n : ℕ) → n < 2 ^ 32 → n * (fresh idx).links.stride_l0 * 4 < 2 ^ 43
    unfolding initial_index
    strides-le n lt =
        let s : (fresh idx).links.stride_l0 ≤ 257 = omega (arith, h.accepted) in
        let p : n * (fresh idx).links.stride_l0 ≤ n * 257 = grind arith in omega arith

    rows-le : idx.count * idx.dim ≤ idx.max_elements * idx.dim
    rows-le = grind arith

    links-le :
        idx.count * (fresh idx).links.stride_l0 ≤ idx.max_elements * (fresh idx).links.stride_l0
    links-le = grind arith

    fresh-HasRoom :
        HasRoom enc to_string path
          (fresh idx)
          idx.dim
          idx.count
          idx.num_deleted
          idx.max_level
          idx.entry_point
    unfolding initial_index
    fresh-HasRoom =
        let none : Label = record { client_id = 0; label = 0 } in
        record {
          vectors = omega (arith, length-fresh_vectors, rows-le);
          levels = omega (arith, length-replicate {A = ℕ} idx.max_elements 0);
          labels = omega (arith, length-replicate idx.max_elements none);
          deleted = omega (arith, length-replicate {A = ℕ} idx.max_elements 0);
          links_l0 = omega (
            arith,
            length-replicate {A = ℕ} ((idx.max_elements * (fresh idx).links.stride_l0) % 2 ^ 64) 0,
            links-le,
            strides-le idx.max_elements cap,
          );
        }

    body_size-eq :
        (idx.count * idx.dim * 4) % 2 ^ 64
          + ((idx.count * 4) % 2 ^ 64
              + ((idx.count * 16) % 2 ^ 64
                  + (idx.count + (idx.count * (fresh idx).links.stride_l0 * 4) % 2 ^ 64)))
        ≡ body_size
    body_size-eq = omega (arith, rows-le, strides-le idx.count (omega arith))

    -- A file with the header of a snapshot whose parameters the constructor accepts, of at least
    -- one element, at most the capacity, and a capacity below 2 ^ 32 with fewer than 2 ^ 62
    -- floats, whose rest has fewer bytes than save writes before the rows of upper links, is not
    -- rejected as truncated: load uses a length that no read has set.
    pub load-truncated :
        (bytes : List ℕ)
        → 0 < idx.count
        → length bytes < body_size
        → load enc to_string path (some (header_bytes enc idx ++ bytes)) ≡ undefined
    load-truncated bytes pos few =
        load-header_bytes enc to_string path idx h bytes
        ∙ load_body-truncated enc to_string path (fresh idx) idx.dim idx.count idx.num_deleted
            idx.max_level idx.entry_point bytes fresh-HasRoom pos (omega (arith, body_size-eq))
