-- ===== src/Snapshot/RoundTrip.antt =====
-- Index::load after Index::save.
use Prim.Native.String.{String}
use mathlib.Core.List.{append_assoc}
use vector_search_engine.Base.{
  ℕ, true, List, [], ◌∷◌, ◌++◌, map, All, some, ◌≡◌, refl, ap, sym, ◌∙◌, arith,
}
use vector_search_engine.Platform.{Platform}
use vector_search_engine.Result.{ok}
use vector_search_engine.Index.{Index, initial_index}
use vector_search_engine.Index.Invariant.{IsStore}
use vector_search_engine.Snapshot.{
  Encoding, loaded, body_bytes, save_rows, snapshot, index_labels, load_body, load, save,
}
use vector_search_engine.Snapshot.Reading.{at}
use vector_search_engine.Snapshot.Labels.{labels_of-label_words}
use vector_search_engine.Snapshot.Conditions.{IsFloat, IsTyped, IsBuilt, IsBlank, reloaded, fresh}
use vector_search_engine.Snapshot.Header.{IsHeader, load-header_bytes}
use vector_search_engine.Snapshot.Restored.{
  stride-eq, read_vectors, read_levels, read_labels, read_deleted, read_links_l0, read_upper,
}

map-of_bits :
    {P : Platform} (enc : Encoding P) (xs : List P.F)
    → All (IsFloat enc) xs
    → map enc.of_bits (map enc.bits xs) ≡ xs
map-of_bits enc [] h = refl
map-of_bits enc (x ∷ xs) h = rw (h.0.1, map-of_bits enc xs h.1)

module _ {P : Platform} (enc : Encoding P) (idx : Index P) (g : IsStore idx) (t : IsTyped enc idx)
    (b : IsBuilt idx) (blank : IsBlank idx) where
  -- the members that the constructor of load sets are those of the index
  fresh-reloaded :
      record (fresh idx) {
        vectors = idx.vectors;
        levels = idx.levels;
        labels = idx.labels;
        deleted = idx.deleted;
        links = record (fresh idx).links {
          links_l0 = idx.links.links_l0;
          links_upper = idx.links.links_upper;
        };
        count = idx.count;
        num_deleted = idx.num_deleted;
        max_level = idx.max_level;
        entry_point = idx.entry_point;
        label_to_id = index_labels idx.count 0 idx.labels [];
      }
      ≡ reloaded idx
  unfolding initial_index
  fresh-reloaded = λ i. record (reloaded idx) {
    ef_construction = b.ef_construction i;
    level_mult = sym b.level_mult i;
    links = record idx.links {
      max_m = sym b.max_m i;
      max_m0 = sym b.max_m0 i;
      stride_l0 = stride-eq enc idx g t b blank i;
      stride_upper = sym b.stride_upper i;
    };
  }

  -- the arrays of the file, in the index of the constructor
  body-restored :
      (to_string : ℕ → String) (path : String)
      → load_body enc to_string path
          (fresh idx)
          idx.dim
          idx.count
          idx.num_deleted
          idx.max_level
          idx.entry_point
          (at (body_bytes enc idx ++ save_rows idx.count idx.links.links_upper))
        ≡ loaded (reloaded idx)
  unfolding load_body body_bytes
  body-restored to_string path =
      let floats = map-of_bits enc idx.vectors t.vectors in
      let labels = labels_of-label_words idx.labels in
      let none : (fresh idx).label_to_id ≡ [] = unfold initial_index in refl in
      simp
        (
          append_assoc,
          read_vectors enc idx g t b blank,
          read_levels enc idx g t b blank,
          read_labels enc idx g t b blank,
          read_deleted enc idx g t b blank,
          read_links_l0 enc idx g t b blank,
          read_upper enc idx g t b blank,
          floats,
          labels,
          none,
        )
        (ap loaded fresh-reloaded)

  header : IsHeader idx
  header = record {
    dim = t.dim;
    max_elements = omega (arith, g.small);
    m = t.m;
    ef_construction = t.ef_construction;
    count = omega (arith, g.small, g.capacity);
    num_deleted = t.num_deleted;
    max_level = t.max_level;
    entry_point = t.entry_point;
    accepted = b.accepted;
  }

  -- Of a well-formed storage whose numbers lie in the ranges of their C++ types, whose parameters
  -- are those of the constructor and whose free slots are as the constructor left them, save to a
  -- file that opens and is written to its end leaves a file that load turns into the same index,
  -- but for the label map, which is made anew from the labels, the generator, which has the
  -- default seed, and the pool, which is new.
  pub load-save :
      (to_string : ℕ → String) (path path' : String)
      → (file : List ℕ) × (save enc idx true true path ≡ ok file)
        × (load enc to_string path' (some file) ≡ loaded (reloaded idx))
  unfolding save snapshot
  load-save to_string path path' = (
    snapshot enc idx,
    refl,
    load-header_bytes enc to_string path' idx header
          (body_bytes enc idx ++ save_rows idx.count idx.links.links_upper)
        ∙ body-restored to_string path',
  )
