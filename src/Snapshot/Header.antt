-- ===== src/Snapshot/Header.antt =====
-- The header of a snapshot: load reads the scalars that save wrote, and builds the index.
use Prim.Native.String.{String}
use mathlib.Core.List.{append_assoc}
use vector_search_engine.Base.{ℕ, ◌^◌, ◌<◌, List, ◌++◌, some, ◌≡◌, refl, arith}
use vector_search_engine.Platform.{Platform}
use vector_search_engine.Result.{ok}
use vector_search_engine.Bytes.Arrays.{Fits, Fits-uint32, Fits-uint64}
use vector_search_engine.Index.{Index, Space, cosine, l2, new_index}
use vector_search_engine.Index.Construction.{Accepts, new_index-returns}
use vector_search_engine.Snapshot.{
  Encoding, magic_number, version_number, space_code, space_of, header_bytes, load_body, load_index,
  load,
}
use vector_search_engine.Snapshot.Reading.{at, scalar-le_bytes, late_scalar-le_bytes}
use vector_search_engine.Snapshot.Conditions.{fresh}

space_of-space_code : (s : Space) → space_of (space_code s) ≡ s
space_of-space_code cosine = refl
space_of-space_code l2 = refl

space_code-lt : (s : Space) → space_code s < 2 ^ 32
space_code-lt cosine = omega arith
space_code-lt l2 = omega arith

-- Every scalar of the header lies in the range of its type, and the constructor accepts them.
pub record IsHeader {P : Platform} (idx : Index P) : Type 0 where
  pub dim : idx.dim < 2 ^ 64
  pub max_elements : idx.max_elements < 2 ^ 64
  pub m : idx.m < 2 ^ 64
  pub ef_construction : idx.ef_construction < 2 ^ 64
  pub count : idx.count < 2 ^ 64
  pub num_deleted : idx.num_deleted < 2 ^ 64
  pub max_level : idx.max_level < 2 ^ 32
  pub entry_point : idx.entry_point < 2 ^ 32
  pub accepted : Accepts P idx.space idx.dim idx.max_elements idx.m idx.ef_construction 100

module _ {P : Platform} (enc : Encoding P) (to_string : ℕ → String) (path : String) (idx : Index P)
    (h : IsHeader idx) where
  constructed :
      new_index P
        (space_of (space_code idx.space))
        idx.dim
        idx.max_elements
        idx.m
        idx.ef_construction
        100
      ≡ ok (fresh idx)
  constructed = rw (space_of-space_code idx.space) (
      (new_index-returns P idx.space idx.dim idx.max_elements idx.m idx.ef_construction 100).1
        h.accepted)

  pub load-header_bytes :
      (bytes : List ℕ)
      → load enc to_string path (some (header_bytes enc idx ++ bytes))
        ≡ load_body enc to_string path
            (fresh idx)
            idx.dim
            idx.count
            idx.num_deleted
            idx.max_level
            idx.entry_point
            (at bytes)
  unfolding load load_index header_bytes
  load-header_bytes bytes =
      let space_fits = Fits-uint32 (space_code idx.space) (space_code-lt idx.space) in
      let count_fits = Fits-uint64 idx.count h.count in
      let scalar_of = λ (w x : ℕ) (f : Fits w x) (ys : List ℕ). scalar-le_bytes w x ys f in
      let late_of = λ (w x : ℕ) (f : Fits w x) (ys : List ℕ). late_scalar-le_bytes w x ys f in
      simp
        (
          append_assoc,
          scalar_of 4 magic_number (Fits-uint32 magic_number (omega arith)),
          scalar_of 4 version_number (Fits-uint32 version_number (omega arith)),
          scalar_of 4 (space_code idx.space) space_fits,
          scalar_of 8 idx.dim (Fits-uint64 idx.dim h.dim),
          scalar_of 8 idx.max_elements (Fits-uint64 idx.max_elements h.max_elements),
          scalar_of 8 idx.m (Fits-uint64 idx.m h.m),
          scalar_of 8 idx.ef_construction (Fits-uint64 idx.ef_construction h.ef_construction),
          scalar_of 8 idx.count count_fits,
          late_of 8 idx.count count_fits,
          late_of 8 idx.num_deleted (Fits-uint64 idx.num_deleted h.num_deleted),
          late_of 4 idx.max_level (Fits-uint32 idx.max_level h.max_level),
          late_of 4 idx.entry_point (Fits-uint32 idx.entry_point h.entry_point),
          constructed,
        )
        refl
