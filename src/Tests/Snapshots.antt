-- ===== src/Tests/Snapshots.antt =====
-- Snapshots of small indexes, whole, cut off and with a count above the capacity.
use Prim.Native.String.{String}
use vector_search_engine.Base.{ℕ, ◌^◌, ◌<◌, ◌≡◌, refl, List, [], ◌∷◌, ◌++◌, some, true, arith}
use vector_search_engine.Result.{ok}
use vector_search_engine.Index.{Index, Label, initial_index, l2, find_id, get_data}
use vector_search_engine.Lifetime.{IsIndex, Reaches, here, later, adds}
use vector_search_engine.Bytes.Arrays.{Fits, Fits-byte, Fits-uint32, Fits-uint64}
use vector_search_engine.Snapshot.{Encoding, loaded, undefined, header_bytes, save, load}
use vector_search_engine.Snapshot.Conditions.{IsFloat, IsTyped, IsBuilt, IsBlank}
use vector_search_engine.Snapshot.Labels.{IsLabel}
use vector_search_engine.Snapshot.Header.{IsHeader}
use vector_search_engine.Snapshot.Damaged.{load-truncated}
use vector_search_engine.Snapshot.Answers.{SameAnswers}
use vector_search_engine.Snapshot.Reached.{search-load-Reaches}
use vector_search_engine.Snapshot.Restart.{load-IsIndex}
use vector_search_engine.Tests.Samples.{
  counting, counting-IsOrdered, client_label, empty, empty_Accepts, one, one_added, two, two_added,
}

-- a float of the sample platform is stored as its number
abbrev pub plain : Encoding counting
plain = record { bits = λ x. x; of_bits = λ x. x }

abbrev pub digits : ℕ → String
digits n = "?"

small : (n : ℕ) → n < 2 ^ 32 → Fits 4 n
small n lt = Fits-uint32 n lt

float : (n : ℕ) → n < 2 ^ 32 → IsFloat plain n
float n lt = (Fits-uint32 n lt, refl)

label_fits : (a b : ℕ) → a < 2 ^ 64 → b < 2 ^ 64 → IsLabel (record { client_id = a; label = b })
label_fits a b p q = (Fits-uint64 a p, Fits-uint64 b q)

pub two-IsTyped : IsTyped plain two
unfolding initial_index
two-IsTyped =
    let f0 = float 0 (omega arith) in
    let z = small 0 (omega arith) in
    let u = small 1 (omega arith) in
    record {
      dim = omega arith;
      m = omega arith;
      ef_construction = omega arith;
      num_deleted = omega arith;
      max_level = omega arith;
      entry_point = omega arith;
      vectors = (float 5 (omega arith), (float 9 (omega arith), (f0, tt)));
      zero = f0;
      levels = (u, (small 2 (omega arith), (z, tt)));
      labels = (
        label_fits 1 5 (omega arith) (omega arith),
        (
          label_fits 1 9 (omega arith) (omega arith),
          (label_fits 0 0 (omega arith) (omega arith), tt),
        ),
      );
      deleted =
          (Fits-byte 0 (omega arith), (Fits-byte 0 (omega arith), (Fits-byte 0 (omega arith), tt)));
      links_l0 = (u, (u, (z, (z, (z, (u, (z, (z, (z, (z, (z, (z, (z, (z, (z, tt)))))))))))))));
      links_upper = (
        (omega arith, (u, (u, (z, tt)))),
        ((omega arith, (u, (z, (z, (z, (z, (z, tt))))))), ((omega arith, tt), tt)),
      );
      bytes = omega arith;
    }

two-IsBuilt : IsBuilt two
unfolding initial_index
two-IsBuilt = record {
  accepted = (omega arith, omega arith, omega arith, omega arith);
  max_m = refl;
  max_m0 = refl;
  stride_l0 = refl;
  stride_upper = refl;
  level_mult = refl;
  ef_construction = refl;
  vectors = refl;
}

two-IsBlank : IsBlank two
unfolding initial_index
two-IsBlank = record {
  vectors = refl;
  levels = refl;
  labels = refl;
  deleted = refl;
  links_l0 = refl;
  links_upper = refl;
}

counted-IsHeader : (n : ℕ) → n < 2 ^ 64 → IsHeader (record two { count = n })
unfolding initial_index
counted-IsHeader n lt = record {
  dim = omega arith;
  max_elements = omega arith;
  m = omega arith;
  ef_construction = omega arith;
  count = lt;
  num_deleted = omega arith;
  max_level = omega arith;
  entry_point = omega arith;
  accepted = two-IsBuilt.accepted;
}

-- the header alone
load-truncated_example :
    load plain digits "c.hnsw" (some (header_bytes plain two ++ (0 ∷ []))) ≡ undefined
unfolding initial_index
load-truncated_example =
    load-truncated plain digits "c.hnsw" two (counted-IsHeader 2 (omega arith)) (omega arith)
      (omega arith) (omega arith) (0 ∷ []) (omega arith) (omega arith)

abbrev overfull : Index counting
overfull = record two { count = 4 }

pub two-Reaches : Reaches empty two
two-Reaches =
    later (later here (adds (5 ∷ []) (client_label 5) (ok 0, one) one_added))
      (adds (9 ∷ []) (client_label 9) (ok 1, two) two_added)

search-load-Reaches_example :
    (file : List ℕ) × (idx' : Index counting) × (save plain two true true "a.hnsw" ≡ ok file)
    × (load plain digits "b.hnsw" (some file) ≡ loaded idx')
    × SameAnswers two idx'
search-load-Reaches_example =
    search-load-Reaches counting l2 1 3 2 4 7 empty_Accepts (omega arith) (omega arith)
      (omega arith) counting-IsOrdered plain two two-Reaches two-IsTyped digits "a.hnsw" "b.hnsw"

load-IsIndex_example :
    (file : List ℕ) × (idx' : Index counting) × (save plain two true true "a.hnsw" ≡ ok file)
    × (load plain digits "b.hnsw" (some file) ≡ loaded idx')
    × IsIndex idx'
    × (idx'.count ≡ two.count)
    × (idx'.num_deleted ≡ two.num_deleted)
    × ((label : Label) → find_id label idx'.label_to_id ≡ find_id label two.label_to_id)
    × ((id : ℕ) → get_data idx' id ≡ get_data two id)
load-IsIndex_example =
    load-IsIndex counting l2 1 3 2 4 7 empty_Accepts (omega arith) (omega arith) (omega arith)
      counting-IsOrdered plain two two-Reaches two-IsTyped digits "a.hnsw" "b.hnsw"
