-- ===== src/CApi.antt =====
-- The C interface, src/hnsw_c.cpp and include/hnsw_c.h; hnsw_save and hnsw_load are in Snapshots. A pointer is
-- an option, null being `none`; `g_lastError` is passed along. A C++ exception is caught here and
-- becomes a code and a text. The handlers for exceptions that are no std::exception, which
-- hnsw::Index does not throw, are left out.
pub mod Codes
pub mod Outputs
pub mod Flags
pub mod Creation
pub mod Snapshots
use Prim.Native.String.{String}
use text.Mathlib.Text.{find?}
use vector_search_engine.Base.{
  ℕ, zero, suc, ◌+◌, ◌-◌, ◌%◌, ◌^◌, Bool, true, false, List, [], ◌∷◌, Option, none, some,
  if◌then◌else◌, ◌==◌, ltb, length, set,
}
use vector_search_engine.Base.Int.{ℤ, pos, negsuc}
use vector_search_engine.Platform.{Platform}
use vector_search_engine.Result.{Result, ok, throw}
use vector_search_engine.Index.{
  Index, Label, Space, cosine, l2, new_index, size, active_size, memory_bytes,
}
use vector_search_engine.Search.{SearchResult, search, ◌>>=◌}
use vector_search_engine.Insert.{add_point}
use vector_search_engine.Delete.{mark_deleted, unmark_deleted}

abbrev pub hnsw_ok : ℤ
hnsw_ok = pos 0

abbrev pub hnsw_err_generic : ℤ
hnsw_err_generic = negsuc 0

abbrev pub hnsw_err_null : ℤ
hnsw_err_null = negsuc 1

abbrev pub hnsw_err_full : ℤ
hnsw_err_full = negsuc 2

abbrev pub hnsw_err_not_found : ℤ
hnsw_err_not_found = negsuc 3

abbrev pub hnsw_err_duplicate : ℤ
hnsw_err_duplicate = negsuc 4

-- static_cast<int> of a size_t
unfoldable pub to_int32 : ℕ → ℤ
to_int32 n = let w = n % 2 ^ 32 in if ltb w (2 ^ 31) then pos w else negsuc (2 ^ 32 - w - 1)

-- what a call returns, and the state it leaves: g_lastError and the index behind the pointer
pub record Call (P : Platform) (A : Type 0) : Type 0 where
  pub returned : A
  pub last_error : String
  pub index : Option (Index P)

-- the caller's three arrays
pub record Arrays (P : Platform) : Type 0 where
  pub client_ids : List ℕ
  pub labels : List ℕ
  pub distances : List P.F

-- the code for an exception of addPoint: `msg.find("full")`, then `msg.find("duplicate")`
unfoldable pub add_code : String → ℤ
add_code msg = elim (find? msg "full") [
  | some _ ↦ hnsw_err_full
  | none ↦ elim (find? msg "duplicate") [ some _ ↦ hnsw_err_duplicate | none ↦ hnsw_err_generic ]
]

module _ {P : Platform} where
  unfoldable pub hnsw_new : String → ℕ → ℕ → ℕ → ℕ → ℕ → ℕ → Call P (Unit {0})
  hnsw_new err space dim max_elements m ef_construction seed =
      elim (new_index P (if space == 1 then l2 else cosine) dim max_elements m ef_construction
        seed) [
          | ok idx ↦ record { returned = tt; last_error = err; index = some idx }
          | throw msg ↦ record { returned = tt; last_error = msg; index = none }
        ]

  -- the handlers of hnsw_add
  unfoldable pub add_result : String → Result ℕ × Index P → Call P ℤ
  add_result err (ok id, idx) = record { returned = hnsw_ok; last_error = err; index = some idx }
  add_result err (throw msg, idx) = record {
    returned = add_code msg;
    last_error = msg;
    index = some idx;
  }

  unfoldable pub hnsw_add :
      String → Option (Index P) → Option (List P.F) → ℕ → ℕ → Option (Call P ℤ)
  hnsw_add err none vec client_id label =
      some (record { returned = hnsw_err_null; last_error = "null argument"; index = none })
  hnsw_add err (some idx) none client_id label =
      some (record { returned = hnsw_err_null; last_error = "null argument"; index = some idx })
  hnsw_add err (some idx) (some vec) client_id label =
      add_point idx vec (record { client_id = client_id; label = label }) >>= λ r.
      some (add_result err r)

  -- the loop that writes the results from index `i` on
  unfoldable pub write_results : Arrays P → ℕ → List (SearchResult P) → Arrays P
  write_results a i [] = a
  write_results a i (r ∷ rs) =
      write_results
        (record {
          client_ids = set a.client_ids i r.label.client_id;
          labels = set a.labels i r.label.label;
          distances = set a.distances i r.distance;
        })
        (suc i) rs

  unfoldable pub hnsw_search :
      String
      → Option (Index P)
      → Option (List P.F)
      → ℕ
      → ℕ
      → Option (Arrays P)
      → Option (Call P ℤ × Option (Arrays P))
  hnsw_search err (some idx) (some query) k ef (some out) = search idx query k ef >>= λ r. some (
    record { returned = to_int32 (length r.0); last_error = err; index = some r.1 },
    some (write_results out 0 r.0),
  )
  hnsw_search err idx query k ef out =
      some (record { returned = hnsw_err_null; last_error = "null argument"; index = idx }, out)

  -- the common shape of hnsw_mark_deleted and hnsw_unmark_deleted
  unfoldable pub flag_result : String → String → Bool × Index P → Call P ℤ
  flag_result err msg (true, idx) = record {
    returned = hnsw_ok;
    last_error = err;
    index = some idx;
  }
  flag_result err msg (false, idx) = record {
    returned = hnsw_err_not_found;
    last_error = msg;
    index = some idx;
  }

  unfoldable pub hnsw_mark_deleted : String → Option (Index P) → ℕ → ℕ → Call P ℤ
  hnsw_mark_deleted err none client_id label = record {
    returned = hnsw_err_null;
    last_error = "null index";
    index = none;
  }
  hnsw_mark_deleted err (some idx) client_id label =
      flag_result err "label not found or already deleted"
        (mark_deleted idx (record { client_id = client_id; label = label }))

  unfoldable pub hnsw_unmark_deleted : String → Option (Index P) → ℕ → ℕ → Call P ℤ
  hnsw_unmark_deleted err none client_id label = record {
    returned = hnsw_err_null;
    last_error = "null index";
    index = none;
  }
  hnsw_unmark_deleted err (some idx) client_id label =
      flag_result err "label not found or not currently deleted"
        (unmark_deleted idx (record { client_id = client_id; label = label }))

  -- `idx ? cast(idx)->f() : 0`
  unfoldable pub or_zero : (Index P → ℕ) → Option (Index P) → ℕ
  or_zero f none = 0
  or_zero f (some idx) = f idx

  unfoldable pub hnsw_size : Option (Index P) → ℕ
  unfolding or_zero
  hnsw_size = or_zero size

  unfoldable pub hnsw_active_size : Option (Index P) → ℕ
  unfolding or_zero
  hnsw_active_size = or_zero active_size

  unfoldable pub hnsw_dim : Option (Index P) → ℕ
  unfolding or_zero
  hnsw_dim = or_zero (λ idx. idx.dim)

  unfoldable pub hnsw_capacity : Option (Index P) → ℕ
  unfolding or_zero
  hnsw_capacity = or_zero (λ idx. idx.max_elements)

  unfoldable pub hnsw_memory_bytes : Option (Index P) → ℕ
  unfolding or_zero
  hnsw_memory_bytes = or_zero memory_bytes
