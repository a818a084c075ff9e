-- ===== src/CApi/Snapshots.antt =====
-- hnsw_save, hnsw_load and hnsw_free of src/hnsw_c.cpp. A path that is null is `none`; what the
-- file system does is a parameter, as in Snapshot.
use Prim.Native.String.{String}
use vector_search_engine.Base.{ℕ, Bool, true, List, Option, none, some, ◌≡◌, refl}
use vector_search_engine.Base.Int.{ℤ}
use vector_search_engine.Platform.{Platform}
use vector_search_engine.Result.{Result, ok, throw}
use vector_search_engine.Index.{Index}
use vector_search_engine.Index.Invariant.{IsStore}
use vector_search_engine.Snapshot.{Encoding, Loaded, loaded, rejects, undefined, save, load}
use vector_search_engine.Snapshot.Conditions.{IsTyped, IsBuilt, IsBlank, reloaded}
use vector_search_engine.Snapshot.RoundTrip.{load-save}
use vector_search_engine.CApi.{Call, hnsw_ok, hnsw_err_null, hnsw_err_generic}

module _ {P : Platform} where
  -- the handlers of hnsw_save, and the file where it was written to its end
  unfoldable pub save_result : String → Index P → Result (List ℕ) → Call P ℤ × Option (List ℕ)
  save_result err idx (ok file) =
      (record { returned = hnsw_ok; last_error = err; index = some idx }, some file)
  save_result err idx (throw msg) =
      (record { returned = hnsw_err_generic; last_error = msg; index = some idx }, none)

  unfoldable pub hnsw_save :
      Encoding P
      → String
      → Option (Index P)
      → Option String
      → Bool
      → Bool
      → Call P ℤ × Option (List ℕ)
  hnsw_save enc err (some idx) (some path) opens written =
      save_result err idx (save enc idx opens written path)
  hnsw_save enc err idx path opens written =
      (record { returned = hnsw_err_null; last_error = "null argument"; index = idx }, none)

  -- the handlers of hnsw_load
  unfoldable pub load_result : String → Loaded (Index P) → Loaded (Call P (Unit {0}))
  load_result err (loaded idx) =
      loaded (record { returned = tt; last_error = err; index = some idx })
  load_result err (rejects msg) = loaded (record { returned = tt; last_error = msg; index = none })
  load_result err undefined = undefined

  -- the pointer that hnsw_load returns is the index of the call, null being `none`
  unfoldable pub hnsw_load :
      Encoding P
      → (ℕ → String)
      → String
      → Option String
      → Option (List ℕ)
      → Loaded (Call P (Unit {0}))
  hnsw_load enc to_string err none file =
      loaded (record { returned = tt; last_error = "null path"; index = none })
  hnsw_load enc to_string err (some path) file = load_result err (load enc to_string path file)

  -- nothing is left behind the pointer, which may be null
  unfoldable pub hnsw_free : String → Option (Index P) → Call P (Unit {0})
  hnsw_free err idx = record { returned = tt; last_error = err; index = none }

  -- Of a well-formed storage whose numbers lie in the ranges of their C++ types, whose parameters
  -- are those of the constructor and whose free slots are as the constructor left them, hnsw_save
  -- to a file that opens and is written to its end returns HNSW_OK, leaves the index and the text
  -- of the last error, and leaves a file from which hnsw_load gives the reloaded index and leaves
  -- the text of the last error.
  pub hnsw_load-hnsw_save :
      (enc : Encoding P) (idx : Index P)
      → IsStore idx
      → IsTyped enc idx
      → IsBuilt idx
      → IsBlank idx
      → (to_string : ℕ → String) (path path' err err' : String)
      → (file : List ℕ) × (hnsw_save enc err (some idx) (some path) true true
          ≡ (record { returned = hnsw_ok; last_error = err; index = some idx }, some file))
        × (hnsw_load enc to_string err' (some path') (some file)
            ≡ loaded (record { returned = tt; last_error = err'; index = some (reloaded idx) }))
  unfolding hnsw_save hnsw_load save_result load_result
  hnsw_load-hnsw_save enc idx g t b blank to_string path path' err err' =
      let (file, saved, back) = load-save enc idx g t b blank to_string path path' in
      (file, rw (saved, save_result) refl, rw (back, load_result) refl)
