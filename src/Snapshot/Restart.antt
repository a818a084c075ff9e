-- ===== src/Snapshot/Restart.antt =====
-- The index that load makes of the snapshot of an index (include/hnsw.hpp): it is in order.
use Prim.Native.String.{String}
use vector_search_engine.Base.{ℕ, ◌*◌, ◌^◌, ◌<◌, true, List, some, ◌≡◌, refl}
use vector_search_engine.Platform.{Platform, IsOrdered}
use vector_search_engine.Result.{ok}
use vector_search_engine.Index.{Index, Label, Space, initial_index, find_id, get_data}
use vector_search_engine.Index.Construction.{Accepts}
use vector_search_engine.Lifetime.{IsIndex, Reaches}
use vector_search_engine.Lifetime.Preservation.{Reaches-IsIndex, initial-IsIndex}
use vector_search_engine.Snapshot.{Encoding, loaded, save, load}
use vector_search_engine.Snapshot.Conditions.{IsTyped, reloaded}
use vector_search_engine.Snapshot.RoundTrip.{load-save}
use vector_search_engine.Snapshot.Reloaded.{reloaded-IsIndex, find_id-reloaded}
use vector_search_engine.Snapshot.Reached.{Reaches-IsKept, initial-IsKept}

module _ (P : Platform) (space : Space) (dim max_elements m ef_construction seed : ℕ)
    (a : Accepts P space dim max_elements m ef_construction seed) (no_wrap : m < 2 ^ 63)
    (small : max_elements < 2 ^ 32) (room : max_elements * dim < 2 ^ 64) where
  -- Where distances are ordered, for an index that an accepted call of the constructor built,
  -- with M below 2 ^ 63, fewer than 2 ^ 32 slots and fewer than 2 ^ 64 floats, and that any
  -- sequence of calls of addPoint, markDeleted, unmarkDeleted and search led to, if its numbers
  -- lie in the ranges of their C++ types: what load makes of the file that save leaves is an
  -- index in order (its graph, its label map and its count of deleted elements), with the same
  -- counts of elements and of deleted ones, the same vectors, and the same id under every label.
  pub load-IsIndex :
      (o : IsOrdered P) (enc : Encoding P) (idx : Index P)
      → Reaches (initial_index P space dim max_elements m ef_construction seed) idx
      → IsTyped enc idx
      → (to_string : ℕ → String) (path path' : String)
      → (file : List ℕ) × (idx' : Index P) × (save enc idx true true path ≡ ok file)
        × (load enc to_string path' (some file) ≡ loaded idx')
        × IsIndex idx'
        × (idx'.count ≡ idx.count)
        × (idx'.num_deleted ≡ idx.num_deleted)
        × ((label : Label) → find_id label idx'.label_to_id ≡ find_id label idx.label_to_id)
        × ((id : ℕ) → get_data idx' id ≡ get_data idx id)
  unfolding get_data
  load-IsIndex o enc idx reached t to_string path path' =
      let born = initial_index P space dim max_elements m ef_construction seed in
      let h =
        initial-IsIndex P space dim max_elements m ef_construction seed a no_wrap small room in
      let i = Reaches-IsIndex o born h idx reached in
      let kept =
        initial-IsKept P space dim max_elements m ef_construction seed a no_wrap small room in
      let (b, blank) = Reaches-IsKept o born h kept idx reached in
      let (file, saved, back) = load-save enc idx i.graph.store t b blank to_string path path' in
      (
        file,
        reloaded idx,
        saved,
        back,
        reloaded-IsIndex idx i,
        refl,
        refl,
        find_id-reloaded idx i,
        λ id. refl,
      )
