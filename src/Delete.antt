-- ===== src/Delete.antt =====
-- Index::markDeleted and unmarkDeleted of include/hnsw.hpp. Both run under the label lock.
pub mod Flags
pub mod Graph
pub mod Undo
use vector_search_engine.Base.{
  ℕ, ◌+◌, ◌-◌, ◌%◌, ◌^◌, Bool, true, false, Option, none, some, if◌then◌else◌, ◌==◌, get_or, set,
}
use vector_search_engine.Platform.{Platform}
use vector_search_engine.Index.{Index, Label, find_id}

module _ {P : Platform} (idx : Index P) where
  unfoldable pub mark_deleted : Label → Bool × Index P
  mark_deleted label = elim (find_id label idx.label_to_id) [
    | none ↦ (false, idx)
    | some id ↦
        if get_or idx.deleted id 0 == 0
        then (
          true,
          record idx {
            deleted = set idx.deleted id 1;
            num_deleted = (idx.num_deleted + 1) % 2 ^ 64;
          },
        )
        else (false, idx)
  ]

  unfoldable pub unmark_deleted : Label → Bool × Index P
  unmark_deleted label = elim (find_id label idx.label_to_id) [
    | none ↦ (false, idx)
    | some id ↦ if get_or idx.deleted id 0 == 0 then (false, idx) else (
      true,
      record idx {
        deleted = set idx.deleted id 0;
        num_deleted = (idx.num_deleted + 2 ^ 64 - 1) % 2 ^ 64;
      },
    )
  ]
