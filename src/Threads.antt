-- ===== src/Threads.antt =====
-- Several threads in Index::addPoint of include/hnsw.hpp at once, as in src/stress.cpp, with
-- markDeleted and unmarkDeleted between. A step is one access to a shared member, or what a thread
-- does to the slot that it holds, or a section under a lock; the linking of one element, which takes
-- its own locks, is one step.
pub mod Kept
pub mod Invariant
pub mod Moves
pub mod Safety
pub mod Race
use vector_search_engine.Base.{
  ℕ, zero, suc, ◌+◌, ◌-◌, ◌*◌, ◌%◌, ◌^◌, ◌≤◌, ◌<◌, List, [], ◌∷◌, Option, none, some, length,
  get_or, set, replicate, ◌≡◌,
}
use vector_search_engine.Platform.{Platform}
use vector_search_engine.Index.{Index, Label, find_id, assign_id}
use vector_search_engine.Insert.{attach, assign_row, random_level, store, stored_vector}
use vector_search_engine.Delete.{mark_deleted, unmark_deleted}

-- Where a thread stands in addPoint, with its live local variables.
pub data Phase (P : Platform) : Type 0 where
  idle : Phase P  -- in no call
  checked : (vec : List P.F) (label : Label) → Phase P  -- the label was not in the map
  overfull : Phase P  -- before `count_.fetch_sub(1)`
  reserved : (vec : List P.F) (label : Label) (id : ℕ) → Phase P  -- id < maxElements_
  filled : (label : Label) (id : ℕ) → Phase P  -- the slot has its vector, label and flag
  named : (label : Label) (id : ℕ) → Phase P  -- the label map leads to the slot
  leveled : (label : Label) (id level : ℕ) → Phase P  -- the slot has its level and its row

-- One step of one thread. A call that throws ends in `idle`, like one that returns.
pub data Move {P : Platform} (idx : Index P) : Phase P → Index P → Phase P → Type 0 where
  duplicate :
      (label : Label) (id : ℕ) → find_id label idx.label_to_id ≡ some id → Move idx idle idx idle
  check :
      {vec : List P.F} {label : Label}
      → find_id label idx.label_to_id ≡ none
      → Move idx idle idx (checked vec label)
  reserve :
      {vec : List P.F} {label : Label}
      → idx.count % 2 ^ 32 < idx.max_elements
      → Move idx
          (checked vec label)
          (record idx { count = (idx.count + 1) % 2 ^ 64 })
          (reserved vec label (idx.count % 2 ^ 32))
  overrun :
      {vec : List P.F} {label : Label}
      → idx.max_elements ≤ idx.count % 2 ^ 32
      → Move idx (checked vec label) (record idx { count = (idx.count + 1) % 2 ^ 64 }) overfull
  give_back : Move idx overfull (record idx { count = (idx.count + 2 ^ 64 - 1) % 2 ^ 64 }) idle
  fill :
      {vec : List P.F} {label : Label} {id : ℕ}
      → Move idx
          (reserved vec label id)
          (record idx {
            vectors = store idx.vectors (id * idx.dim) (stored_vector idx vec);
            labels = set idx.labels id label;
            deleted = set idx.deleted id 0;
          })
          (filled label id)
  enter :
      {label : Label} {id : ℕ}
      → Move idx
          (filled label id)
          (record idx { label_to_id = assign_id label id idx.label_to_id })
          (named label id)
  draw_level :
      {label : Label} {id : ℕ}
      → Move idx
          (named label id)
          (record idx {
            levels = set idx.levels id (random_level idx).0;
            rng = (random_level idx).1;
            links = assign_row idx.links id (random_level idx).0;
          })
          (leveled label id (random_level idx).0)
  link :
      {label : Label} {id level : ℕ} {r : Index P}
      → attach idx id level ≡ some r
      → Move idx (leveled label id level) r idle
  mark : (label : Label) → Move idx idle (mark_deleted idx label).1 idle
  unmark : (label : Label) → Move idx idle (unmark_deleted idx label).1 idle

-- The threads at one index, and, for the theorems, the ids that were given out, the latest first.
pub record System (P : Platform) : Type 0 where
  pub index : Index P
  pub threads : List (Phase P)
  pub given : List ℕ

abbrev pub phase : {P : Platform} → System P → ℕ → Phase P
phase s i = get_or s.threads i idle

-- the ids given out, after a move into a phase
abbrev pub noted : {P : Platform} → Phase P → List ℕ → List ℕ
noted (reserved vec label id) given = id ∷ given
noted _ given = given

abbrev pub after : {P : Platform} → System P → ℕ → Index P → Phase P → System P
after s i idx p = record { index = idx; threads = set s.threads i p; given = noted p s.given }

pub data Turn {P : Platform} (s : System P) : System P → Type 0 where
  moves :
      (i : ℕ) {idx : Index P} {p : Phase P}
      → i < length s.threads
      → Move s.index (phase s i) idx p
      → Turn s (after s i idx p)

pub data Runs {P : Platform} (start : System P) : System P → Type 0 where
  here : Runs start start
  later : {a b : System P} → Runs start a → Turn a b → Runs start b

-- 0 to n - 1, the last first
abbrev pub count_down : ℕ → List ℕ
count_down zero = []
count_down (suc n) = n ∷ count_down n

-- n idle threads at an index
unfoldable pub at_rest : {P : Platform} → Index P → ℕ → System P
at_rest idx n = record { index = idx; threads = replicate n idle; given = count_down idx.count }
