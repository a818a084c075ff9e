-- ===== src/Stress.antt =====
-- The writers of src/stress.cpp: each takes the next number from a shared counter and inserts the
-- vector of that number, until the numbers run out. The readers are left out.
pub mod Invariant
pub mod Steps
pub mod Outcome
use vector_search_engine.Base.{
  ℕ, ◌+◌, ◌-◌, ◌%◌, ◌^◌, ◌≤◌, ◌<◌, Bool, true, false, List, [], Option, none, some, length, get_or,
  set, map, replicate, ◌≡◌,
}
use vector_search_engine.Platform.{Platform}
use vector_search_engine.Index.{Index, Label, find_id}
use vector_search_engine.Insert.{attach}
use vector_search_engine.Recall.{row}
use vector_search_engine.Threads.{Phase, idle, checked, overfull, leveled, Move, System, noted}

-- `Label{1, i}`
abbrev pub stress_label : ℕ → Label
stress_label i = record { client_id = 1; label = i }

-- Where a writer stands; i is the number that it took.
pub data Writer (P : Platform) : Type 0 where
  fetching : Writer P  -- before `next.fetch_add(1)`
  called : (i : ℕ) → Writer P  -- at the start of addPoint
  inside : (i : ℕ) (p : Phase P) → Writer P
  joined : Writer P  -- out of the loop
  crashed : Writer P  -- an exception left the thread: std::terminate

abbrev pub is_idle : {P : Platform} → Phase P → Bool
is_idle idle = true
is_idle _ = false

-- One step of one writer, on the index and on the counter `next`.
pub data Act {P : Platform} (base : List P.F) (dim n : ℕ) (idx : Index P) (next : ℕ)
    : Writer P → Index P → ℕ → Writer P → Type 0 where
  fetch : next < n → Act base dim n idx next fetching idx ((next + 1) % 2 ^ 64) (called next)
  finish : n ≤ next → Act base dim n idx next fetching idx ((next + 1) % 2 ^ 64) joined
  begin :
      {i : ℕ}
      → find_id (stress_label i) idx.label_to_id ≡ none
      → Act base dim n idx next
          (called i)
          idx
          next
          (inside i (checked (row P base dim i) (stress_label i)))
  refuse :
      {i : ℕ} (id : ℕ)
      → find_id (stress_label i) idx.label_to_id ≡ some id
      → Act base dim n idx next (called i) idx next crashed
  go :
      {i : ℕ} {p q : Phase P} {r : Index P}
      → is_idle p ≡ false
      → is_idle q ≡ false
      → Move idx p r q
      → Act base dim n idx next (inside i p) r next (inside i q)
  return :
      {i id level : ℕ} {label : Label} {r : Index P}
      → attach idx id level ≡ some r
      → Act base dim n idx next (inside i (leveled label id level)) r next fetching
  overflow :
      {i : ℕ}
      → Act base dim n idx next
          (inside i overfull)
          (record idx { count = (idx.count + 2 ^ 64 - 1) % 2 ^ 64 })
          next
          crashed

-- the index, the counter, the writers and, for the theorems, the ids given out
pub record Stress (P : Platform) : Type 0 where
  pub index : Index P
  pub next : ℕ
  pub writers : List (Writer P)
  pub given : List ℕ

abbrev pub writer : {P : Platform} → Stress P → ℕ → Writer P
writer s w = get_or s.writers w fetching

abbrev pub phase_of : {P : Platform} → Writer P → Phase P
phase_of (inside i p) = p
phase_of _ = idle

abbrev pub acted : {P : Platform} → Stress P → ℕ → Index P → ℕ → Writer P → Stress P
acted s w r next y = record {
  index = r;
  next = next;
  writers = set s.writers w y;
  given = noted (phase_of y) s.given;
}

pub data Acts {P : Platform} (base : List P.F) (dim n : ℕ) (s : Stress P) : Stress P → Type 0 where
  acts :
      (w : ℕ) {y : Writer P} {r : Index P} {next : ℕ}
      → w < length s.writers
      → Act base dim n s.index s.next (writer s w) r next y
      → Acts base dim n s (acted s w r next y)

pub data StressRuns {P : Platform} (base : List P.F) (dim n : ℕ) (start : Stress P)
    : Stress P → Type 0 where
  begun : StressRuns base dim n start start
  then :
      {a b : Stress P}
      → StressRuns base dim n start a
      → Acts base dim n a b
      → StressRuns base dim n start b

-- the writers before their first step, at an index without elements
unfoldable pub stress_start : {P : Platform} → Index P → ℕ → Stress P
stress_start idx num_writers = record {
  index = idx;
  next = 0;
  writers = replicate num_writers fetching;
  given = [];
}

-- the threads of the index
abbrev pub threads_of : {P : Platform} → Stress P → System P
threads_of s = record { index = s.index; threads = map phase_of s.writers; given = s.given }
