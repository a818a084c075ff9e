-- ===== src/Threads/Safety.antt =====
-- The ids and slots at every moment while threads call addPoint of include/hnsw.hpp on one index.
use vector_search_engine.Base.{
  ℕ, zero, suc, ◌+◌, ◌^◌, ◌≤◌, ◌<◌, List, [], ◌∷◌, some, length, get_or, ◌≡◌, ap, ◌∙◌, arith,
}
use vector_search_engine.Platform.{Platform}
use vector_search_engine.Index.{Index, Label}
use vector_search_engine.Index.Labels.{no_label}
use vector_search_engine.Threads.{Phase, idle, overfull, System, phase, Runs, count_down, at_rest}
use vector_search_engine.Threads.Invariant.{held, pending, occupies, IsRun}
use vector_search_engine.Threads.Moves.{Runs-IsRun, at_rest-IsRun}

pending-overfull :
    {P : Platform} (ps : List (Phase P)) (i : ℕ)
    → i < length ps
    → get_or ps i idle ≡ overfull
    → 0 < pending ps
pending-overfull [] i lt e = absurd (omega arith)
pending-overfull (p ∷ ps) zero lt e = let q : p ≡ overfull = e in rw q (omega arith)
pending-overfull (p ∷ ps) (suc i) lt e = omega (arith, pending-overfull ps i (omega arith) e)

module _ {P : Platform} (idx : Index P) (n : ℕ) (sized : length idx.labels ≡ idx.max_elements)
    (within : idx.count ≤ idx.max_elements) (few : idx.max_elements + n < 2 ^ 32) (s : System P)
    (runs : Runs (at_rest idx n) s) where
  invariant : IsRun s
  invariant = Runs-IsRun (at_rest idx n) s (at_rest-IsRun idx n sized within few) runs

  -- At any moment while n threads call addPoint, markDeleted and unmarkDeleted on one index,
  -- where the capacity and n together stay below 2 ^ 32 and the array of labels has the size of
  -- the capacity: the ids given out so far are 0, 1, 2 and so on without a gap, at most as many
  -- as the capacity, and count_ is their number and the number of threads that are about to give
  -- an id back.
  pub ids_in_order :
      (s.given ≡ count_down (length s.given))
      × (length s.given ≤ s.index.max_elements)
      × (s.index.count ≡ length s.given + pending s.threads)
  ids_in_order = (invariant.ordered, invariant.within, invariant.counted)

  -- At any moment while n threads call addPoint, markDeleted and unmarkDeleted on one index,
  -- where the capacity and n together stay below 2 ^ 32 and the array of labels has the size of
  -- the capacity: no two threads hold the same slot, and the slot of each lies inside the arrays.
  pub slots_apart :
      (i j id : ℕ)
      → held (phase s i) ≡ some id
      → held (phase s j) ≡ some id
      → (i ≡ j) × (id < s.index.max_elements)
  slots_apart i j id e e' =
      (invariant.unique i j id e e', omega (arith, invariant.range i id e, invariant.within))

  -- At any moment while n threads call addPoint, markDeleted and unmarkDeleted on one index,
  -- where the capacity and n together stay below 2 ^ 32 and the array of labels has the size of
  -- the capacity: a slot that a thread has filled and is still inserting carries the label that
  -- this thread wrote.
  pub label_stays :
      (i id : ℕ) (label : Label)
      → occupies (phase s i) ≡ some (label, id)
      → get_or s.index.labels id no_label ≡ label
  label_stays = invariant.labelled

  -- At any moment while n threads call addPoint, markDeleted and unmarkDeleted on one index,
  -- where the capacity and n together stay below 2 ^ 32 and the array of labels has the size of
  -- the capacity: a thread is on its way to the exception for a full index only when every slot
  -- was given out, the ids given out being all those below the capacity.
  pub full_when_thrown :
      (i : ℕ)
      → i < length s.threads
      → phase s i ≡ overfull
      → s.given ≡ count_down s.index.max_elements
  full_when_thrown i lt e =
      let all : length s.given ≡ s.index.max_elements =
        invariant.full (pending-overfull s.threads i lt e) in
      invariant.ordered ∙ ap count_down all
