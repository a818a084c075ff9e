-- ===== src/Threads/Race.antt =====
-- Two calls of addPoint of include/hnsw.hpp with one label at once: labelLock_ is released between the
-- check for a duplicate and the entry in the label map.
use vector_search_engine.Base.{
  ℕ, ◌+◌, ◌%◌, ◌^◌, ◌<◌, List, [], ◌∷◌, none, some, length, get_or, set, ◌≡◌, ◌≢◌, refl, ◌∙◌, arith,
  Bool-cases, inl, inr, ◌==◌, length-set, get_or-set_self, get_or-set_ne,
}
use vector_search_engine.Platform.{Platform}
use vector_search_engine.Index.{Index, Label, find_id, assign_id}
use vector_search_engine.Index.Labels.{no_label, find_id-assign_id, label_eq_iff}
use vector_search_engine.Delete.{mark_deleted}
use vector_search_engine.Threads.{
  named, check, reserve, fill, enter, System, moves, Runs, here, later, at_rest,
}

module _ {P : Platform} (idx : Index P) (vec vec' : List P.F) (label : Label)
    (free : find_id label idx.label_to_id ≡ none) (room : idx.count + 1 < idx.max_elements)
    (small : idx.max_elements < 2 ^ 32) (sized : length idx.labels ≡ idx.max_elements)
    (sized' : length idx.deleted ≡ idx.max_elements) where
  abbrev first_id : ℕ
  first_id = idx.count % 2 ^ 32

  abbrev second_id : ℕ
  second_id = ((idx.count + 1) % 2 ^ 64) % 2 ^ 32

  -- both checks before both reservations
  twice :
      (s : System P) × Runs (at_rest idx 2) s
      × (s.threads ≡ named label first_id ∷ named label second_id ∷ [])
      × (s.index.labels ≡ set (set idx.labels first_id label) second_id label)
      × (s.index.deleted ≡ set (set idx.deleted first_id 0) second_id 0)
      × (s.index.label_to_id ≡ assign_id label second_id (assign_id label first_id idx.label_to_id))
  unfolding at_rest
  twice =
      let lt0 : 0 < 2 = omega arith in
      let lt1 : 1 < 2 = omega arith in
      let s1 : Runs (at_rest idx 2) _ = later here (moves 0 lt0 (check {vec = vec} free)) in
      let s2 = later s1 (moves 1 lt1 (check {vec = vec'} free)) in
      let s3 = later s2 (moves 0 lt0 (reserve (omega arith))) in
      let s4 = later s3 (moves 1 lt1 (reserve (omega arith))) in
      let s5 = later s4 (moves 0 lt0 fill) in
      let s6 = later s5 (moves 1 lt1 fill) in
      let s7 = later s6 (moves 0 lt0 enter) in
      let s8 = later s7 (moves 1 lt1 enter) in (_, s8, refl, refl, refl, refl)

  first_id-eq : first_id ≡ idx.count
  first_id-eq = omega arith

  second_id-eq : second_id ≡ idx.count + 1
  second_id-eq = omega arith

  -- markDeleted of a label that leads to one element leaves the flag of another
  mark-other :
      (t : Index P) (id j : ℕ)
      → find_id label t.label_to_id ≡ some id
      → id ≢ j
      → get_or t.deleted j 0 ≡ 0
      → get_or (mark_deleted t label).1.deleted j 0 ≡ 0
  unfolding mark_deleted
  mark-other t id j found ne clear = elim (Bool-cases (get_or t.deleted id 0 == 0)) [
    | inl unset ↦ rw (mark_deleted, found, unset) (get_or-set_ne t.deleted id j 1 0 ne ∙ clear)
    | inr already ↦ rw (mark_deleted, found, already) clear
  ]

  -- Where a label is free and two slots below 2 ^ 32 are free too, two threads that both add the
  -- label can come to the point where both are past the check for a duplicate and the entry in
  -- the label map: two slots then carry the label, the label map leads to the second of them, and
  -- markDeleted of the label leaves the flag of the first clear.
  pub accepted_twice :
      (s : System P) × Runs (at_rest idx 2) s
      × (s.threads ≡ named label idx.count ∷ named label (idx.count + 1) ∷ [])
      × (get_or s.index.labels idx.count no_label ≡ label)
      × (get_or s.index.labels (idx.count + 1) no_label ≡ label)
      × (find_id label s.index.label_to_id ≡ some (idx.count + 1))
      × (get_or (mark_deleted s.index label).1.deleted idx.count 0 ≡ 0)
  accepted_twice =
      let (s, runs, threads, labels, deleted, ids) = twice in
      let c = idx.count in
      let found : find_id label s.index.label_to_id ≡ some (c + 1) =
        rw
          (
            ids,
            second_id-eq,
            find_id-assign_id label label (c + 1),
            (label_eq_iff label label).1 refl,
          )
          refl in
      let clear : get_or s.index.deleted c 0 ≡ 0 =
        rw (deleted, first_id-eq, second_id-eq)
          (get_or-set_ne (set idx.deleted c 0) (c + 1) c 0 0 (λ e. omega arith)
            ∙ get_or-set_self idx.deleted c 0 0 (omega arith)) in
      (
        s,
        runs,
        rw (threads, first_id-eq, second_id-eq) refl,
        rw (labels, first_id-eq, second_id-eq)
            (get_or-set_ne (set idx.labels c label) (c + 1) c label no_label (λ e. omega arith)
              ∙ get_or-set_self idx.labels c label no_label (omega arith)),
        rw (labels, second_id-eq)
            (get_or-set_self (set idx.labels first_id label) (c + 1) label no_label
              (rw length-set (omega arith))),
        found,
        mark-other s.index (c + 1) c found (λ e. omega arith) clear,
      )
