-- ===== src/Delete/Undo.antt =====
-- The two delete operations together, and with a search.
use vector_search_engine.Base.{
  ℕ, ◌+◌, ◌-◌, ◌<◌, true, false, List, some, ◌==◌, ◌≡◌, ◌≢◌, ap, sym, ◌∙◌, arith, Bool-cases,
  Option-cases, inl, inr, ◌⊎◌, length, length-set, get_or, set, get_or-set_self, subst, All,
  All-imp, All-map,
}
use vector_search_engine.Platform.{Platform, IsOrdered}
use vector_search_engine.Index.{Index, Label, find_id}
use vector_search_engine.Index.Invariant.{IsGraph}
use vector_search_engine.Index.Labels.{IsLabelled, no_label}
use vector_search_engine.Search.{SearchResult, search}
use vector_search_engine.Search.Answers.{Live, answer, search-Answers}
use vector_search_engine.Delete.{mark_deleted, unmark_deleted}
use vector_search_engine.Delete.Graph.{reflag-IsGraph}
use vector_search_engine.Delete.Flags.{
  IsCounted, Names, flag, set_undo, mark-clear, mark-set, mark-IsCounted, unmark-set,
}

-- On an index whose label map and counter are in order markDeleted either answers false and
-- changes nothing, or the label names an element with a clear flag, and it answers true, sets
-- this flag and raises the counter by one.
pub mark-cases :
    {P : Platform} (idx : Index P) (label : Label)
    → IsLabelled idx
    → IsCounted idx
    → (mark_deleted idx label ≡ (false, idx))
      ⊎ ((id : ℕ) × Names idx label id
          × (get_or idx.deleted id 0 ≡ 0)
          × (mark_deleted idx label ≡ (
            true,
            record idx { deleted = set idx.deleted id 1; num_deleted = idx.num_deleted + 1 },
          )))
unfolding mark_deleted
mark-cases idx label h c = elim (Option-cases (find_id label idx.label_to_id)) [
  | inl unknown ↦ inl (rw (unknown, mark_deleted))
  | inr (id, e) ↦
      let n : Names idx label id = record { found = e; below = (h.known label id e).0 } in
      elim (Bool-cases (get_or idx.deleted id 0 == 0)) [
        | inl clear ↦
            let z : get_or idx.deleted id 0 ≡ 0 = ground arith in
            inr (id, n, z, mark-clear idx label id n c z)
        | inr set_flag ↦ inl (mark-set idx label id n c (λ z. ground arith))
      ]
]

-- On an index whose label map and counter are in order unmarkDeleted either answers false and
-- changes nothing, or the label names an element with a set flag, and it answers true, clears
-- this flag and lowers the counter by one.
pub unmark-cases :
    {P : Platform} (idx : Index P) (label : Label)
    → IsLabelled idx
    → IsCounted idx
    → (unmark_deleted idx label ≡ (false, idx))
      ⊎ ((id : ℕ) × Names idx label id
          × (get_or idx.deleted id 0 ≢ 0)
          × (unmark_deleted idx label ≡ (
            true,
            record idx { deleted = set idx.deleted id 0; num_deleted = idx.num_deleted - 1 },
          )))
unfolding unmark_deleted
unmark-cases idx label h c = elim (Option-cases (find_id label idx.label_to_id)) [
  | inl unknown ↦ inl (rw (unknown, unmark_deleted))
  | inr (id, e) ↦
      let n : Names idx label id = record { found = e; below = (h.known label id e).0 } in
      elim (Bool-cases (get_or idx.deleted id 0 == 0)) [
        | inl clear ↦ inl (rw (e, unmark_deleted, clear))
        | inr set_flag ↦
            let z : get_or idx.deleted id 0 ≢ 0 = λ z. ground arith in
            inr (id, n, z, unmark-set idx label id n c z)
      ]
]

module _ {P : Platform} (idx idx' : Index P) (label : Label) (h : IsLabelled idx)
    (c : IsCounted idx) (marked : mark_deleted idx label ≡ (true, idx')) where
  -- On an index whose label map and counter are in order, after a markDeleted that answered true
  -- unmarkDeleted of the same label answers true and restores the index.
  pub unmark-mark : unmark_deleted idx' label ≡ (true, idx)
  unmark-mark = elim (mark-cases idx label h c) [
    | inl same ↦ (let q = sym marked ∙ same in cc)
    | inr (id, n, z, e) ↦
        let idx1 = flag idx label id n c 1 (idx.num_deleted + 1) in
        let f : idx1 ≡ idx' = ap (λ r. r.1) (sym e ∙ marked) in
        let len : id < length idx.deleted = omega (arith, n.below, c.flags) in
        let one = get_or-set_self idx.deleted id 1 0 len in
        let d = set_undo idx.deleted id 1 0 z in
        let k : idx.num_deleted + 1 - 1 ≡ idx.num_deleted = omega arith in
        rw (← f) (
          unmark-set idx1 label id (record { found = n.found; below = n.below })
            (mark-IsCounted idx label id n c z) (λ zero_flag. omega arith)
          ∙ ap (λ r. (true, r)) (λ i. record idx { deleted = d i; num_deleted = k i }))
  ]

  -- the graph does not depend on the flags
  mark-IsGraph : IsGraph idx → IsGraph idx'
  mark-IsGraph g = elim (mark-cases idx label h c) [
    | inl same ↦ (let q = sym marked ∙ same in cc)
    | inr (id, n, z, e) ↦ subst IsGraph (ap (λ r. r.1) (sym e ∙ marked)) (
        reflag-IsGraph idx (set idx.deleted id 1) (idx.num_deleted + 1)
          (length-set idx.deleted id 1) g)
  ]

  -- the one element with the label is flagged
  marked-flag :
      (id : ℕ)
      → id < idx'.count
      → get_or idx'.labels id no_label ≡ label
      → get_or idx'.deleted id 0 ≡ 1
  marked-flag j lt same = elim (mark-cases idx label h c) [
    | inl q ↦ (let q' = sym marked ∙ q in cc)
    | inr (id, n, z, e) ↦
        let f = ap (λ r. r.1) (sym e ∙ marked) in
        let old : (j < idx.count) × (get_or idx.labels j no_label ≡ label) =
          subst (λ (x : Index P). (j < x.count) × (get_or x.labels j no_label ≡ label)) (sym f)
            (lt, same) in
        let there : find_id label idx.label_to_id ≡ some j = rw old.1 at (h.listed j old.0) in
        let found = n.found in
        let i : id ≡ j = cc in
        subst (λ (x : Index P). get_or x.deleted j 0 ≡ 1) f
          (rw (← i) (get_or-set_self idx.deleted id 1 0 (omega (arith, n.below, c.flags))))
  ]

  -- Where distances are ordered, on a well-formed index whose label map and counter are in order:
  -- after a markDeleted of a label that answered true, no search returns the label.
  pub search-mark :
      IsOrdered P
      → IsGraph idx
      → (query : List P.F) (k ef : ℕ) (r : List (SearchResult P) × Index P)
      → search idx' query k ef ≡ some r
      → All (λ res. res.label ≢ label) r.0
  search-mark o g query k ef r run =
      let (r', run', a) = search-Answers idx' o (mark-IsGraph g) query k ef in
      let same : r' ≡ r = cc in
      subst (λ s. All (λ res. res.label ≢ label) s.0) same
        (rw a.results (
          All-map (answer idx') (λ res. res.label ≢ label) a.cands
            (All-imp (Live idx' query) (λ x. (answer idx' x).label ≢ label) a.cands
              (λ x live e. omega (arith, marked-flag x.1 live.present e, live.undeleted)) a.live)))
