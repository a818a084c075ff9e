-- ===== src/Programs/Deletion.antt =====
-- The check of the soft delete in src/benchmark.cpp.
use vector_search_engine.Base.{
  ℕ, true, false, List, [], ◌∷◌, some, ◌==◌, get_or, map, All, ◌<◌, ◌≡◌, ◌≢◌, ◌⊎◌, refl, ap, ◌∙◌,
  inl, inr, arith, Bool-cases, Option-cases,
}
use vector_search_engine.Platform.{Platform, IsOrdered}
use vector_search_engine.Visited.{VisitedListPool}
use vector_search_engine.Heap.{Cand}
use vector_search_engine.Index.{Index, Label, find_id}
use vector_search_engine.Index.Labels.{label_eq_iff, no_label}
use vector_search_engine.Search.{SearchResult, search, ◌>>=◌}
use vector_search_engine.Search.Answers.{answer, Live, search-Answers}
use vector_search_engine.Delete.{mark_deleted, unmark_deleted}
use vector_search_engine.Delete.Flags.{Names, mark-clear}
use vector_search_engine.Delete.Undo.{search-mark, unmark-mark}
use vector_search_engine.Snapshot.{loaded, undefined}
use vector_search_engine.Lifetime.{IsIndex, marks, searches}
use vector_search_engine.Lifetime.Preservation.{Step-IsIndex}
use vector_search_engine.Programs.{returned, soft_delete}

module _ {P : Platform} where
  returned-none :
      (victim : Label) (rs : List (SearchResult P))
      → All (λ res. res.label ≢ victim) rs
      → returned victim rs ≡ false
  unfolding returned
  returned-none victim [] h = refl
  returned-none victim (r ∷ rs) h =
      ground (arith, returned-none victim rs h.1, label_eq_iff r.label victim, h.0)

  -- unmarkDeleted does not look at the pool of visited lists
  unmark-pool :
      (idx : Index P) (pool : VisitedListPool) (label : Label)
      → (unmark_deleted (record idx { visited_pool = pool }) label).1
        ≡ record (unmark_deleted idx label).1 { visited_pool = pool }
  unfolding unmark_deleted
  unmark-pool idx pool label = elim (Option-cases (find_id label idx.label_to_id)) [
    | inl unknown ↦ rw (unknown, unmark_deleted) refl
    | inr (id, found) ↦ elim (Bool-cases (get_or idx.deleted id 0 == 0)) [
      | inl clear ↦ rw (found, unmark_deleted, clear) refl
      | inr marked ↦ rw (found, unmark_deleted, marked) refl
    ]
  ]

module _ {P : Platform} (o : IsOrdered P) (idx : Index P) (h : IsIndex idx) where
  -- the label of an element whose flag is clear can be marked
  mark-present :
      (id : ℕ)
      → id < idx.count
      → get_or idx.deleted id 0 ≡ 0
      → let label = get_or idx.labels id no_label in
        mark_deleted idx label ≡ (true, (mark_deleted idx label).1)
  mark-present id present clear =
      let label = get_or idx.labels id no_label in
      let n : Names idx label id = record {
        found = h.labelled.listed id present;
        below = present;
      } in
      let e = mark-clear idx label id n h.counted clear in
      ap (λ b. (b, (mark_deleted idx label).1)) (ap (λ p. p.0) e)

  -- the mark, the second search and the unmark
  marked-search :
      (query : List P.F) (k ef id : ℕ)
      → id < idx.count
      → get_or idx.deleted id 0 ≡ 0
      → let label = get_or idx.labels id no_label in
        (r : List (SearchResult P) × Index P) × (pool : VisitedListPool) × (search
            (mark_deleted idx label).1
            query
            k
            ef
          ≡ some r)
        × (returned label r.0 ≡ false)
        × ((unmark_deleted r.1 label).1 ≡ record idx { visited_pool = pool })
  marked-search query k ef id present clear =
      let label = get_or idx.labels id no_label in
      let t = (mark_deleted idx label).1 in
      let marked : mark_deleted idx label ≡ (true, t) = mark-present id present clear in
      let ht = Step-IsIndex idx o h t (marks label) in
      let (r, run, a) = search-Answers t o ht.graph query k ef in
      (
        r,
        a.pool,
        run,
        returned-none label r.0
            (search-mark idx t label h.labelled h.counted marked o h.graph query k ef r run),
        ap (λ x. (unmark_deleted x label).1) a.kept
            ∙ unmark-pool t a.pool label
            ∙ ap (λ x. record (x.1) { visited_pool = a.pool })
                (unmark-mark idx t label h.labelled h.counted marked),
      )

module _ {P : Platform} (o : IsOrdered P) (idx : Index P) (h : IsIndex idx) (query : List P.F)
    (k ef : ℕ) where
  soft_delete-first :
      (c : Cand P) (cs : List (Cand P)) (pool : VisitedListPool)
      → search idx query k ef ≡ some (map (answer idx) (c ∷ cs), record idx { visited_pool = pool })
      → c.1 < idx.count
      → get_or idx.deleted c.1 0 ≡ 0
      → (pool' : VisitedListPool) × (soft_delete idx query k ef
          ≡ some (loaded (true, record idx { visited_pool = pool' })))
  unfolding soft_delete
  soft_delete-first c cs pool run present clear =
      let idx1 = record idx { visited_pool = pool } in
      let h1 =
        Step-IsIndex idx o h idx1 (searches query k ef (map (answer idx) (c ∷ cs), idx1) run) in
      let (r, pool', run', gone, last) = marked-search o idx1 h1 query k ef c.1 present clear in
      (pool', rw (soft_delete, run, ◌>>=◌, run', gone, last) refl)

  -- Where distances are ordered, on an index in order the check of the soft delete of the
  -- benchmark either has an empty first search, whose front() it reads, or ends with the victim
  -- gone from the second search, and the index is then as before it but for the pool of visited
  -- lists.
  pub soft_delete-passes :
      ((r : Index P) × (search idx query k ef ≡ some ([], r))
        × (soft_delete idx query k ef ≡ some undefined))
      ⊎ (pool : VisitedListPool) × (soft_delete idx query k ef
          ≡ some (loaded (true, record idx { visited_pool = pool })))
  unfolding soft_delete
  soft_delete-passes =
      let (r, run, a) = search-Answers idx o h.graph query k ef in
      let found : r ≡ (map (answer idx) a.cands, record idx { visited_pool = a.pool }) =
        λ i. (a.results i, a.kept i) in
      by_cands a.cands a.pool (run ∙ ap some found) a.live
    where
      by_cands :
          (cands : List (Cand P)) (pool : VisitedListPool)
          → search idx query k ef
            ≡ some (map (answer idx) cands, record idx { visited_pool = pool })
          → All (Live idx query) cands
          → ((r : Index P) × (search idx query k ef ≡ some ([], r))
              × (soft_delete idx query k ef ≡ some undefined))
            ⊎ (pool : VisitedListPool) × (soft_delete idx query k ef
                ≡ some (loaded (true, record idx { visited_pool = pool })))
      by_cands [] pool run live = inl (_, run, rw (soft_delete, run, ◌>>=◌) refl)
      by_cands (c ∷ cs) pool run live =
          inr (soft_delete-first c cs pool run live.0.present live.0.undeleted)
