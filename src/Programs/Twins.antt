-- ===== src/Programs/Twins.antt =====
-- Searches of two indexes that differ in their pool, their label map and their generator alone.
use vector_search_engine.Base.{
  ℕ, ◌≤◌, false, List, [], ◌∷◌, some, length, map, Pairs, All-map, ◌≡◌, ap, sym, subst, ◌∙◌,
}
use vector_search_engine.Platform.{Platform, IsOrdered}
use vector_search_engine.Visited.{VisitedListPool}
use vector_search_engine.Visited.Refinement.{IsPool}
use vector_search_engine.Heap.{Cand}
use vector_search_engine.Index.{Index, Label}
use vector_search_engine.Search.{SearchResult, search}
use vector_search_engine.Search.Answers.{answer, search-Answers}
use vector_search_engine.Search.Pools.{search-pool}
use vector_search_engine.Lifetime.{IsIndex}
use vector_search_engine.Lifetime.Preservation.{repool-IsIndex}

module _ {P : Platform} (o : IsOrdered P) (idx : Index P) (h : IsIndex idx) (ids : List (Label × ℕ))
    (rng : P.Rng) (pool : VisitedListPool)
    (h' : IsIndex (record idx { label_to_id = ids; rng = rng; visited_pool = pool })) where
  abbrev pub this : VisitedListPool → Index P
  this p = record idx { visited_pool = p }

  abbrev pub that : VisitedListPool → Index P
  that p = record idx { label_to_id = ids; rng = rng; visited_pool = p }

  ranked :
      (cs : List (Cand P))
      → Pairs (λ x y. P.flt y.0 x.0 ≡ false) cs
      → Pairs (λ x y. P.flt y.distance x.distance ≡ false) (map (answer idx) cs)
  ranked [] k = tt
  ranked (c ∷ cs) k =
      (All-map (answer idx) (λ y. P.flt y.distance c.0 ≡ false) cs k.0, ranked cs k.1)

  -- one search of both, with any pools of valid lists: the same at most k results
  pub same_answers :
      (query : List P.F) (k ef : ℕ) (p p' : VisitedListPool)
      → IsPool idx.max_elements p
      → IsPool idx.max_elements p'
      → (rs : List (SearchResult P)) × (q : VisitedListPool) × (q' : VisitedListPool) × (search
            (this p)
            query
            k
            ef
          ≡ some (rs, this q))
        × (search (that p') query k ef ≡ some (rs, that q'))
        × IsPool idx.max_elements q
        × IsPool idx.max_elements q'
        × (length rs ≤ k)
        × Pairs (λ x y. P.flt y.distance x.distance ≡ false) rs
  same_answers query k ef p p' hp hp' =
      let g = (repool-IsIndex idx o h p hp).graph in
      let g' = (repool-IsIndex (that pool) o h' p' hp').graph in
      let (r, run, a) = search-Answers (this p) o g query k ef in
      let (r', run', a') = search-Answers (that p') o g' query k ef in
      let (s, s', srun, srun', same) = search-pool (this p) o g p' hp' ids rng query k ef in
      let e : r ≡ s = cc in
      let e' : r' ≡ s' = cc in
      let answers : r'.0 ≡ r.0 = ap (λ x. x.0) e' ∙ same ∙ ap (λ x. x.0) (sym e) in
      (
        r.0,
        a.pool,
        a'.pool,
        run ∙ ap (λ x. some (r.0, x)) a.kept,
        run' ∙ (λ i. some (answers i, a'.kept i)),
        a.pooled,
        a'.pooled,
        a.at_most,
        subst (Pairs (λ x y. P.flt y.distance x.distance ≡ false)) (sym a.results)
            (ranked a.cands a.nearest_first),
      )
