-- ===== src/Search/Exhaustive.antt =====
-- searchLayer and search with an ef of at least the number of elements: nothing is missed that links
-- lead to, so among those elements the answer is that of a search through all of them.
use vector_search_engine.Base.{
  ℕ, suc, ◌≤◌, ◌<◌, max, Bool, true, false, ◌||◌, List, [], ◌∷◌, length, ltb, has, some, ◌≡◌, refl,
  sym, ap, subst, ◌∙◌, arith, All, All-imp, All-reverse_onto, reverse_onto, get_or, Bool-cases, inl,
  inr, ◌⊎◌, ◌==◌, ==_iff, length-reverse_onto,
}
use vector_search_engine.Platform.{Platform, IsOrdered}
use vector_search_engine.Heap.{Cand, farther_first}
use vector_search_engine.Heap.Order.{IsQueue}
use vector_search_engine.Visited.{VisitedListPool}
use vector_search_engine.Visited.Refinement.{visits}
use vector_search_engine.Layer.Exhaustive.{Linked, Gathers, next-Scanned}
use vector_search_engine.Layer.Room.{ids}
use vector_search_engine.Layer.Complete.{start-Scanned, start-entry, results-Linked}
use vector_search_engine.Index.{Index, distance, k_none}
use vector_search_engine.Index.Invariant.{IsStore, IsGraph, Node}
use vector_search_engine.Search.{
  SearchResult, link_buffer, admits, search_layer, search, descend_levels, query_vector, trim,
  ◌>>=◌,
}
use vector_search_engine.Search.Layers.{
  search_layer_rule, search_layer-Finds, descend_levels-Node, bound, inside, buffer,
}
use vector_search_engine.Search.Answers.{Answers, Finds-Answers, All-trim}

module _ {P : Platform} (idx : Index P) (o : IsOrdered P) (g : IsStore idx) where
  pub search_layer-Linked :
      (q : List P.F) (entry ef level : ℕ) (filter : Bool)
      → Node idx level entry
      → idx.count ≤ ef
      → (j : ℕ) → Linked (link_buffer idx level) entry j
      → admits idx filter j ≡ true
      → (r : List (Cand P) × VisitedListPool) × (search_layer idx q entry ef level filter ≡ some r)
        × (has j (ids r.0) ≡ true)
  search_layer-Linked q entry ef level filter nd enough j l a =
      let n = idx.max_elements in
      let N = Node idx level in
      let dist = distance idx q in
      let links = link_buffer idx level in
      let allow = admits idx filter in
      let few : (i : ℕ) → N i → i < idx.count = λ i h. h.0 in
      let bounds : (i : ℕ) → N i → i < n = bound idx o g level in
      let leads : (i : ℕ) → N i → All N (links i) =
        λ i ni. rw (buffer idx o g level i ni) (inside idx o g level i ni) in
      let (t, _, run, h, (s, v), ends, _) =
        search_layer_rule idx o g q entry ef level filter
          (λ s.
            Gathers P dist links allow ef n N idx.count enough few (λ j. false ≡ true) s
            × (visits s.visited entry ≡ true))
          nd
          (λ valid fresh. (
            start-Scanned P dist links allow ef n N idx.count enough few _ entry valid fresh
                (bounds entry nd),
            start-entry P dist links allow ef n N idx.count enough few _ entry valid fresh
                (bounds entry nd),
          ))
          (λ s t h gv e.
            let (s', keep) =
              next-Scanned P dist links allow ef n N idx.count enough few o bounds leads s t h gv.0
                e in
            (s', keep entry gv.1)) in
      (
        _,
        run,
        results-Linked P dist links allow ef n N idx.count enough few leads entry nd t h s v ends j
            l a,
      )

module _ {P : Platform} (idx : Index P) (k : ℕ) where
  length-trim_full : (h : List (Cand P)) → k ≤ length h → length (trim idx k h) ≡ k
  unfolding trim
  length-trim_full [] le = omega arith
  length-trim_full (c ∷ h) le = elim (Bool-cases (ltb k (suc (length h)))) [
    | inl over ↦ rw over (length-trim_full h (ground arith))
    | inr fits ↦ rw fits (ground arith)
  ]

  -- an element is among the candidates, or there are k of them and none is farther than it
  abbrev pub Reported : (ℕ → P.F) → List (Cand P) → ℕ → Type 0
  Reported dist cs j =
      (has j (ids cs) ≡ true) ⊎ (length cs ≡ k) × All (λ c. P.flt (dist j) c.0 ≡ false) cs

  trim-Reported :
      (dist : ℕ → P.F) (h : List (Cand P)) (j : ℕ)
      → IsQueue (farther_first P) h
      → All (λ c. c.0 ≡ dist c.1) h
      → has j (ids h) ≡ true
      → Reported dist (trim idx k h) j
  unfolding trim farther_first
  trim-Reported dist [] j q e m = absurd (ground arith)
  trim-Reported dist (c ∷ h) j q e m = elim (Bool-cases (ltb k (suc (length h)))) [
    | inr fits ↦ rw fits (inl m)
    | inl over ↦ elim (Bool-cases (c.1 == j)) [
      | inr other ↦ rw over (trim-Reported dist h j q.1 e.1 (ground (arith, other)))
      | inl same ↦
          let d : c.0 ≡ dist j = e.0 ∙ ap dist ((==_iff c.1 j).0 same) in
          rw over (
            inr (
              length-trim_full h (ground arith),
              rw (← d) (All-trim idx k (λ y. P.flt c.0 y.0 ≡ false) h q.0),
            ))
    ]
  ]

  has-reverse_onto :
      (h acc : List (Cand P)) (j : ℕ)
      → has j (ids (reverse_onto h acc)) ≡ (has j (ids h) || has j (ids acc))
  has-reverse_onto [] acc j = refl
  has-reverse_onto (c ∷ h) acc j = ground (arith, has-reverse_onto h (c ∷ acc) j)

  reverse-Reported :
      (dist : ℕ → P.F) (h : List (Cand P)) (j : ℕ)
      → Reported dist h j
      → Reported dist (reverse_onto h []) j
  reverse-Reported dist h j (inl m) = inl (ground (arith, has-reverse_onto h [] j))
  reverse-Reported dist h j (inr (size, near)) = inr (
    length-reverse_onto h [] ∙ omega arith,
    All-reverse_onto (λ c. P.flt (dist j) c.0 ≡ false) h [] near tt,
  )

module _ {P : Platform} (idx : Index P) (o : IsOrdered P) (g : IsGraph idx) where
  -- Where distances are ordered, on a well-formed index with at least one element and a max(ef,
  -- k) of at least the number of elements, a search returns, and it misses no live element that
  -- links of layer 0 lead to from where the descent through the upper levels ends: the element is
  -- among the results, or these are k and none of them is farther from the query than it.
  pub search-Linked :
      (query : List P.F) (k ef cur j : ℕ)
      → 0 < idx.count
      → idx.count ≤ max ef k
      → descend_levels idx (query_vector idx query) idx.entry_point 0 idx.max_level ≡ some cur
      → Linked (link_buffer idx 0) cur j
      → get_or idx.deleted j 0 ≡ 0
      → (r : List (SearchResult P) × Index P) × (a : Answers idx query k r) × (search idx query k ef
          ≡ some r)
        × Reported idx k (distance idx (query_vector idx query)) a.cands j
  unfolding search admits
  search-Linked query k ef cur j pos enough down l live =
      let q = query_vector idx query in
      let counted : (idx.count == 0) ≡ false = ground arith in
      let entered : (idx.entry_point == k_none) ≡ false =
        ground (arith, g.entry pos, g.store.capacity, g.store.small) in
      let (cur', run, nc) =
        descend_levels-Node idx o g.store q idx.entry_point 0 idx.max_level
          (g.entry pos, omega (arith, g.top pos)) in
      let there : cur' ≡ cur = cc in
      let nd = subst (Node idx 0) there nc in
      let (r, run', f) = search_layer-Finds idx o g.store q cur (max ef k) 0 true nd in
      let (r', run'', found) =
        search_layer-Linked idx o g.store q cur (max ef k) 0 true nd enough j l (ground arith) in
      let same : r' ≡ r = cc in
      let (a, listed) = Finds-Answers idx o g query k ef r f in
      (
        _,
        a,
        rw (counted, entered, down, ◌>>=◌, run') refl,
        rw listed (
            reverse-Reported idx k (distance idx q) (trim idx k r.0) j (
              trim-Reported idx k (distance idx q) r.0 j f.ordered
                (All-imp _ (λ c. c.0 ≡ distance idx q c.1) r.0 (λ c hit. hit.exact) f.hits)
                (ap (λ r. has j (ids r.0)) (sym same) ∙ found))),
      )
