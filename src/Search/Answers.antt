-- ===== src/Search/Answers.antt =====
-- Index::search on a well-formed index: its end and its results.
use vector_search_engine.Base.{
  ℕ, suc, ◌≤◌, ◌<◌, max, true, false, List, [], ◌∷◌, some, ◌≡◌, ◌≢◌, refl, sym, arith, length,
  length-map, All, All-imp, Pairs, get_or, ltb, ◌==◌, map, reverse_onto, length-reverse_onto,
  All-reverse_onto, Pairs-reverse_onto, Bool-cases, inl, inr, Pairs-imp, All-unit, ==_iff,
}
use vector_search_engine.Platform.{Platform, IsOrdered}
use vector_search_engine.Heap.{Cand, farther_first}
use vector_search_engine.Visited.{VisitedListPool}
use vector_search_engine.Visited.Refinement.{IsPool}
use vector_search_engine.Layer.Steps.{Distinct}
use vector_search_engine.Index.{Index, distance, k_none}
use vector_search_engine.Index.Invariant.{IsGraph}
use vector_search_engine.Search.{SearchResult, trim, unload, query_vector, search, admits, ◌>>=◌}
use vector_search_engine.Search.Layers.{Hit, Finds, search_layer-Finds, descend_levels-Node}

module _ {P : Platform} (idx : Index P) where
  -- a candidate as a result
  abbrev pub answer : Cand P → SearchResult P
  answer c = record {
    label = get_or idx.labels c.1 (record { client_id = 0; label = 0 });
    distance = c.0;
  }

  unload-map :
      (h : List (Cand P)) (acc : List (Cand P))
      → unload idx h (map answer acc) ≡ map answer (reverse_onto h acc)
  unfolding unload
  unload-map [] acc = refl
  unload-map (c ∷ h) acc = unload-map h (c ∷ acc)

  module _ (k : ℕ) where
    length-trim : (h : List (Cand P)) → length (trim idx k h) ≤ k
    unfolding trim
    length-trim [] = omega arith
    length-trim (c ∷ h) = ground (arith, length-trim h)

    pub All-trim : (Q : Cand P → Type 0) (h : List (Cand P)) → All Q h → All Q (trim idx k h)
    unfolding trim
    All-trim Q [] a = tt
    All-trim Q (c ∷ h) a = elim (Bool-cases (ltb k (suc (length h)))) [
      | inl over ↦ rw over (All-trim Q h a.1)
      | inr fits ↦ rw fits a
    ]

    Pairs-trim :
        (R : Cand P → Cand P → Type 0) (h : List (Cand P)) → Pairs R h → Pairs R (trim idx k h)
    unfolding trim
    Pairs-trim R [] a = tt
    Pairs-trim R (c ∷ h) a = elim (Bool-cases (ltb k (suc (length h)))) [
      | inl over ↦ rw over (Pairs-trim R h a.1)
      | inr fits ↦ rw fits a
    ]

-- An element that a search may return, with its distance from the query.
pub record Live {P : Platform} (idx : Index P) (query : List P.F) (c : Cand P) : Type 0 where
  pub exact : c.0 ≡ distance idx (query_vector idx query) c.1
  pub present : c.1 < idx.count
  pub undeleted : get_or idx.deleted c.1 0 ≡ 0

-- What a search returns: at most k live elements, none twice, the nearest first; the index keeps
-- everything but its pool.
pub record Answers {P : Platform} (idx : Index P) (query : List P.F) (k : ℕ)
    (r : List (SearchResult P) × Index P) : Type 0 where
  pub cands : List (Cand P)
  pub results : r.0 ≡ map (answer idx) cands
  pub at_most : length r.0 ≤ k
  pub live : All (Live idx query) cands
  pub nearest_first : Pairs (λ a b. P.flt b.0 a.0 ≡ false) cands
  pub distinct : Distinct P cands
  pub pool : VisitedListPool
  pub kept : r.1 ≡ record idx { visited_pool = pool }
  pub pooled : IsPool idx.max_elements pool

module _ {P : Platform} (idx : Index P) (o : IsOrdered P) (g : IsGraph idx) where
  no_answer : (query : List P.F) (k : ℕ) → Answers idx query k ([], idx)
  no_answer query k = record {
    cands = [];
    results = refl;
    at_most = omega arith;
    live = tt;
    nearest_first = tt;
    distinct = tt;
    pool = idx.visited_pool;
    kept = refl;
    pooled = g.store.pool;
  }

  pub Finds-Answers :
      (query : List P.F) (k ef : ℕ) (r : List (Cand P) × VisitedListPool)
      → Finds idx (query_vector idx query) (max ef k) 0 true r
      → (a : Answers idx query k
          (unload idx (trim idx k r.0) [], record idx { visited_pool = r.1 }))
        × (a.cands ≡ reverse_onto (trim idx k r.0) [])
  unfolding farther_first admits
  Finds-Answers query k ef r f =
      let h = trim idx k r.0 in
      let cs = reverse_onto h [] in
      let near = Pairs-trim idx k _ r.0 f.ordered in
      let apart = Pairs-trim idx k _ r.0 f.distinct in
      (
        record {
          cands = cs;
          results = unload-map idx h [];
          at_most =
              rw (unload-map idx h [], length-map (answer idx) cs, length-reverse_onto h [])
                (omega (arith, length-trim idx k r.0));
          live =
              All-reverse_onto (Live idx query) h []
                (All-trim idx k (Live idx query) r.0 (
                  All-imp (Hit idx (query_vector idx query) 0 true) (Live idx query) r.0
                    (λ c hit. record {
                      exact = hit.exact;
                      present = hit.node.0;
                      undeleted = (==_iff _ 0).0 hit.allowed;
                    })
                    f.hits))
                tt;
          nearest_first =
              Pairs-reverse_onto (λ a b. P.flt a.0 b.0 ≡ false) h [] near tt (All-unit h);
          distinct =
              Pairs-imp (λ a b. b.1 ≢ a.1) (λ a b. a.1 ≢ b.1) cs (λ a b ne e. ne (sym e))
                (Pairs-reverse_onto (λ a b. a.1 ≢ b.1) h [] apart tt (All-unit h));
          pool = r.1;
          kept = refl;
          pooled = f.pool;
        },
        refl,
      )

  -- Where distances are ordered, on a well-formed index a search returns, with at most k distinct
  -- live elements, the nearest first, each with its label and its distance from the (for cosine,
  -- normalised) query; of the index it changes the pool of visited lists alone.
  pub search-Answers :
      (query : List P.F) (k ef : ℕ)
      → (r : List (SearchResult P) × Index P) × (search idx query k ef ≡ some r)
        × Answers idx query k r
  unfolding search
  search-Answers query k ef = elim (Bool-cases (idx.count == 0)) [
    | inl empty ↦ (([], idx), rw empty, no_answer query k)
    | inr some_count ↦ elim (Bool-cases (idx.entry_point == k_none)) [
      | inl no_entry ↦ (([], idx), rw (some_count, no_entry), no_answer query k)
      | inr entry ↦
          let pos : 0 < idx.count = ground arith in
          let (cur, run, nc) =
            descend_levels-Node idx o g.store (query_vector idx query) idx.entry_point 0
              idx.max_level (g.entry pos, omega (arith, g.top pos)) in
          let (r, run', f) =
            search_layer-Finds idx o g.store (query_vector idx query) cur (max ef k) 0 true nc in
          (_, rw (some_count, entry, run, ◌>>=◌, run'), (Finds-Answers query k ef r f).0)
    ]
  ]
