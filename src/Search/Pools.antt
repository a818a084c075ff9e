-- ===== src/Search/Pools.antt =====
-- A search finds the same on every pool of valid visited lists, so also on an index that was saved and
-- loaded.
use vector_search_engine.Base.{
  ℕ, ◌+◌, ◌<◌, max, Bool, true, false, List, [], some, ◌≡◌, refl, sym, ap, ◌∙◌, arith, Bool-cases,
  inl, inr, ◌==◌,
}
use vector_search_engine.Platform.{Platform, IsOrdered}
use vector_search_engine.Heap.{Cand}
use vector_search_engine.Visited.{VisitedListPool, acquire, release, reset}
use vector_search_engine.Visited.Refinement.{IsPool, acquire-IsPool, reset-IsValid, visits-reset}
use vector_search_engine.Layer.Marks.{Alike, loop-fresh}
use vector_search_engine.Index.{
  Index, Label, distance, raw_distance, get_data, normalize_in_place, k_none,
}
use vector_search_engine.Index.Invariant.{IsStore, IsGraph, Node}
use vector_search_engine.Search.{
  SearchResult, link_buffer, admits, search_layer, search, descend_levels, greedy_descend,
  query_vector, trim, unload, ◌>>=◌,
}
use vector_search_engine.Search.Layers.{search_layer_rule, descend_levels-Node}

reset-Alike :
    (n : ℕ) (p p' : VisitedListPool)
    → IsPool n p
    → IsPool n p'
    → Alike n (reset (acquire p).0) (reset (acquire p').0)
reset-Alike n p p' h h' =
    let v = (acquire-IsPool n p h).0 in
    let w = (acquire-IsPool n p' h').0 in
    record {
      left = reset-IsValid n _ v;
      right = reset-IsValid n _ w;
      same = λ j. visits-reset n _ v j ∙ sym (visits-reset n _ w j);
    }

module _ {P : Platform} (idx : Index P) (o : IsOrdered P) (g : IsStore idx) (pool : VisitedListPool)
    (h : IsPool idx.max_elements pool) (ids : List (Label × ℕ)) (rng : P.Rng) where
  -- the index with another pool, and other members that a search does not read
  abbrev swapped : Index P
  swapped = record idx { visited_pool = pool; label_to_id = ids; rng = rng }

  search_layer-pool :
      (q : List P.F) (entry ef level : ℕ) (filter : Bool)
      → Node idx level entry
      → (r r' : List (Cand P) × VisitedListPool) × (search_layer idx q entry ef level filter
          ≡ some r)
        × (search_layer swapped q entry ef level filter ≡ some r')
        × (r'.0 ≡ r.0)
  unfolding search_layer distance raw_distance get_data link_buffer admits
  search_layer-pool q entry ef level filter nd =
      let n = idx.max_elements in
      let (t, run, found, _, _, _, _) =
        search_layer_rule idx o g q entry ef level filter (λ s. Unit {0}) nd (λ valid fresh. tt)
          (λ s t i u e. tt) in
      let (w, a, run') =
        loop-fresh P (distance idx q) (link_buffer idx level) (admits idx filter) ef n (n + 1) entry
          _ _ (reset-Alike n idx.visited_pool pool g.pool h) t run in
      (_, (t.results, release (acquire pool).1 w), found, rw (run', ◌>>=◌) refl, refl)

  descend_levels-pool :
      (q : List P.F) (cur bottom k : ℕ)
      → descend_levels swapped q cur bottom k ≡ descend_levels idx q cur bottom k
  unfolding descend_levels greedy_descend distance raw_distance get_data
  descend_levels-pool q cur bottom k = refl

module _ {P : Platform} (idx : Index P) (o : IsOrdered P) (g : IsGraph idx) (pool : VisitedListPool)
    (h : IsPool idx.max_elements pool) (ids : List (Label × ℕ)) (rng : P.Rng) where
  pub search-pool :
      (query : List P.F) (k ef : ℕ)
      → (r r' : List (SearchResult P) × Index P) × (search idx query k ef ≡ some r)
        × (search (record idx { visited_pool = pool; label_to_id = ids; rng = rng }) query k ef
            ≡ some r')
        × (r'.0 ≡ r.0)
  unfolding search query_vector normalize_in_place trim unload
  search-pool query k ef = elim (Bool-cases (idx.count == 0)) [
    | inl empty ↦ (
      ([], idx),
      ([], record idx { visited_pool = pool; label_to_id = ids; rng = rng }),
      rw empty refl,
      rw empty refl,
      refl,
    )
    | inr counted ↦
        let pos : 0 < idx.count = ground arith in
        let q = query_vector idx query in
        let entered : (idx.entry_point == k_none) ≡ false =
          ground (arith, g.entry pos, g.store.capacity, g.store.small) in
        let (cur, run, nc) =
          descend_levels-Node idx o g.store q idx.entry_point 0 idx.max_level
            (g.entry pos, omega (arith, g.top pos)) in
        let (r, r', found, found', same) =
          search_layer-pool idx o g.store pool h ids rng q cur (max ef k) 0 true nc in
        let run' =
          descend_levels-pool idx o g.store pool h ids rng q idx.entry_point 0 idx.max_level
          ∙ run in
        (
          (unload idx (trim idx k r.0) [], record idx { visited_pool = r.1 }),
          (
            unload idx (trim idx k r'.0) [],
            record idx { visited_pool = r'.1; label_to_id = ids; rng = rng },
          ),
          rw (counted, entered, run, ◌>>=◌, found) refl,
          rw (counted, entered, run', ◌>>=◌, found') refl,
          ap (λ h. unload idx (trim idx k h) []) same,
        )
  ]
