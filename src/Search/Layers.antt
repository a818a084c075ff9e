-- ===== src/Search/Layers.antt =====
-- searchLayer and greedyDescend on a well-formed index: their ends and their results.
use vector_search_engine.Base.{
  ℕ, zero, suc, ◌+◌, ◌≤◌, ◌<◌, min, max, Bool, true, false, List, some, none, ◌≡◌, refl, arith,
  length, All, All-imp, All-zip,
}
use vector_search_engine.Platform.{Platform, IsOrdered}
use vector_search_engine.Heap.{Cand, farther_first}
use vector_search_engine.Heap.Order.{IsQueue}
use vector_search_engine.Visited.{VisitedListPool, acquire, release, reset}
use vector_search_engine.Visited.Refinement.{
  IsPool, acquire-IsPool, release-IsPool, IsValid, visits, reset-IsValid, visits-reset,
  unvisited-reset,
}
use vector_search_engine.Links.{link_count, link_neighbors, degree_cap}
use vector_search_engine.Layer.{Layer, next, loop, start}
use vector_search_engine.Layer.Steps.{Distinct}
use vector_search_engine.Layer.Invariant.{Found, IsLayer}
use vector_search_engine.Layer.Loop.{loop_rule, next-IsLayer, start-IsLayer, work-start}
use vector_search_engine.Greedy.Descent.{descend-Settles}
use vector_search_engine.Index.{Index, max_degree, distance}
use vector_search_engine.Index.Invariant.{IsStore, Node}
use vector_search_engine.Search.{
  link_buffer, admits, search_layer, greedy_descend, descend_levels, ◌>>=◌,
}

-- a candidate that searchLayer may return, with its true distance
pub record Hit {P : Platform} (idx : Index P) (q : List P.F) (level : ℕ) (filter : Bool)
    (c : Cand P) : Type 0 where
  pub exact : c.0 ≡ distance idx q c.1
  pub node : Node idx level c.1
  pub allowed : admits idx filter c.1 ≡ true

-- the result queue and the pool that searchLayer leaves
pub record Finds {P : Platform} (idx : Index P) (q : List P.F) (ef level : ℕ) (filter : Bool)
    (r : List (Cand P) × VisitedListPool) : Type 0 where
  pub hits : All (Hit idx q level filter) r.0
  pub ordered : IsQueue (farther_first P) r.0
  pub distinct : Distinct P r.0
  pub bound : length r.0 ≤ max 1 ef
  pub pool : IsPool idx.max_elements r.1

module _ {P : Platform} (idx : Index P) (o : IsOrdered P) (g : IsStore idx) where
  pub bound : (l i : ℕ) → Node idx l i → i < idx.max_elements
  bound l i nd = omega (arith, g.capacity)

  pub inside : (l i : ℕ) → Node idx l i → All (Node idx l) (link_neighbors idx.links i l)
  inside l i nd = (g.blocks i l nd).inside

  cap-le : (l : ℕ) → degree_cap idx.links l ≤ max_degree
  unfolding degree_cap
  cap-le zero = g.degree
  cap-le (suc l) = g.degree_upper

  pub buffer : (l i : ℕ) → Node idx l i → link_buffer idx l i ≡ link_neighbors idx.links i l
  unfolding link_buffer link_neighbors
  buffer l i nd =
      let fits = (g.blocks i l nd).fits in
      let e : min (link_count idx.links i l) max_degree ≡ link_count idx.links i l =
        omega (arith, cap-le l) in
      rw e

  -- The invariant of the loop of searchLayer, and any other property `Q` that the start has and a
  -- round keeps, hold at its end.
  pub search_layer_rule {κ} :
      (q : List P.F) (entry ef level : ℕ) (filter : Bool) (Q : Layer P → Type κ)
      → let n = idx.max_elements in
        let dist = distance idx q in
        let links = link_buffer idx level in
        let allow = admits idx filter in
        let v = reset (acquire idx.visited_pool).0 in
        let Inv = IsLayer P dist links allow ef n (Node idx level) in
        Node idx level entry
        → (IsValid n v → ((j : ℕ) → visits v j ≡ false) → Q (start P dist links allow ef v entry))
        → ((s t : Layer P) → Inv s → Q s → next P dist links allow ef s ≡ some t → Q t)
        → (t : Layer P) × (loop P dist links allow ef (n + 1) (start P dist links allow ef v entry)
            ≡ some t)
          × (search_layer idx q entry ef level filter
              ≡ some (t.results, release (acquire idx.visited_pool).1 t.visited))
          × Inv t
          × Q t
          × (next P dist links allow ef t ≡ none)
          × IsPool n (acquire idx.visited_pool).1
  unfolding search_layer
  search_layer_rule q entry ef level filter Q nd starts keeps =
      let n = idx.max_elements in
      let v = (acquire idx.visited_pool).0 in
      let (valid, pooled) = acquire-IsPool n idx.visited_pool g.pool in
      let v' = reset v in
      let N = Node idx level in
      let dist = distance idx q in
      let links = link_buffer idx level in
      let allow = admits idx filter in
      let s = start P dist links allow ef v' entry in
      let lt = bound level entry nd in
      let fresh = visits-reset n v valid in
      let valid' = reset-IsValid n v valid in
      let (t, run, (h, q'), ends) =
        loop_rule P dist links allow ef n N (λ s. IsLayer P dist links allow ef n N s × Q s)
          (λ s t hq e.
            let (h', less) =
              next-IsLayer P dist links allow ef n N o (bound level)
                (λ i ni. rw (buffer level i ni) (inside level i ni)) s t hq.0 e in
            ((h', keeps s t hq.0 hq.1 e), less))
          (n + 1) s
          (omega (
            arith,
            work-start P dist links allow ef n N v' entry valid' (fresh entry) nd lt,
            unvisited-reset n v valid,
          ))
          (
            start-IsLayer P dist links allow ef n N v' entry valid' (fresh entry) nd lt,
            starts valid' fresh,
          ) in
      (t, run, rw (run, ◌>>=◌), h, q', ends, pooled)

  -- Where distances are ordered, on a well-formed storage and from an element of the level,
  -- searchLayer returns: with at most max(1, ef) distinct elements of the level that the filter
  -- admits, each with its distance from the query, the farthest on top, and with a pool of valid
  -- visited lists.
  pub search_layer-Finds :
      (q : List P.F) (entry ef level : ℕ) (filter : Bool)
      → Node idx level entry
      → (r : List (Cand P) × VisitedListPool) × (search_layer idx q entry ef level filter ≡ some r)
        × Finds idx q ef level filter r
  search_layer-Finds q entry ef level filter nd =
      let n = idx.max_elements in
      let (t, _, run, h, _, ends, pooled) =
        search_layer_rule q entry ef level filter (λ s. Unit {0}) nd (λ valid fresh. tt)
          (λ s t i u e. tt) in
      let v = (acquire idx.visited_pool).1 in
      (
        (t.results, release v t.visited),
        run,
        record {
          hits =
              All-imp _ (Hit idx q level filter) t.results
                (λ c f. record { exact = f.0.exact; node = f.0.node; allowed = f.1 })
                (All-zip (Found P (distance idx q) (Node idx level) t.visited)
                  (λ c. admits idx filter c.1 ≡ true) t.results h.results h.admitted);
          ordered = h.ordered;
          distinct = h.distinct;
          bound = h.bound;
          pool = release-IsPool n v t.visited pooled h.visited;
        },
      )

  pub greedy_descend-Node :
      (q : List P.F) (entry level : ℕ)
      → Node idx level entry
      → (cur : ℕ) × (greedy_descend idx q entry level ≡ some cur) × Node idx level cur
  unfolding greedy_descend
  greedy_descend-Node q entry level nd =
      let links = λ (id : ℕ). link_neighbors idx.links id level in
      let (w, run, s) =
        descend-Settles P (distance idx q) links idx.max_elements (Node idx level) o (bound level)
          (inside level) entry nd in
      (w.cur, rw (run, ◌>>=◌), s.valid.node)

  pub descend_levels-Node :
      (q : List P.F) (entry bottom k : ℕ)
      → Node idx (bottom + k) entry
      → (cur : ℕ) × (descend_levels idx q entry bottom k ≡ some cur) × Node idx bottom cur
  unfolding descend_levels
  descend_levels-Node q entry bottom zero nd = (entry, refl, (nd.0, omega arith))
  descend_levels-Node q entry bottom (suc k) nd =
      let (cur, run, nc) = greedy_descend-Node q entry (bottom + suc k) nd in
      let (end, run', ne) = descend_levels-Node q cur bottom k (nc.0, omega arith) in
      (end, rw (run, ◌>>=◌) run', ne)
