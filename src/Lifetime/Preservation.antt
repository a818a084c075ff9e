-- ===== src/Lifetime/Preservation.antt =====
-- The index in order after each operation of hnsw::Index, after any sequence of them, and after
-- the constructor.
use vector_search_engine.Base.{
  ℕ, suc, ◌+◌, ◌-◌, ◌*◌, ◌^◌, ◌<◌, List, none, some, ◌≡◌, sym, ◌∙◌, inl, inr, subst, arith,
  length-set, set,
}
use vector_search_engine.Platform.{Platform, IsOrdered}
use vector_search_engine.Result.{Result}
use vector_search_engine.Visited.{VisitedListPool}
use vector_search_engine.Visited.Refinement.{IsPool}
use vector_search_engine.Index.{Index, Label, Space, find_id, initial_index}
use vector_search_engine.Index.Invariant.{IsGraph}
use vector_search_engine.Index.Construction.{Accepts, initial-IsGraph}
use vector_search_engine.Search.{SearchResult, search}
use vector_search_engine.Search.Answers.{search-Answers}
use vector_search_engine.Insert.{add_point}
use vector_search_engine.Insert.Growth.{with_pool}
use vector_search_engine.Insert.Outcome.{Added, Outcome, add_point-Outcome}
use vector_search_engine.Insert.Labelled.{Added-IsLabelled}
use vector_search_engine.Delete.{mark_deleted, unmark_deleted}
use vector_search_engine.Delete.Flags.{
  IsCounted, Names, flag, flagged-next, flagged-zero, mark-IsCounted, unmark-IsCounted,
}
use vector_search_engine.Delete.Graph.{reflag-IsGraph}
use vector_search_engine.Delete.Undo.{mark-cases, unmark-cases}
use vector_search_engine.Lifetime.{
  IsIndex, Step, adds, marks, unmarks, searches, Reaches, here, later,
}

module _ {P : Platform} (idx : Index P) (o : IsOrdered P) (h : IsIndex idx) where
  Added-IsIndex :
      (vec : List P.F) (label : Label) (r : Index P)
      → IsGraph r
      → find_id label idx.label_to_id ≡ none
      → idx.count < idx.max_elements
      → Added idx vec label r
      → IsIndex r
  Added-IsIndex vec label r g free space a =
      let sized = h.graph.store.sized in
      let next : idx.count + 1 ≡ suc idx.count = omega arith in
      record {
        graph = g;
        labelled = Added-IsLabelled idx r vec label h.labelled (omega (arith, sized.labels)) free a;
        counted = record {
          counted =
              rw (a.num_deleted, a.count, a.deleted, next)
                (h.counted.counted
                  ∙ sym (flagged-next idx.count idx.deleted (omega (arith, sized.deleted))));
          flags = rw (a.count, a.deleted, length-set) (omega (arith, sized.deleted));
          small = rw a.count (omega (arith, h.graph.store.small));
        };
      }

  Outcome-IsIndex :
      (vec : List P.F) (label : Label) (r : Result ℕ × Index P)
      → IsGraph r.1
      → Outcome idx vec label r
      → IsIndex r.1
  Outcome-IsIndex vec label r g out = elim out [
    | inl (j, taken, e) ↦ subst (λ s. IsIndex s.1) (sym e) h
    | inr (inl (free, full, e)) ↦ subst (λ s. IsIndex s.1) (sym e) h
    | inr (inr (free, space, e, a)) ↦ Added-IsIndex vec label r.1 g free space a
  ]

  add_point-IsIndex :
      (vec : List P.F) (label : Label) (r : Result ℕ × Index P)
      → add_point idx vec label ≡ some r
      → IsIndex r.1
  add_point-IsIndex vec label r run =
      let (r', run', g, out) = add_point-Outcome idx vec label o h.graph in
      let same : r' ≡ r = cc in subst (λ s. IsIndex s.1) same (Outcome-IsIndex vec label r' g out)

  reflag-IsIndex :
      (label : Label) (id v k : ℕ) (n : Names idx label id)
      → IsCounted (flag idx label id n h.counted v k)
      → IsIndex (flag idx label id n h.counted v k)
  reflag-IsIndex label id v k n c = record {
    graph = reflag-IsGraph idx (set idx.deleted id v) k (length-set idx.deleted id v) h.graph;
    labelled = record { known = h.labelled.known; listed = h.labelled.listed };
    counted = c;
  }

  mark_deleted-IsIndex : (label : Label) → IsIndex (mark_deleted idx label).1
  mark_deleted-IsIndex label = elim (mark-cases idx label h.labelled h.counted) [
    | inl e ↦ rw e h
    | inr (id, n, z, e) ↦ rw e (
        reflag-IsIndex label id 1 (idx.num_deleted + 1) n
          (mark-IsCounted idx label id n h.counted z))
  ]

  unmark_deleted-IsIndex : (label : Label) → IsIndex (unmark_deleted idx label).1
  unmark_deleted-IsIndex label = elim (unmark-cases idx label h.labelled h.counted) [
    | inl e ↦ rw e h
    | inr (id, n, z, e) ↦ rw e (
        reflag-IsIndex label id 0 (idx.num_deleted - 1) n
          (unmark-IsCounted idx label id n h.counted z))
  ]

  pub repool-IsIndex :
      (pool : VisitedListPool)
      → IsPool idx.max_elements pool
      → IsIndex (record idx { visited_pool = pool })
  repool-IsIndex pool p = record {
    graph = record {
      store = with_pool idx pool h.graph.store p;
      entry = h.graph.entry;
      top = h.graph.top;
      none_yet = h.graph.none_yet;
    };
    labelled = record { known = h.labelled.known; listed = h.labelled.listed };
    counted = record {
      counted = h.counted.counted;
      flags = h.counted.flags;
      small = h.counted.small;
    };
  }

  search-IsIndex :
      (query : List P.F) (k ef : ℕ) (r : List (SearchResult P) × Index P)
      → search idx query k ef ≡ some r
      → IsIndex r.1
  search-IsIndex query k ef r run =
      let (r', run', a) = search-Answers idx o h.graph query k ef in
      let same : r' ≡ r = cc in
      subst (λ s. IsIndex s.1) same (rw a.kept (repool-IsIndex a.pool a.pooled))

  -- One call of addPoint, markDeleted, unmarkDeleted or search, whether it succeeds or not, leaves
  -- an index in order.
  pub Step-IsIndex : (idx' : Index P) → Step idx idx' → IsIndex idx'
  Step-IsIndex _ (adds vec label r run) = add_point-IsIndex vec label r run
  Step-IsIndex _ (marks label) = mark_deleted-IsIndex label
  Step-IsIndex _ (unmarks label) = unmark_deleted-IsIndex label
  Step-IsIndex _ (searches query k ef r run) = search-IsIndex query k ef r run

module _ {P : Platform} (o : IsOrdered P) (start : Index P) (h : IsIndex start) where
  -- Where distances are ordered, from an index in order any sequence of calls of addPoint,
  -- markDeleted, unmarkDeleted and search, successful or not, leads to an index in order: its
  -- links stay inside the arrays and lead to elements of their level, its label map and its array
  -- of labels agree, and its counter counts the deletion flags.
  pub Reaches-IsIndex : (idx : Index P) → Reaches start idx → IsIndex idx
  Reaches-IsIndex _ here = h
  Reaches-IsIndex _ (later {a} {b} r s) = Step-IsIndex a o (Reaches-IsIndex a r) b s

-- The index that an accepted call of the constructor with M below 2 ^ 63 and fewer than 2 ^ 32
-- slots, of fewer than 2 ^ 64 floats, builds is in order.
pub initial-IsIndex :
    (P : Platform) (space : Space) (dim max_elements m ef_construction seed : ℕ)
    → Accepts P space dim max_elements m ef_construction seed
    → m < 2 ^ 63
    → max_elements < 2 ^ 32
    → max_elements * dim < 2 ^ 64
    → IsIndex (initial_index P space dim max_elements m ef_construction seed)
unfolding initial_index
initial-IsIndex P space dim max_elements m ef_construction seed a no_wrap small room =
    let (g, l) =
      initial-IsGraph P space dim max_elements m ef_construction seed a no_wrap small room in
    record {
      graph = g;
      labelled = l;
      counted = record { counted = sym (flagged-zero _); flags = omega arith; small = omega arith };
    }
