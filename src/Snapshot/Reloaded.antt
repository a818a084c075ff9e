-- ===== src/Snapshot/Reloaded.antt =====
-- The index that load gives back: its label map, and that it is in order.
use vector_search_engine.Base.{
  ℕ, ◌+◌, ◌≤◌, ◌<◌, [], length, get_or, some, Option-cases, inl, inr, ◌≡◌, ap, sym, ◌∙◌, subst,
  arith,
}
use vector_search_engine.Platform.{Platform}
use vector_search_engine.Visited.{new_pool}
use vector_search_engine.Visited.Refinement.{new_pool-IsPool}
use vector_search_engine.Index.{Index, Label, find_id}
use vector_search_engine.Index.Labels.{no_label}
use vector_search_engine.Insert.Growth.{with_pool}
use vector_search_engine.Lifetime.{IsIndex}
use vector_search_engine.Snapshot.Labels.{index_labels-at, index_labels-none}
use vector_search_engine.Snapshot.Conditions.{reloaded}

module _ {P : Platform} (idx : Index P) (h : IsIndex idx) where
  slots : idx.count ≤ length idx.labels
  slots = omega (arith, h.graph.store.sized.labels, h.graph.store.capacity)

  distinct :
      (a b : ℕ)
      → a < idx.count
      → b < idx.count
      → get_or idx.labels a no_label ≡ get_or idx.labels b no_label
      → a ≡ b
  distinct a b la lb same =
      let e : some a ≡ some b =
        sym (h.labelled.listed a la)
        ∙ ap (λ l. find_id l idx.label_to_id) same
        ∙ h.labelled.listed b lb in
      cc

  find_id-at :
      (j : ℕ)
      → j < idx.count
      → find_id (get_or idx.labels j no_label) (reloaded idx).label_to_id ≡ some j
  find_id-at j lt =
      index_labels-at idx.count 0 idx.labels [] j lt (omega (arith, slots))
        (omega (arith, h.graph.store.capacity, h.graph.store.small)) distinct
      ∙ ap some (let e : 0 + j ≡ j = omega arith in e)

  -- The label map that load builds finds what the one of the saved index found.
  pub find_id-reloaded :
      (l : Label) → find_id l (reloaded idx).label_to_id ≡ find_id l idx.label_to_id
  find_id-reloaded l = elim (Option-cases (find_id l idx.label_to_id)) [
    | inl unknown ↦
        index_labels-none idx.count idx.labels l (λ j lt lt' same.
          let e : find_id l idx.label_to_id ≡ some j =
            subst (λ k. find_id k idx.label_to_id ≡ some j) same (h.labelled.listed j lt) in
          cc)
        ∙ sym unknown
    | inr (j, e) ↦
        let (lt, same) = h.labelled.known l j e in
        subst (λ k. find_id k (reloaded idx).label_to_id ≡ some j) same (find_id-at j lt) ∙ sym e
  ]

  -- If an index is in order (its graph, its label map and its count of deleted elements), so is
  -- what load gives for its snapshot, with the label map that load makes.
  pub reloaded-IsIndex : IsIndex (reloaded idx)
  reloaded-IsIndex =
      let g = h.graph in
      record {
        graph = record {
          store =
              let s =
                with_pool idx (new_pool 1 idx.max_elements) g.store
                  (new_pool-IsPool 1 idx.max_elements) in
              record {
                shaped = s.shaped;
                degree = s.degree;
                degree_upper = s.degree_upper;
                sized = record {
                  vectors = s.sized.vectors;
                  layer0 = s.sized.layer0;
                  upper = s.sized.upper;
                  levels = s.sized.levels;
                  labels = s.sized.labels;
                  deleted = s.sized.deleted;
                };
                capacity = s.capacity;
                small = s.small;
                blocks = λ id l nd.
                    let b = s.blocks id l nd in
                    record { room = b.room; fits = b.fits; inside = b.inside };
                unused = s.unused;
                pool = s.pool;
              };
          entry = g.entry;
          top = g.top;
          none_yet = g.none_yet;
        };
        labelled = record {
          known = λ l id e. h.labelled.known l id (sym (find_id-reloaded l) ∙ e);
          listed =
              λ id lt. find_id-reloaded (get_or idx.labels id no_label) ∙ h.labelled.listed id lt;
        };
        counted = record {
          counted = h.counted.counted;
          flags = h.counted.flags;
          small = h.counted.small;
        };
      }
