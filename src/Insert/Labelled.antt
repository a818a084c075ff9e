-- ===== src/Insert/Labelled.antt =====
-- The label map and the labels after an element was added.
use vector_search_engine.Base.{
  ℕ, ◌+◌, ◌<◌, List, none, some, if◌then◌else◌, ltb, ◌≡◌, refl, sym, ◌∙◌, arith, Bool-cases, inl,
  inr, length, get_or, get_or-set_self, get_or-set_ne, subst,
}
use vector_search_engine.Platform.{Platform}
use vector_search_engine.Index.{Index, Label, label_eq, find_id}
use vector_search_engine.Index.Labels.{IsLabelled, no_label, label_eq_iff, find_id-assign_id}
use vector_search_engine.Insert.Outcome.{Added}

module _ {P : Platform} (idx r : Index P) (vec : List P.F) (label : Label) (h : IsLabelled idx)
    (size : idx.count < length idx.labels) (free : find_id label idx.label_to_id ≡ none)
    (a : Added idx vec label r) where
  find-added :
      (l : Label)
      → find_id l r.label_to_id
        ≡ (if label_eq label l then some idx.count else find_id l idx.label_to_id)
  find-added l = rw a.ids (find_id-assign_id label l idx.count idx.label_to_id)

  label-new : get_or r.labels idx.count no_label ≡ label
  label-new = rw a.labels (get_or-set_self idx.labels idx.count label no_label size)

  label-old :
      (id : ℕ) → id < idx.count → get_or r.labels id no_label ≡ get_or idx.labels id no_label
  label-old id lt =
      rw a.labels (get_or-set_ne idx.labels idx.count id label no_label (λ e. omega arith))

  pub Added-IsLabelled : IsLabelled r
  Added-IsLabelled = record {
    known = λ l id e. elim (Bool-cases (label_eq label l)) [
      | inl same ↦
          let c : some idx.count ≡ some id = sym (rw same at (find-added l)) ∙ e in
          let i : idx.count ≡ id = cc in
          (rw (a.count, ← i) (omega arith), rw (← i) (label-new ∙ (label_eq_iff label l).0 same))
      | inr other ↦
          let (lt, k) = h.known l id (sym (rw other at (find-added l)) ∙ e) in
          (rw a.count (omega arith), label-old id lt ∙ k)
    ];
    listed = λ id lt. elim (Bool-cases (ltb id idx.count)) [
      | inl old ↦
          let below : id < idx.count = ground arith in
          let f = h.listed id below in
          rw (label-old id below) (
            find-added (get_or idx.labels id no_label)
            ∙ (elim (Bool-cases (label_eq label (get_or idx.labels id no_label))) [
              | inl same ↦
                  let e = (label_eq_iff label (get_or idx.labels id no_label)).0 same in
                  let taken : find_id label idx.label_to_id ≡ some id =
                    subst (λ l. find_id l idx.label_to_id ≡ some id) (sym e) f in
                  cc
              | inr other ↦ rw other f
            ]))
      | inr new ↦
          let e : idx.count ≡ id =
            let lt' : id < idx.count + 1 = rw a.count at lt in ground arith in
          rw (← e, label-new) (find-added label ∙ rw ((label_eq_iff label label).1 refl))
    ];
  }
