-- ===== src/Threads/Kept.antt =====
-- What the linking of an element and the two delete operations leave as it was: the counter, the
-- capacity and the labels.
use vector_search_engine.Base.{
  ℕ, zero, suc, ◌+◌, ◌-◌, none, some, ◌==◌, ◌≡◌, min, Bool, true, false, subst, if◌then◌else◌, ltb,
  refl, sym, ◌∙◌, arith, Bool-cases, Option-cases, inl, inr,
}
use vector_search_engine.Platform.{Platform}
use vector_search_engine.Index.{Index, Label, k_none, get_data}
use vector_search_engine.Search.{◌>>=◌, descend_levels, search_layer}
use vector_search_engine.Insert.{attach, insert_layers, between, connect_new_element}
use vector_search_engine.Delete.{mark_deleted, unmark_deleted}

-- the members that only addPoint's own steps change
pub record SameSlots {P : Platform} (idx r : Index P) : Type 0 where
  pub count : r.count ≡ idx.count
  pub max_elements : r.max_elements ≡ idx.max_elements
  pub labels : r.labels ≡ idx.labels

-- ... and the label map
pub record Untouched {P : Platform} (idx r : Index P) : Type 0 where
  pub count : r.count ≡ idx.count
  pub max_elements : r.max_elements ≡ idx.max_elements
  pub labels : r.labels ≡ idx.labels
  pub ids : r.label_to_id ≡ idx.label_to_id

pub Untouched-SameSlots : {P : Platform} (idx r : Index P) → Untouched idx r → SameSlots idx r
Untouched-SameSlots idx r h = record {
  count = h.count;
  max_elements = h.max_elements;
  labels = h.labels;
}

pub SameSlots-refl : {P : Platform} (idx : Index P) → SameSlots idx idx
SameSlots-refl idx = record { count = refl; max_elements = refl; labels = refl }

Untouched-refl : {P : Platform} (idx : Index P) → Untouched idx idx
Untouched-refl idx = record { count = refl; max_elements = refl; labels = refl; ids = refl }

pub mark-Untouched :
    {P : Platform} (idx : Index P) (label : Label) → Untouched idx (mark_deleted idx label).1
unfolding mark_deleted
mark-Untouched idx label = record {
  count = ground arith;
  max_elements = ground arith;
  labels = ground arith;
  ids = ground arith;
}

pub unmark-Untouched :
    {P : Platform} (idx : Index P) (label : Label) → Untouched idx (unmark_deleted idx label).1
unfolding unmark_deleted
unmark-Untouched idx label = record {
  count = ground arith;
  max_elements = ground arith;
  labels = ground arith;
  ids = ground arith;
}

insert_layers-Untouched :
    {P : Platform} (l : ℕ) (idx : Index P) (id cur : ℕ) (r : Index P)
    → insert_layers idx id cur l ≡ some r
    → Untouched idx r
unfolding insert_layers
insert_layers-Untouched zero idx id cur r e =
    let q : idx ≡ r = cc in subst (Untouched idx) q (Untouched-refl idx)
insert_layers-Untouched {P} (suc l) idx id cur r e =
    elim (Option-cases (search_layer idx (get_data idx id) cur idx.ef_construction l false)) [
      | inl fails ↦
          let run : insert_layers idx id cur (suc l) ≡ none =
            rw (insert_layers, fails, ◌>>=◌) refl in
          let none_some : none ≡ some r = sym run ∙ e in
          absurd (let q : none ≡ some r = none_some in cc)
      | inr (a, found) ↦
          let out = connect_new_element P (between idx) idx.m id l idx.links a.0 in
          let idx' = record idx { visited_pool = a.1; links = out.1 } in
          let run : insert_layers idx id cur (suc l) ≡ insert_layers idx' id out.0 l =
            rw (insert_layers, found, ◌>>=◌) refl in
          let h = insert_layers-Untouched l idx' id out.0 r (sym run ∙ e) in
          record { count = h.count; max_elements = h.max_elements; labels = h.labels; ids = h.ids }
    ]

raised : {P : Platform} → Bool → Index P → ℕ → ℕ → Index P
raised b idx id level = if b then record idx { entry_point = id; max_level = level } else idx

raised-Untouched :
    {P : Platform} (b : Bool) (idx r : Index P) (id level : ℕ)
    → Untouched idx r
    → Untouched idx (raised b r id level)
unfolding raised
raised-Untouched true idx r id level h = record {
  count = h.count;
  max_elements = h.max_elements;
  labels = h.labels;
  ids = h.ids;
}
raised-Untouched false idx r id level h = h

pub attach-Untouched :
    {P : Platform} (idx : Index P) (id level : ℕ) (r : Index P)
    → attach idx id level ≡ some r
    → Untouched idx r
unfolding attach raised
attach-Untouched idx id level r e =
    let top = idx.max_level in
    elim (Bool-cases (idx.entry_point == k_none)) [
      | inl first ↦
          let run : attach idx id level ≡ some (raised true idx id level) =
            rw (attach, first) refl in
          let q : raised true idx id level ≡ r = cc in
          subst (Untouched idx) q (raised-Untouched true idx idx id level (Untouched-refl idx))
      | inr next ↦
          elim (Option-cases
            (descend_levels idx (get_data idx id) idx.entry_point level (top - level))) [
              | inl fails ↦
                  let run : attach idx id level ≡ none = rw (attach, next, fails, ◌>>=◌) refl in
                  absurd (cc)
              | inr (cur, down) ↦
                  elim (Option-cases (insert_layers idx id cur (min level top + 1))) [
                    | inl fails ↦
                        let run : attach idx id level ≡ none =
                          rw (attach, next, down, ◌>>=◌, fails) refl in
                        absurd (cc)
                    | inr (idx', up) ↦
                        let run : attach idx id level
                            ≡ some (raised (ltb top level) idx' id level) =
                          rw (attach, next, down, ◌>>=◌, up) refl in
                        let q : raised (ltb top level) idx' id level ≡ r = cc in
                        subst (Untouched idx) q (
                          raised-Untouched (ltb top level) idx idx' id level
                            (insert_layers-Untouched (min level top + 1) idx id cur idx' up))
                  ]
            ]
    ]
