-- ===== src/Index/Labels.antt =====
-- The label map of an index: a lookup after an assignment, and its agreement with `labels`.
use vector_search_engine.Base.{
  ℕ, ◌<◌, true, List, [], ◌∷◌, some, if◌then◌else◌, ==_iff, ◌≡◌, ◌↔◌, refl, ap, arith, Bool-cases,
  inl, inr, get_or,
}
use vector_search_engine.Platform.{Platform}
use vector_search_engine.Index.{Index, Label, label_eq, find_id, assign_id}

abbrev pub no_label : Label
no_label = record { client_id = 0; label = 0 }

-- The comparison is equality: the identity of an element is the pair of client and label.
pub label_eq_iff : (a b : Label) → (label_eq a b ≡ true) ↔ (a ≡ b)
unfolding label_eq
label_eq_iff a b = (
  λ h. ground arith,
  λ e. ground (
    arith,
    ==_iff a.client_id b.client_id,
    ==_iff a.label b.label,
    ap (λ (l : Label). l.client_id) e,
    ap (λ (l : Label). l.label) e,
  ),
)

-- After an assignment to a label the label map finds the new id under that label, and under every
-- other label what it found before.
pub find_id-assign_id :
    (l k : Label) (id : ℕ) (es : List (Label × ℕ))
    → find_id k (assign_id l id es) ≡ (if label_eq l k then some id else find_id k es)
unfolding find_id assign_id
find_id-assign_id l k id [] = refl
find_id-assign_id l k id ((j, old) ∷ es) = elim (Bool-cases (label_eq j l)) [
  | inl same ↦ rw (same, (label_eq_iff j l).0 same) (ground arith)
  | inr other ↦
      rw (other, find_id-assign_id l k id es)
        (ground (arith, label_eq_iff j k, label_eq_iff l k, label_eq_iff j l))
]

-- the map and the array of labels say the same
pub record IsLabelled {P : Platform} (idx : Index P) : Type 0 where
  pub known :
      (l : Label) (id : ℕ)
      → find_id l idx.label_to_id ≡ some id
      → (id < idx.count) × (get_or idx.labels id no_label ≡ l)
  pub listed :
      (id : ℕ) → id < idx.count → find_id (get_or idx.labels id no_label) idx.label_to_id ≡ some id
