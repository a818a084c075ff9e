-- ===== src/Insert/Outcome.antt =====
-- Index::addPoint on a well-formed index: its three outcomes, and the index afterwards.
use vector_search_engine.Base.{
  ℕ, ◌+◌, ◌-◌, ◌*◌, ◌%◌, ◌^◌, ◌≤◌, ◌<◌, List, some, none, set, leb, ◌==◌, ◌≡◌, refl, sym, ◌∙◌, ◌⊎◌,
  arith, Bool-cases, Option-cases, inl, inr, subst,
}
use vector_search_engine.Platform.{Platform, IsOrdered}
use vector_search_engine.Result.{Result, ok, throw}
use vector_search_engine.Insert.Beyond.{assign_row-beyond}
use vector_search_engine.Links.{Links}
use vector_search_engine.Links.Beyond.{SameBeyond, SameBeyond-trans}
use vector_search_engine.Index.{Index, Label, find_id, assign_id}
use vector_search_engine.Index.Invariant.{IsGraph}
use vector_search_engine.Search.{◌>>=◌}
use vector_search_engine.Insert.{add_point, allocate, random_level, store, stored_vector}
use vector_search_engine.Insert.Allocation.{
  allocate-IsStore, id-count, count-allocate, level-new, level-old, links-allocate,
}
use vector_search_engine.Insert.Growth.{Regraphs, Attached, attach-first, attach-next}

-- the index after an element was added, apart from its graph
pub record Added {P : Platform} (idx : Index P) (vec : List P.F) (label : Label) (r : Index P)
    : Type 0 where
  pub count : r.count ≡ idx.count + 1
  pub labels : r.labels ≡ set idx.labels idx.count label
  pub ids : r.label_to_id ≡ assign_id label idx.count idx.label_to_id
  pub deleted : r.deleted ≡ set idx.deleted idx.count 0
  pub num_deleted : r.num_deleted ≡ idx.num_deleted
  pub vectors : r.vectors ≡ store idx.vectors (idx.count * idx.dim) (stored_vector idx vec)
  pub dim : r.dim ≡ idx.dim
  pub max_elements : r.max_elements ≡ idx.max_elements
  pub level : ℕ
  pub levels : r.levels ≡ set idx.levels idx.count level
  pub beyond : SameBeyond (idx.count + 1) idx.links r.links
  -- the members that the constructor sets
  pub space : r.space ≡ idx.space
  pub m : r.m ≡ idx.m
  pub ef_construction : r.ef_construction ≡ idx.ef_construction
  pub level_mult : r.level_mult ≡ idx.level_mult

-- The three ways in which addPoint ends: the label is taken, the index is full, or the element is
-- added under the next id. The first two leave the index as it was.
abbrev pub Outcome : {P : Platform} → Index P → List P.F → Label → Result ℕ × Index P → Type 0
Outcome idx vec label r =
    ((j : ℕ) × (find_id label idx.label_to_id ≡ some j)
      × (r ≡ (throw "duplicate label; use updatePoint or a new label", idx)))
    ⊎ (find_id label idx.label_to_id ≡ none)
      × (idx.count ≡ idx.max_elements)
      × (r ≡ (throw "index is full: raise maxElements", idx))
    ⊎ (find_id label idx.label_to_id ≡ none)
      × (idx.count < idx.max_elements)
      × (r.0 ≡ ok idx.count)
      × Added idx vec label r.1

module _ {P : Platform} (idx : Index P) (vec : List P.F) (label : Label) (o : IsOrdered P)
    (g : IsGraph idx) where
  abbrev idx' : Index P
  idx' = allocate idx vec label

  entry-allocate : (idx'.entry_point ≡ idx.entry_point) × (idx'.max_level ≡ idx.max_level)
  unfolding allocate
  entry-allocate = (refl, refl)

  attached : idx.count < idx.max_elements → Attached idx' idx.count (random_level idx).0
  attached space =
      let h = allocate-IsStore idx vec label g.store space in
      let new = level-new idx vec label g.store space in
      let lt : idx.count < idx'.count = omega (arith, count-allocate idx vec label g.store space) in
      elim (Bool-cases (idx.count == 0)) [
        | inl empty ↦
            attach-first idx' idx.count o h lt (random_level idx).0 (omega (arith, new))
              (entry-allocate.0 ∙ g.none_yet (ground arith))
        | inr full ↦
            let pos : 0 < idx.count = ground arith in
            attach-next idx' idx.count o h lt (random_level idx).0 (sym new)
              (rw entry-allocate.0 (omega (arith, g.entry pos, lt)))
              (rw (entry-allocate.0, entry-allocate.1)
                (rw (level-old idx vec label g.store space idx.entry_point (g.entry pos))
                  (g.top pos)))
      ]

  allocated-beyond :
      idx.count < idx.max_elements
      → (lk : Links) → SameBeyond idx'.count idx'.links lk
      → SameBeyond (idx.count + 1) idx.links lk
  allocated-beyond space lk b =
      let n = idx.count + 1 in
      let row : SameBeyond n idx.links idx'.links =
        rw (links-allocate idx vec label g.store space)
          (assign_row-beyond n idx.links idx.count (random_level idx).0 (omega arith)) in
      SameBeyond-trans row
        (subst (λ k. SameBeyond k idx'.links lk) (count-allocate idx vec label g.store space) b)

  allocated-Added :
      idx.count < idx.max_elements → (r : Index P) → Regraphs idx' r → Added idx vec label r
  unfolding allocate
  allocated-Added space r h =
      let id = id-count idx vec label g.store space in
      rw h.kept record {
        count = omega (arith, g.store.small);
        labels = rw id;
        ids = rw id;
        deleted = rw id;
        num_deleted = refl;
        vectors = rw id;
        dim = refl;
        max_elements = refl;
        level = (random_level idx).0;
        levels = rw id;
        beyond = allocated-beyond space h.links h.beyond;
        space = refl;
        m = refl;
        ef_construction = refl;
        level_mult = refl;
      }

  -- Where distances are ordered, on a well-formed index addPoint ends, in one of three ways: it
  -- throws for a label that is taken or for a full index, and leaves the index as it was, or it
  -- returns the next id with the element added. The index afterwards is well formed.
  pub add_point-Outcome :
      (r : Result ℕ × Index P) × (add_point idx vec label ≡ some r)
      × IsGraph r.1
      × Outcome idx vec label r
  unfolding add_point
  add_point-Outcome = elim (Option-cases (find_id label idx.label_to_id)) [
    | inr (j, taken) ↦ (
      (throw "duplicate label; use updatePoint or a new label", idx),
      rw (taken, add_point),
      g,
      inl (j, taken, refl),
    )
    | inl free ↦ elim (Bool-cases (leb idx.max_elements (idx.count % 2 ^ 32))) [
      | inl full ↦
          let e : ((idx.count + 1) % 2 ^ 64 + 2 ^ 64 - 1) % 2 ^ 64 ≡ idx.count =
            omega (arith, g.store.small, g.store.capacity) in
          let w : idx.count % 2 ^ 32 ≡ idx.count = omega (arith, g.store.capacity, g.store.small) in
          let le : idx.max_elements ≤ idx.count % 2 ^ 32 = ground arith in
          (
            (throw "index is full: raise maxElements", idx),
            rw (free, add_point, full) (rw e),
            g,
            inr (inl (free, omega (arith, g.store.capacity), refl)),
          )
      | inr room ↦
          let w : idx.count % 2 ^ 32 ≡ idx.count = omega (arith, g.store.capacity, g.store.small) in
          let lt : idx.count % 2 ^ 32 < idx.max_elements = ground arith in
          let space : idx.count < idx.max_elements = omega arith in
          let (r, run, h, k) = attached space in
          (
            (ok idx.count, r),
            rw (free, add_point, room, w, run, ◌>>=◌),
            h,
            inr (inr (free, space, refl, allocated-Added space r k)),
          )
    ]
  ]
