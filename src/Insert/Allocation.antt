-- ===== src/Insert/Allocation.antt =====
-- The first half of addPoint: the new element is stored, with empty blocks.
use vector_search_engine.Base.{
  ℕ, suc, [], ◌∷◌, refl, ◌+◌, ◌%◌, ◌^◌, ◌≤◌, ◌<◌, List, length, set, ltb, ◌≡◌, ◌≢◌, sym, ◌∙◌, arith,
  Bool-cases, inl, inr, length-set, get_or-set_self, get_or-set_ne, subst, All-imp,
}
use vector_search_engine.Platform.{Platform}
use vector_search_engine.Links.{Links, link_count}
use vector_search_engine.Links.Cells.{Room}
use vector_search_engine.Links.Blocks.{Same, neighbors-Same, stride-cap}
use vector_search_engine.Index.{Index, Label}
use vector_search_engine.Index.Invariant.{level_of, Node, IsBlock, IsSized, IsStore}
use vector_search_engine.Insert.{allocate, assign_row, random_level, store}
use vector_search_engine.Insert.Connect.{cap-SameShape}
use vector_search_engine.Insert.Rows.{
  assign_row-SameShape, assign_row-Same0, assign_row-Same, assign_row-Room, assign_row-Room_new,
  count-new, neighbors_empty,
}

pub length-store {ℓ} :
    {A : Type ℓ} (xs : List A) (n : ℕ) (v : List A) → length (store xs n v) ≡ length xs
unfolding store
length-store xs n [] = refl
length-store xs n (y ∷ v) = length-store (set xs n y) (suc n) v ∙ length-set xs n y

module _ {P : Platform} (idx : Index P) (vec : List P.F) (label : Label) (g : IsStore idx)
    (space : idx.count < idx.max_elements) where
  abbrev level : ℕ
  level = (random_level idx).0

  abbrev idx' : Index P
  idx' = allocate idx vec label

  pub id-count : idx.count % 2 ^ 32 ≡ idx.count
  id-count = omega (arith, g.small)

  pub count-allocate : idx'.count ≡ idx.count + 1
  unfolding allocate
  count-allocate = omega (arith, g.small)

  pub links-allocate : idx'.links ≡ assign_row idx.links idx.count level
  unfolding allocate
  links-allocate = rw id-count

  pub levels-allocate : idx'.levels ≡ set idx.levels idx.count level
  unfolding allocate
  levels-allocate = rw id-count

  pub level-new : level_of idx' idx.count ≡ level
  level-new =
      rw levels-allocate
        (get_or-set_self idx.levels idx.count level 0 (omega (arith, g.sized.levels)))

  pub level-old : (j : ℕ) → j < idx.count → level_of idx' j ≡ level_of idx j
  level-old j lt =
      rw levels-allocate (get_or-set_ne idx.levels idx.count j level 0 (λ e. omega arith))

  pub Node-old : (l j : ℕ) → Node idx l j → Node idx' l j
  Node-old l j nd = (rw count-allocate (omega arith), rw (level-old j nd.0) nd.1)

  abbrev lk : Links
  lk = idx.links

  abbrev lk' : Links
  lk' = assign_row lk idx.count level

  Room-first : Room lk idx.count 0
  Room-first = rw g.sized.layer0 (grind arith)

  IsBlock-old : (j l : ℕ) → j < idx.count → Node idx l j → IsBlock idx' j l
  IsBlock-old j l lt nd =
      let b = g.blocks j l nd in
      let ne : idx.count ≢ j = λ e. omega arith in
      let s = assign_row-Same lk idx.count level j l ne in
      let cap = stride-cap lk l g.shaped in
      let e = neighbors-Same lk lk' j l s (omega arith) in
      let c : link_count lk' j l ≡ link_count lk j l =
        unfold Same link_count in s 0 (omega arith) in
      record {
        room = rw links-allocate (assign_row-Room lk idx.count level j l ne b.room);
        fits =
            rw (links-allocate, c, cap-SameShape lk lk' l (assign_row-SameShape lk idx.count level))
              b.fits;
        inside =
            rw (links-allocate, e) (All-imp (Node idx l) (Node idx' l) _ (Node-old l) b.inside);
      }

  IsBlock-new : (l : ℕ) → l ≤ level → IsBlock idx' idx.count l
  IsBlock-new l le =
      let up : idx.count < length lk.links_upper = omega (arith, g.sized.upper) in
      let e = count-new lk idx.count level l le up (g.unused idx.count (omega arith) space) in
      record {
        room = rw links-allocate (assign_row-Room_new lk idx.count level l le up Room-first);
        fits = rw (links-allocate, e) (omega arith);
        inside = rw (links-allocate, neighbors_empty lk' idx.count l e) tt;
      }

  allocate-IsSized : IsSized idx'
  unfolding allocate
  allocate-IsSized =
      let s = assign_row-SameShape lk (idx.count % 2 ^ 32) level in
      record {
        vectors = rw length-store g.sized.vectors;
        layer0 = rw (s.size0, s.s0) g.sized.layer0;
        upper = rw s.size g.sized.upper;
        levels = rw length-set g.sized.levels;
        labels = rw length-set g.sized.labels;
        deleted = rw length-set g.sized.deleted;
      }

  -- Where a slot is free, storing a new element in a well-formed storage (its vector, label,
  -- level and empty blocks) keeps the storage well formed.
  pub allocate-IsStore : IsStore idx'
  allocate-IsStore =
      let s = assign_row-SameShape lk idx.count level in
      record {
        shaped = rw links-allocate record {
          layer0 = rw (s.s0, s.m0) g.shaped.layer0;
          upper = rw (s.s, s.m) g.shaped.upper;
          small0 = rw s.m0 g.shaped.small0;
          small = rw s.m g.shaped.small;
        };
        degree = rw (links-allocate, s.m0) g.degree;
        degree_upper = rw (links-allocate, s.m) g.degree_upper;
        sized = allocate-IsSized;
        capacity = rw count-allocate (unfold allocate in omega arith);
        small = unfold allocate in g.small;
        blocks = λ j l nd. elim (Bool-cases (ltb j idx.count)) [
          | inl old ↦
              let lt : j < idx.count = ground arith in
              IsBlock-old j l lt (lt, rw (level-old j lt) at nd.1)
          | inr new ↦
              let e : idx.count ≡ j =
                let lt : j < idx.count + 1 = rw count-allocate at nd.0 in ground arith in
              subst (λ i. IsBlock idx' i l) e
                (IsBlock-new l (rw level-new at (subst (λ i. l ≤ level_of idx' i) (sym e) nd.1)))
        ];
        unused = λ j lo hi.
            let lo' : idx.count + 1 ≤ j = rw count-allocate at lo in
            let cap = stride-cap lk 0 g.shaped in
            rw links-allocate (
              unfold Same link_count in
              (assign_row-Same0 lk idx.count level j 0 (omega arith)
                ∙ g.unused j (omega arith) (unfold allocate in hi)));
        pool = unfold allocate in g.pool;
      }
