-- ===== src/Insert/Connect.antt =====
-- The storage after a write of connectNewElement to one block of one element.
use vector_search_engine.Base.{
  ℕ, zero, suc, ◌≤◌, ◌<◌, false, ◌&&◌, List, [], ◌∷◌, length, ◌==◌, ==_iff, ◌≡◌, refl, ap, ◌∙◌,
  arith, Bool-cases, inl, inr, subst, All,
}
use vector_search_engine.Platform.{Platform, IsOrdered}
use vector_search_engine.Heap.{Cand}
use vector_search_engine.Links.{Links, link_count, link_neighbors, degree_cap}
use vector_search_engine.Links.Cells.{stride}
use vector_search_engine.Links.Blocks.{Same, neighbors-Same, stride-cap}
use vector_search_engine.Links.Writes.{SameShape, Writes, length-neighbors}
use vector_search_engine.Neighbors.{select_neighbors_heuristic}
use vector_search_engine.Neighbors.Selection.{occurs, ids, All-ids}
use vector_search_engine.Neighbors.Choice.{select_neighbors_heuristic-Selects}
use vector_search_engine.Index.{Index}
use vector_search_engine.Index.Invariant.{Node, IsBlock, IsStore}

All-of_occurs : (Q : ℕ → Type 0) (xs : List ℕ) → ((x : ℕ) → 0 < occurs x xs → Q x) → All Q xs
unfolding occurs
All-of_occurs Q [] h = tt
All-of_occurs Q (y ∷ ys) h =
    (h y (ground (arith, (==_iff y y).1 refl)), All-of_occurs Q ys (λ x pos. h x (omega arith)))

occurs_All : (Q : ℕ → Type 0) (x : ℕ) (xs : List ℕ) → All Q xs → 0 < occurs x xs → Q x
unfolding occurs
occurs_All Q x [] h pos = absurd (omega arith)
occurs_All Q x (y ∷ ys) h pos = elim (Bool-cases (y == x)) [
  | inl same ↦ subst Q ((==_iff y x).0 same) h.0
  | inr other ↦ occurs_All Q x ys h.1 (ground arith)
]

-- what holds of the ids of the candidates holds of the selected ids
pub All-select :
    (P : Platform) (between : ℕ → ℕ → P.F) (Q : ℕ → Type 0) (top : List (Cand P)) (m : ℕ)
    → IsOrdered P
    → All (λ c. Q c.1) top
    → All Q (select_neighbors_heuristic P between top m)
All-select P between Q top m o h = All-of_occurs Q _ (λ x pos.
    occurs_All Q x (ids P top) (All-ids P Q top h)
      (omega (arith, (select_neighbors_heuristic-Selects P between top m o).none_new x)))

stride-SameShape : (lk lk' : Links) (m : ℕ) → SameShape lk lk' → stride lk' m ≡ stride lk m
stride-SameShape lk lk' zero h = h.s0
stride-SameShape lk lk' (suc m) h = h.s

pub cap-SameShape : (lk lk' : Links) (m : ℕ) → SameShape lk lk' → degree_cap lk' m ≡ degree_cap lk m
unfolding degree_cap
cap-SameShape lk lk' zero h = h.m0
cap-SameShape lk lk' (suc m) h = h.m

module _ {P : Platform} (idx : Index P) (lk' : Links) (i l : ℕ) (ns : List ℕ) (g : IsStore idx)
    (w : Writes idx.links lk' i l ns) (nodes : All (Node idx l) ns)
    (few : length ns ≤ degree_cap idx.links l) (nd : Node idx l i) where
  abbrev lk : Links
  lk = idx.links

  same-block :
      (j m : ℕ)
      → ((l == m) && (i == j)) ≡ false
      → link_count lk j m ≤ degree_cap lk m
      → (link_count lk' j m ≡ link_count lk j m) × (link_neighbors lk' j m ≡ link_neighbors lk j m)
  unfolding Same link_count
  same-block j m other fits = (
    w.other j m other 0 (omega (arith, stride-cap lk m g.shaped)),
    neighbors-Same lk lk' j m (w.other j m other) (omega (arith, stride-cap lk m g.shaped)),
  )

  IsBlock-replaced : (id m : ℕ) → Node idx m id → IsBlock (record idx { links = lk' }) id m
  IsBlock-replaced id m ni =
      let b = g.blocks id m ni in
      let cap = cap-SameShape lk lk' m w.shape in
      elim (Bool-cases ((l == m) && (i == id))) [
        | inl same ↦
            let el : l ≡ m = ground arith in
            let ei : i ≡ id = ground arith in
            let blk : link_neighbors lk' id m ≡ ns =
              subst (λ a. link_neighbors lk' id a ≡ ns) el
                (subst (λ b. link_neighbors lk' b l ≡ ns) ei w.block) in
            record {
              room = w.room id m b.room;
              fits =
                  rw cap (
                    omega (arith, length-neighbors lk' id m, ap length blk, ap (degree_cap lk) el));
              inside = rw blk (subst (λ a. All (Node idx a) ns) el nodes);
            }
        | inr other ↦
            let (count, blk) = same-block id m other b.fits in
            record {
              room = w.room id m b.room;
              fits = rw (cap, count) b.fits;
              inside = rw blk b.inside;
            }
      ]

  -- a write of a block of nodes keeps the storage well formed
  pub Writes-IsStore : IsStore (record idx { links = lk' })
  Writes-IsStore =
      let s = w.shape in
      record {
        shaped = record {
          layer0 = rw (s.s0, s.m0) g.shaped.layer0;
          upper = rw (s.s, s.m) g.shaped.upper;
          small0 = rw s.m0 g.shaped.small0;
          small = rw s.m g.shaped.small;
        };
        degree = rw s.m0 g.degree;
        degree_upper = rw s.m g.degree_upper;
        sized = record {
          vectors = g.sized.vectors;
          layer0 = rw (s.size0, s.s0) g.sized.layer0;
          upper = rw s.size g.sized.upper;
          levels = g.sized.levels;
          labels = g.sized.labels;
          deleted = g.sized.deleted;
        };
        capacity = g.capacity;
        small = g.small;
        blocks = IsBlock-replaced;
        unused = λ id lo hi.
            let e = g.unused id lo hi in
            (same-block id 0 (ground (arith, nd.0)) (omega arith)).0 ∙ e;
        pool = g.pool;
      }
