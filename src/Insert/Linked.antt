-- ===== src/Insert/Linked.antt =====
-- connectNewElement step by step, on a well-formed storage.
use vector_search_engine.Base.{
  ℕ, List, [], ◌∷◌, ◌++◌, take, ltb, arith, Bool-cases, inl, inr, All, All-append, All-take,
  length-take, length-append,
}
use vector_search_engine.Platform.{Platform, IsOrdered}
use vector_search_engine.Heap.{Cand, farther_first}
use vector_search_engine.Heap.Order.{All-emplace}
use vector_search_engine.Links.{
  Links, link_count, link_neighbors, degree_cap, set_links, append_link,
}
use vector_search_engine.Links.Writes.{set_links-Writes, append_link-Writes, length-neighbors}
use vector_search_engine.Index.{Index}
use vector_search_engine.Index.Invariant.{Node, IsStore}
use vector_search_engine.Insert.{
  fill_pool, link_back, link_all_back, connect_selected, connect_new_element,
}
use vector_search_engine.Insert.Connect.{All-select, Writes-IsStore}

-- the index with these links is well formed
abbrev pub Stored : {P : Platform} → Index P → Links → Type 0
Stored idx lk = IsStore (record idx { links = lk })

module _ {P : Platform} (idx : Index P) (between : ℕ → ℕ → P.F) (m id l : ℕ) (o : IsOrdered P)
    (new : Node idx l id) where
  set_links-Stored :
      (lk : Links) (n : ℕ) (ns : List ℕ)
      → Stored idx lk
      → Node idx l n
      → All (Node idx l) ns
      → Stored idx (set_links lk n l ns)
  set_links-Stored lk n ns g nd nodes =
      Writes-IsStore (record idx { links = lk }) (set_links lk n l ns) n l
        (take (degree_cap lk l) ns) g (set_links-Writes lk n l g.shaped (g.blocks n l nd).room ns)
        (All-take (Node idx l) (degree_cap lk l) ns nodes) (omega (arith, length-take {0})) nd

  fill_pool-Nodes :
      (n : ℕ) (es : List ℕ) (pool : List (Cand P))
      → All (Node idx l) es
      → All (λ c. Node idx l c.1) pool
      → All (λ c. Node idx l c.1) (fill_pool P between m id l n es pool)
  unfolding fill_pool
  fill_pool-Nodes n [] pool h k = k
  fill_pool-Nodes n (e ∷ es) pool h k =
      fill_pool-Nodes n es _ h.1
        (All-emplace (farther_first P) (λ c. Node idx l c.1) (between n e, e) pool h.0 k)

  link_back-Stored :
      (lk : Links) (n : ℕ)
      → Stored idx lk
      → Node idx l n
      → Stored idx (link_back P between m id l lk n)
  unfolding link_back
  link_back-Stored lk n g nd =
      let b = g.blocks n l nd in
      let old = link_neighbors lk n l in
      let cap = degree_cap lk l in
      elim (Bool-cases (ltb (link_count lk n l) cap)) [
        | inl space ↦ rw space (
            Writes-IsStore (record idx { links = lk }) (append_link lk n l id) n l (old ++ id ∷ [])
              g (append_link-Writes lk n l g.shaped b.room id (ground arith))
              (All-append (Node idx l) old (id ∷ []) b.inside (new, tt))
              (ground (arith, length-append old (id ∷ []), length-neighbors lk n l)) nd)
        | inr full ↦ rw full (
            set_links-Stored lk n _ g nd (
              All-select P between (Node idx l)
                (fill_pool P between m id l n old ((between n id, id) ∷ [])) cap o
                (fill_pool-Nodes n old ((between n id, id) ∷ []) b.inside (new, tt))))
      ]

  link_all_back-Stored :
      (ns : List ℕ) (lk : Links)
      → Stored idx lk
      → All (Node idx l) ns
      → Stored idx (link_all_back P between m id l lk ns)
  unfolding link_all_back
  link_all_back-Stored [] lk g h = g
  link_all_back-Stored (n ∷ ns) lk g h =
      link_all_back-Stored ns (link_back P between m id l lk n) (link_back-Stored lk n g h.0) h.1

  connect_selected-Stored :
      (selected : List ℕ) (lk : Links)
      → Stored idx lk
      → All (Node idx l) selected
      → let r = connect_selected P between m id l lk selected in Node idx l r.0 × Stored idx r.1
  unfolding connect_selected
  connect_selected-Stored [] lk g h = (new, g)
  connect_selected-Stored (n ∷ ns) lk g h = (
    h.0,
    link_all_back-Stored (n ∷ ns) (set_links lk id l (n ∷ ns))
        (set_links-Stored lk id (n ∷ ns) g new h) h,
  )

  -- Where distances are ordered, connecting a new element of a level to candidates of the level,
  -- on a well-formed storage, keeps the storage well formed and hands on an element of the level.
  pub connect_new_element-Stored :
      (lk : Links) (top : List (Cand P))
      → Stored idx lk
      → All (λ c. Node idx l c.1) top
      → let r = connect_new_element P between m id l lk top in Node idx l r.0 × Stored idx r.1
  unfolding connect_new_element
  connect_new_element-Stored lk top g h =
      connect_selected-Stored _ lk g (All-select P between (Node idx l) top m o h)
