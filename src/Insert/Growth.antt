-- ===== src/Insert/Growth.antt =====
-- The second half of addPoint, after the allocation: linking the new element into its levels.
use vector_search_engine.Base.{
  ℕ, zero, suc, ◌+◌, ◌-◌, ◌≤◌, ◌<◌, min, false, List, some, ltb, leb, ◌==◌, ◌≡◌, refl, arith,
  Bool-cases, inl, inr, All-imp,
}
use vector_search_engine.Platform.{Platform, IsOrdered}
use vector_search_engine.Links.{Links}
use vector_search_engine.Links.Beyond.{SameBeyond, SameBeyond-refl, SameBeyond-trans}
use vector_search_engine.Visited.{VisitedListPool}
use vector_search_engine.Visited.Refinement.{IsPool}
use vector_search_engine.Index.{Index, k_none, get_data}
use vector_search_engine.Index.Invariant.{level_of, Node, IsStore, IsGraph}
use vector_search_engine.Search.{descend_levels, ◌>>=◌}
use vector_search_engine.Search.Layers.{Hit, search_layer-Finds, descend_levels-Node}
use vector_search_engine.Insert.{between, connect_new_element, insert_layers, attach}
use vector_search_engine.Insert.Beyond.{connect_new_element-beyond}
use vector_search_engine.Insert.Linked.{connect_new_element-Stored}

pub with_pool :
    {P : Platform} (idx : Index P) (pool : VisitedListPool)
    → IsStore idx
    → IsPool idx.max_elements pool
    → IsStore (record idx { visited_pool = pool })
with_pool idx pool g h = record {
  shaped = g.shaped;
  degree = g.degree;
  degree_upper = g.degree_upper;
  sized = record {
    vectors = g.sized.vectors;
    layer0 = g.sized.layer0;
    upper = g.sized.upper;
    levels = g.sized.levels;
    labels = g.sized.labels;
    deleted = g.sized.deleted;
  };
  capacity = g.capacity;
  small = g.small;
  blocks = λ id l nd.
      let b = g.blocks id l nd in record { room = b.room; fits = b.fits; inside = b.inside };
  unused = g.unused;
  pool = h;
}

-- The loop over the levels returns; of the index it changes the links, of
-- elements only, and the pool.
insert_layers-IsStore :
    {P : Platform} (l : ℕ) (idx : Index P) (id cur : ℕ)
    → IsOrdered P
    → IsStore idx
    → id < idx.count
    → l ≤ level_of idx id + 1
    → ((k : ℕ) → suc k ≡ l → Node idx k cur)
    → (lk : Links) × (pool : VisitedListPool) × (insert_layers idx id cur l
        ≡ some (record idx { links = lk; visited_pool = pool }))
      × IsStore (record idx { links = lk; visited_pool = pool })
      × SameBeyond idx.count idx.links lk
unfolding insert_layers
insert_layers-IsStore zero idx id cur o g lt le here =
    (idx.links, idx.visited_pool, refl, g, SameBeyond-refl idx.count idx.links)
insert_layers-IsStore {P} (suc l) idx id cur o g lt le here =
    let q = get_data idx id in
    let (r, run, f) = search_layer-Finds idx o g q cur idx.ef_construction l false (here l refl) in
    let (nc, stored) =
      connect_new_element-Stored idx (between idx) idx.m id l o (lt, omega arith) idx.links r.0 g
        (All-imp (Hit idx q l false) (λ c. Node idx l c.1) r.0 (λ c h. h.node) f.hits) in
    let out = connect_new_element P (between idx) idx.m id l idx.links r.0 in
    let b =
      connect_new_element-beyond P (between idx) idx.m id l idx.count lt idx.links r.0 o g.shaped
        (All-imp (Hit idx q l false) (λ c. c.1 < idx.count) r.0 (λ c h. h.node.0) f.hits) in
    let (lk, pool, run', g', b') =
      insert_layers-IsStore l (record idx { visited_pool = r.1; links = out.1 }) id out.0 o
        (with_pool (record idx { links = out.1 }) r.1 stored f.pool) lt (omega arith)
        (λ k e. (nc.0, omega arith)) in
    (lk, pool, rw (run, ◌>>=◌) run', g', SameBeyond-trans b b')

-- Only the graph, in the blocks of elements, and the pool changed.
pub record Regraphs {P : Platform} (idx r : Index P) : Type 0 where
  pub links : Links
  pub pool : VisitedListPool
  pub entry : ℕ
  pub top : ℕ
  pub beyond : SameBeyond idx.count idx.links links
  pub kept :
      r ≡ record idx { links = links; visited_pool = pool; entry_point = entry; max_level = top }

-- attach returns a well-formed index
abbrev pub Attached : {P : Platform} → Index P → ℕ → ℕ → Type 0
Attached {P} idx id level =
    (r : Index P) × (attach idx id level ≡ some r) × IsGraph r × Regraphs idx r

module _ {P : Platform} (idx : Index P) (id : ℕ) (o : IsOrdered P) (g : IsStore idx)
    (lt : id < idx.count) where
  -- a well-formed storage with an entry point of the top level
  graph :
      (lk : Links) (pool : VisitedListPool) (e top : ℕ)
      → IsStore (record idx { links = lk; visited_pool = pool })
      → e < idx.count
      → top ≤ level_of idx e
      → IsGraph (record idx { links = lk; visited_pool = pool; entry_point = e; max_level = top })
  graph lk pool e top h le up = record {
    store = record {
      shaped = h.shaped;
      degree = h.degree;
      degree_upper = h.degree_upper;
      sized = record {
        vectors = h.sized.vectors;
        layer0 = h.sized.layer0;
        upper = h.sized.upper;
        levels = h.sized.levels;
        labels = h.sized.labels;
        deleted = h.sized.deleted;
      };
      capacity = h.capacity;
      small = h.small;
      blocks = λ id l nd.
          let b = h.blocks id l nd in record { room = b.room; fits = b.fits; inside = b.inside };
      unused = h.unused;
      pool = h.pool;
    };
    entry = λ pos. le;
    top = λ pos. up;
    none_yet = λ z. absurd (omega arith);
  }

  pub attach-first :
      (level : ℕ) → level ≤ level_of idx id → idx.entry_point ≡ k_none → Attached idx id level
  unfolding attach
  attach-first level le e = (
    record idx { entry_point = id; max_level = level },
    rw (e, attach),
    graph idx.links idx.visited_pool id level g lt le,
    record {
      links = idx.links;
      pool = idx.visited_pool;
      entry = id;
      top = level;
      beyond = SameBeyond-refl idx.count idx.links;
      kept = refl;
    },
  )

  -- the greedy descent to the level at which the linking begins
  attach-start :
      (level : ℕ) (q : List P.F)
      → Node idx idx.max_level idx.entry_point
      → (cur : ℕ) × (descend_levels idx q idx.entry_point level (idx.max_level - level) ≡ some cur)
        × Node idx (min level idx.max_level) cur
  unfolding descend_levels
  attach-start level q nd = elim (Bool-cases (leb level idx.max_level)) [
    | inl below ↦
        let (cur, run, nc) =
          descend_levels-Node idx o g q idx.entry_point level (idx.max_level - level)
            (nd.0, ground arith) in
        (cur, run, (nc.0, ground arith))
    | inr above ↦
        let z : idx.max_level - level ≡ 0 = ground arith in
        (idx.entry_point, rw (z, descend_levels) refl, (nd.0, ground arith))
  ]

  pub attach-next :
      (level : ℕ)
      → level ≡ level_of idx id
      → idx.entry_point < idx.count
      → idx.max_level ≤ level_of idx idx.entry_point
      → Attached idx id level
  unfolding attach
  attach-next level e le up =
      let top = idx.max_level in
      let entry_eq : (idx.entry_point == k_none) ≡ false = ground (arith, g.capacity, g.small) in
      let (cur, run, nc) = attach-start level (get_data idx id) (le, up) in
      let (lk, pool, run', g', b) =
        insert_layers-IsStore (min level top + 1) idx id cur o g lt (omega arith)
          (λ k s. (nc.0, omega arith)) in
      elim (Bool-cases (ltb top level)) [
        | inl raises ↦ (
          record idx { links = lk; visited_pool = pool; entry_point = id; max_level = level },
          rw (attach, entry_eq, run, ◌>>=◌, run', raises),
          graph lk pool id level g' lt (omega arith),
          record { links = lk; pool = pool; entry = id; top = level; beyond = b; kept = refl },
        )
        | inr stays ↦ (
          record idx { links = lk; visited_pool = pool },
          rw (attach, entry_eq, run, ◌>>=◌, run', stays),
          graph lk pool idx.entry_point top g' le up,
          record {
            links = lk;
            pool = pool;
            entry = idx.entry_point;
            top = top;
            beyond = b;
            kept = refl;
          },
        )
      ]
