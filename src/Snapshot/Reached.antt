-- ===== src/Snapshot/Reached.antt =====
-- What a snapshot relies on, along the life of an index (include/hnsw.hpp).
use Prim.Native.String.{String}
use vector_search_engine.Base.{
  ℕ, ◌+◌, ◌*◌, ◌%◌, ◌^◌, ◌≤◌, ◌<◌, true, List, some, length, drop, set, replicate, ◌≡◌, refl, sym,
  ◌∙◌, ap, subst, arith, inl, inr, length-replicate, drop-set, drop_later,
}
use vector_search_engine.Platform.{Platform, IsOrdered}
use vector_search_engine.Result.{Result, ok}
use vector_search_engine.Visited.{VisitedListPool}
use vector_search_engine.Index.{Index, Label, Space, initial_index}
use vector_search_engine.Index.Construction.{Accepts}
use vector_search_engine.Search.{SearchResult, search}
use vector_search_engine.Search.Answers.{search-Answers}
use vector_search_engine.Insert.{add_point, stored_vector}
use vector_search_engine.Insert.Allocation.{length-store}
use vector_search_engine.Insert.Vectors.{drop-store_end, length-stored_vector-le}
use vector_search_engine.Insert.Outcome.{Added, Outcome, add_point-Outcome}
use vector_search_engine.Delete.{mark_deleted, unmark_deleted}
use vector_search_engine.Delete.Undo.{mark-cases, unmark-cases}
use vector_search_engine.Lifetime.{
  IsIndex, Step, adds, marks, unmarks, searches, Reaches, here, later,
}
use vector_search_engine.Lifetime.Preservation.{Reaches-IsIndex, initial-IsIndex}
use vector_search_engine.Snapshot.{Encoding, loaded, save, load}
use vector_search_engine.Snapshot.Conditions.{IsTyped, IsBuilt, IsBlank}
use vector_search_engine.Snapshot.Answers.{SameAnswers, search-load}

-- the two conditions that the operations keep
abbrev pub IsKept : {P : Platform} → Index P → Type 0
IsKept idx = IsBuilt idx × IsBlank idx

module _ {P : Platform} (idx : Index P) (k : IsKept idx) where
  abbrev b : IsBuilt idx
  b = k.0

  abbrev blank : IsBlank idx
  blank = k.1

  -- other flags of elements, another counter and another pool
  reflag-IsKept :
      (ds : List ℕ) (n : ℕ) (pool : VisitedListPool)
      → drop idx.count ds ≡ drop idx.count idx.deleted
      → IsKept (record idx { deleted = ds; num_deleted = n; visited_pool = pool })
  reflag-IsKept ds n pool e = (
    record {
      accepted = b.accepted;
      max_m = b.max_m;
      max_m0 = b.max_m0;
      stride_l0 = b.stride_l0;
      stride_upper = b.stride_upper;
      level_mult = b.level_mult;
      ef_construction = b.ef_construction;
      vectors = b.vectors;
    },
    record {
      vectors = blank.vectors;
      levels = blank.levels;
      labels = blank.labels;
      deleted = blank.deleted ∙ sym e;
      links_l0 = blank.links_l0;
      links_upper = blank.links_upper;
    },
  )

  module _ (vec : List P.F) (label : Label) (r : Index P) (a : Added idx vec label r) where
    Added-IsBuilt : IsBuilt r
    Added-IsBuilt = record {
      accepted = rw (a.dim, a.max_elements, a.m) b.accepted;
      max_m = a.beyond.m ∙ b.max_m ∙ sym a.m;
      max_m0 = rw (a.beyond.m0, a.m) b.max_m0;
      stride_l0 = rw (a.beyond.s0, a.beyond.m0) b.stride_l0;
      stride_upper = rw (a.beyond.s, a.m) b.stride_upper;
      level_mult = rw (a.level_mult, a.m) b.level_mult;
      ef_construction = rw (a.ef_construction, a.m) b.ef_construction;
      vectors = rw (a.vectors, length-store, a.max_elements, a.dim) b.vectors;
    }

    Added-IsBlank : IsBlank r
    Added-IsBlank =
        let c = idx.count in
        let d = idx.dim in
        let next : c ≤ c + 1 = omega arith in
        let lt : c < c + 1 = omega arith in
        let block : c * d + length (stored_vector idx vec) ≤ (c + 1) * d =
          grind (arith, length-stored_vector-le idx vec) in
        record {
          vectors =
              rw
                (
                  a.count,
                  a.dim,
                  a.max_elements,
                  a.vectors,
                  drop-store_end ((c + 1) * d) idx.vectors (c * d) (stored_vector idx vec) block,
                )
                (drop_later (c * d) ((c + 1) * d) _ _ (grind arith) blank.vectors);
          levels =
              rw (a.count, a.max_elements, a.levels, drop-set (c + 1) idx.levels c a.level lt)
                (drop_later c (c + 1) _ _ next blank.levels);
          labels =
              rw (a.count, a.max_elements, a.labels, drop-set (c + 1) idx.labels c label lt)
                (drop_later c (c + 1) _ _ next blank.labels);
          deleted =
              rw (a.count, a.max_elements, a.deleted, drop-set (c + 1) idx.deleted c 0 lt)
                (drop_later c (c + 1) _ _ next blank.deleted);
          links_l0 =
              rw (a.count, a.max_elements, a.beyond.s0, a.beyond.layer0)
                (drop_later (c * idx.links.stride_l0) ((c + 1) * idx.links.stride_l0) _ _
                  (grind arith) blank.links_l0);
          links_upper =
              rw (a.count, a.max_elements, a.beyond.upper)
                (drop_later c (c + 1) _ _ next blank.links_upper);
        }

  Outcome-IsKept :
      (vec : List P.F) (label : Label) (r : Result ℕ × Index P)
      → Outcome idx vec label r
      → IsKept r.1
  Outcome-IsKept vec label r out = elim out [
    | inl (j, taken, e) ↦ subst (λ s. IsKept s.1) (sym e) k
    | inr (inl (free, full, e)) ↦ subst (λ s. IsKept s.1) (sym e) k
    | inr (inr (free, space, e, a)) ↦ (Added-IsBuilt vec label r.1 a, Added-IsBlank vec label r.1 a)
  ]

  module _ (o : IsOrdered P) (h : IsIndex idx) where
    add_point-IsKept :
        (vec : List P.F) (label : Label) (r : Result ℕ × Index P)
        → add_point idx vec label ≡ some r
        → IsKept r.1
    add_point-IsKept vec label r run =
        let (r', run', g, out) = add_point-Outcome idx vec label o h.graph in
        let same : r' ≡ r = cc in subst (λ s. IsKept s.1) same (Outcome-IsKept vec label r' out)

    mark_deleted-IsKept : (label : Label) → IsKept (mark_deleted idx label).1
    mark_deleted-IsKept label = elim (mark-cases idx label h.labelled h.counted) [
      | inl e ↦ rw e k
      | inr (id, n, z, e) ↦ rw e (
          reflag-IsKept (set idx.deleted id 1) _ idx.visited_pool
            (drop-set idx.count idx.deleted id 1 n.below))
    ]

    unmark_deleted-IsKept : (label : Label) → IsKept (unmark_deleted idx label).1
    unmark_deleted-IsKept label = elim (unmark-cases idx label h.labelled h.counted) [
      | inl e ↦ rw e k
      | inr (id, n, z, e) ↦ rw e (
          reflag-IsKept (set idx.deleted id 0) _ idx.visited_pool
            (drop-set idx.count idx.deleted id 0 n.below))
    ]

    search-IsKept :
        (query : List P.F) (k' ef : ℕ) (r : List (SearchResult P) × Index P)
        → search idx query k' ef ≡ some r
        → IsKept r.1
    search-IsKept query k' ef r run =
        let (r', run', a) = search-Answers idx o h.graph query k' ef in
        let same : r' ≡ r = cc in
        subst (λ s. IsKept s.1) same
          (rw a.kept (reflag-IsKept idx.deleted idx.num_deleted a.pool refl))

    Step-IsKept : (idx' : Index P) → Step idx idx' → IsKept idx'
    Step-IsKept _ (adds vec label r run) = add_point-IsKept vec label r run
    Step-IsKept _ (marks label) = mark_deleted-IsKept label
    Step-IsKept _ (unmarks label) = unmark_deleted-IsKept label
    Step-IsKept _ (searches query k' ef r run) = search-IsKept query k' ef r run

module _ {P : Platform} (o : IsOrdered P) (start : Index P) (h : IsIndex start)
    (k : IsKept start) where
  pub Reaches-IsKept : (idx : Index P) → Reaches start idx → IsKept idx
  Reaches-IsKept _ here = k
  Reaches-IsKept _ (later {a} {b} r s) =
      Step-IsKept a (Reaches-IsKept a r) o (Reaches-IsIndex o start h a r) b s

module _ (P : Platform) (space : Space) (dim max_elements m ef_construction seed : ℕ)
    (a : Accepts P space dim max_elements m ef_construction seed) (no_wrap : m < 2 ^ 63)
    (small : max_elements < 2 ^ 32) (room : max_elements * dim < 2 ^ 64) where
  abbrev born : Index P
  born = initial_index P space dim max_elements m ef_construction seed

  pub initial-IsKept : IsKept born
  unfolding initial_index
  initial-IsKept =
      let s = ((m * 2) % 2 ^ 64 + 1) % 2 ^ 64 in
      let bound : max_elements * s ≤ max_elements * 257 = grind arith in
      let fits : (max_elements * s) % 2 ^ 64 ≡ max_elements * s = omega arith in
      let fits' : (max_elements * dim) % 2 ^ 64 ≡ max_elements * dim = omega arith in
      (
        record {
          accepted = a;
          max_m = refl;
          max_m0 = refl;
          stride_l0 = refl;
          stride_upper = refl;
          level_mult = refl;
          ef_construction = omega arith;
          vectors = length-replicate ((max_elements * dim) % 2 ^ 64) P.fzero ∙ fits';
        },
        record {
          vectors = ap (λ n. drop (0 * dim) (replicate n P.fzero)) (sym fits');
          levels = refl;
          labels = refl;
          deleted = refl;
          links_l0 = ap (λ n. drop (0 * s) (replicate n 0)) (sym fits);
          links_upper = refl;
        },
      )

  -- Where distances are ordered, for an index that an accepted call of the constructor built,
  -- with M below 2 ^ 63, fewer than 2 ^ 32 slots and fewer than 2 ^ 64 floats: whatever index any
  -- sequence of calls of addPoint, markDeleted, unmarkDeleted and search, successful or not, led
  -- to, if its numbers lie in the ranges of their C++ types, then saved to a file that opens and
  -- is written to its end it is loaded from that file without an exception, and every search of
  -- the loaded index returns with the results of the same search of the saved one.
  pub search-load-Reaches :
      (o : IsOrdered P) (enc : Encoding P) (idx : Index P)
      → Reaches born idx
      → IsTyped enc idx
      → (to_string : ℕ → String) (path path' : String)
      → (file : List ℕ) × (idx' : Index P) × (save enc idx true true path ≡ ok file)
        × (load enc to_string path' (some file) ≡ loaded idx')
        × SameAnswers idx idx'
  search-load-Reaches o enc idx reached t to_string path path' =
      let h =
        initial-IsIndex P space dim max_elements m ef_construction seed a no_wrap small room in
      let (b, blank) = Reaches-IsKept o born h initial-IsKept idx reached in
      search-load o enc idx (Reaches-IsIndex o born h idx reached).graph t b blank to_string path
        path'
