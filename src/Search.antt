-- ===== src/Search.antt =====
-- Index::searchLayer and Index::search of include/hnsw.hpp. `none` stands for fuel that ran out.
pub mod Layers
pub mod Answers
pub mod Exhaustive
pub mod Pools
use vector_search_engine.Base.{
  ℕ, zero, suc, ◌+◌, ◌-◌, min, max, Bool, true, false, not, ◌||◌, List, [], ◌∷◌, Option, none, some,
  if◌then◌else◌, ltb, ◌==◌, length, get_or,
}
use vector_search_engine.Platform.{Platform}
use vector_search_engine.Heap.{Cand}
use vector_search_engine.Visited.{VisitedListPool, acquire, release, reset}
use vector_search_engine.Links.{link_count, copy_links, link_neighbors}
use vector_search_engine.Layer.{Layer, loop, start}
use vector_search_engine.Greedy.{Walk, descend}
use vector_search_engine.Index.{
  Index, Label, Space, cosine, l2, max_degree, k_none, distance, normalize_in_place,
}

infixl 5 ◌>>=◌
abbrev pub ◌>>=◌ {ℓ κ} : {A : Type ℓ} {B : Type κ} → Option A → (A → Option B) → Option B
none >>= f = none
some a >>= f = f a

module _ {P : Platform} (idx : Index P) where
  -- the copy of a link block into `buf`
  unfoldable pub link_buffer : ℕ → ℕ → List ℕ
  link_buffer level id =
      copy_links idx.links id level 1 (min (link_count idx.links id level) max_degree)

  unfoldable pub admits : Bool → ℕ → Bool
  admits filter_deleted id = not filter_deleted || get_or idx.deleted id 0 == 0

  -- the results, and the pool with the visited list back in it
  unfoldable pub search_layer :
      List P.F → ℕ → ℕ → ℕ → Bool → Option (List (Cand P) × VisitedListPool)
  search_layer q entry ef level filter_deleted =
      let (visited, pool) = acquire idx.visited_pool in
      let dist = distance idx q in
      let links = link_buffer level in
      let allow = admits filter_deleted in
      loop P dist links allow ef (idx.max_elements + 1)
        (start P dist links allow ef (reset visited) entry)
      >>= λ s. some (s.results, release pool s.visited)

  unfoldable pub greedy_descend : List P.F → ℕ → ℕ → Option ℕ
  greedy_descend q entry level =
      descend P (distance idx q) (λ id. link_neighbors idx.links id level) (idx.max_elements + 1)
        entry
      >>= λ w. some w.cur

  -- `for (int l = top; l > bottom; --l)`, with the rounds left first
  unfoldable pub descend_levels : List P.F → ℕ → ℕ → ℕ → Option ℕ
  descend_levels q cur bottom zero = some cur
  descend_levels q cur bottom (suc k) =
      greedy_descend q cur (bottom + suc k) >>= λ next. descend_levels q next bottom k

pub record SearchResult (P : Platform) : Type 0 where
  pub label : Label
  pub distance : P.F

module _ {P : Platform} (idx : Index P) where
  -- `while (top.size() > k) top.pop()`
  unfoldable pub trim : ℕ → List (Cand P) → List (Cand P)
  trim k [] = []
  trim k (c ∷ h) = if ltb k (suc (length h)) then trim k h else c ∷ h

  -- the loop that fills `out` from its end
  unfoldable pub unload : List (Cand P) → List (SearchResult P) → List (SearchResult P)
  unload [] out = out
  unload (c ∷ h) out = unload h (
      record { label = get_or idx.labels c.1 (record { client_id = 0; label = 0 }); distance = c.0 }
      ∷ out)

  unfoldable pub query_vector : List P.F → List P.F
  query_vector query = elim idx.space [ cosine ↦ normalize_in_place idx query | l2 ↦ query ]

  -- The results and the index, of which a search changes the pool of visited lists alone.
  unfoldable pub search : List P.F → ℕ → ℕ → Option (List (SearchResult P) × Index P)
  search query k ef =
      let q = query_vector query in
      let run = descend_levels idx q idx.entry_point 0 idx.max_level >>= λ cur.
      search_layer idx q cur (max ef k) 0 true >>= λ r.
      some (unload (trim k r.0) [], record idx { visited_pool = r.1 }) in
      if idx.count == 0
      then some ([], idx)
      else if idx.entry_point == k_none
      then some ([], idx)
      else run
