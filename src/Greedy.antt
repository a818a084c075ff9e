-- ===== src/Greedy.antt =====
-- Index::greedyDescend of include/hnsw.hpp, over the distance from the query (`dist`) and the links
-- of a node at the level of the call (`links`).
use vector_search_engine.Base.{
  ℕ, zero, suc, Bool, true, false, List, [], ◌∷◌, Option, none, some, if◌then◌else◌,
}
use vector_search_engine.Platform.{Platform}
pub mod Descent

-- `cur`, `curDist` and `changed`
pub record Walk (P : Platform) : Type 0 where
  pub cur : ℕ
  pub cur_dist : P.F
  pub changed : Bool

module _ (P : Platform) (dist : ℕ → P.F) (links : ℕ → List ℕ) where
  unfoldable pub visit_link : Walk P → ℕ → Walk P
  visit_link w cand =
      if P.flt (dist cand) w.cur_dist
      then record { cur = cand; cur_dist = dist cand; changed = true }
      else w

  unfoldable pub visit_links : Walk P → List ℕ → Walk P
  unfolding visit_link
  visit_links w [] = w
  visit_links w (i ∷ is) = visit_links (visit_link w i) is

  -- the loop over the block of the node at which the round began
  unfoldable pub round : Walk P → Walk P
  unfolding visit_links
  round w = visit_links (record w { changed = false }) (links w.cur)

  -- `none` means that the fuel ran out
  unfoldable pub walk : ℕ → Walk P → Option (Walk P)
  unfolding round
  walk zero w = none
  walk (suc fuel) w = let w' = round w in elim w'.changed [ true ↦ walk fuel w' | false ↦ some w' ]

  unfoldable pub descend : ℕ → ℕ → Option (Walk P)
  unfolding walk
  descend fuel entry = walk fuel (record { cur = entry; cur_dist = dist entry; changed = true })
