-- ===== src/Heap.antt =====
-- The std::priority_queue and std::sort uses of include/hnsw.hpp, with their comparators
-- (FartherFirst, CloserFirst, operator< of std::pair). A queue is the list of its elements in the
-- order in which top() and pop() hand them out. Of two elements that the comparator does not
-- tell apart the later one comes out first; the standard leaves that order open.
use vector_search_engine.Base.{
  ℕ, zero, suc, Bool, true, false, not, ◌&&◌, ◌||◌, List, [], ◌∷◌, if◌then◌else◌, ltb,
}
use vector_search_engine.Platform.{Platform}
pub mod Order

-- `emplace` for a queue under the comparator `less`: the top is an element with none above it
unfoldable pub emplace {ℓ} : {A : Type ℓ} → (A → A → Bool) → A → List A → List A
emplace less c [] = c ∷ []
emplace less c (e ∷ h) = if less c e then e ∷ emplace less c h else c ∷ e ∷ h

-- std::sort under `less`: the least first
unfoldable pub sort {ℓ} : {A : Type ℓ} → (A → A → Bool) → List A → List A
unfolding emplace
sort less [] = []
sort less (c ∷ cs) = emplace (λ a b. less b a) c (sort less cs)

module _ (P : Platform) where
  -- `Cand`
  abbrev pub Cand : Type 0
  Cand = P.F × ℕ

  unfoldable pub farther_first : Cand → Cand → Bool
  farther_first a b = P.flt a.0 b.0

  unfoldable pub closer_first : Cand → Cand → Bool
  closer_first a b = P.flt b.0 a.0

  unfoldable pub pair_less : Cand → Cand → Bool
  pair_less a b = P.flt a.0 b.0 || (not (P.flt b.0 a.0) && ltb a.1 b.1)
