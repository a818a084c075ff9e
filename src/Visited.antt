-- ===== src/Visited.antt =====
-- The epoch-stamped visited set of include/hnsw.hpp (VisitedList, VisitedListPool). The pool's
-- mutex makes `acquire` and `release` single steps, and a list is one thread's between the two.
use vector_search_engine.Base.{
  ℕ, zero, suc, ◌+◌, ◌%◌, ◌^◌, Bool, true, false, Option, none, some, List, [], ◌∷◌, ◌==◌,
  if◌then◌else◌, get_elem?, set, replicate,
}
pub mod Refinement

-- `marks_` and the uint16_t epoch `cur_`
pub record VisitedList : Type 0 where
  pub marks : List ℕ
  pub cur : ℕ

unfoldable pub new_visited : ℕ → VisitedList
new_visited n = record { marks = replicate n 0; cur = 0 }

-- std::fill over the whole vector
pub fill : List ℕ → ℕ → List ℕ
fill [] x = []
fill (m ∷ ms) x = x ∷ fill ms x

unfoldable pub reset : VisitedList → VisitedList
reset v =
    let next = (v.cur + 1) % 2 ^ 16 in
    if next == 0 then record { marks = fill v.marks 0; cur = 1 } else record v { cur = next }

-- An index out of range, undefined in C++, reads as visited; no call of a valid index has one.
unfoldable pub test_and_set : VisitedList → ℕ → Bool × VisitedList
test_and_set v i = elim (get_elem? v.marks i) [
  | none ↦ (true, v)
  | some mark ↦
      if mark == v.cur then (true, v) else (false, record v { marks = set v.marks i v.cur })
]

-- `pool_`, its back first, and `n_`
pub record VisitedListPool : Type 0 where
  pub pool : List VisitedList
  pub n : ℕ

unfoldable pub new_pool : ℕ → ℕ → VisitedListPool
unfolding new_visited
new_pool initial n = record { pool = replicate initial (new_visited n); n = n }

unfoldable pub acquire : VisitedListPool → VisitedList × VisitedListPool
unfolding new_visited reset
acquire p = elim p.pool [
  | [] ↦ (new_visited p.n, p)
  | v ∷ rest ↦ (reset v, record p { pool = rest })
]

unfoldable pub release : VisitedListPool → VisitedList → VisitedListPool
release p v = record p { pool = v ∷ p.pool }
