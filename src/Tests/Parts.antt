-- ===== src/Tests/Parts.antt =====
-- The theorems on the parts that the operations are made of, at concrete inputs.
use vector_search_engine.Base.{
  ℕ, zero, suc, if◌then◌else◌, ◌+◌, ◌-◌, ◌<◌, ◌≡◌, refl, true, false, List, [], ◌∷◌, some, All,
  arith,
}
use vector_search_engine.Visited.{VisitedList, reset}
use vector_search_engine.Visited.Refinement.{IsValid, visits, visits-reset}
use vector_search_engine.Links.{Links}
use vector_search_engine.Links.Blocks.{IsShaped}
use vector_search_engine.Platform.{Platform}
use vector_search_engine.Distance.{kernel}
use vector_search_engine.Distance.Sums.{Sum, Covers, value, kernel-Covers}
use vector_search_engine.Neighbors.{select_neighbors_heuristic}
use vector_search_engine.Neighbors.Choice.{Selects, select_neighbors_heuristic-Selects}
use vector_search_engine.Greedy.{Walk, descend}
use vector_search_engine.Greedy.Descent.{Settles, descend-Settles}
use vector_search_engine.Tests.Samples.{counting, counting-IsOrdered}

-- marks at the last epoch of a uint16_t
abbrev last_epoch : VisitedList
last_epoch = record { marks = 65535 ∷ 3 ∷ 65535 ∷ []; cur = 65535 }

last_epoch-IsValid : IsValid 3 last_epoch
last_epoch-IsValid = record {
  size = refl;
  old = (omega arith, (omega arith, (omega arith, tt)));
  fits = omega arith;
}

visits-reset_example : visits (reset last_epoch) 2 ≡ false
visits-reset_example = visits-reset 3 last_epoch last_epoch-IsValid 2

-- two nodes with M = 1: a full block and one with a free cell at layer 0
abbrev pair_links : Links
pair_links = record {
  max_m = 1;
  max_m0 = 2;
  stride_l0 = 3;
  stride_upper = 2;
  links_l0 = 2 ∷ 1 ∷ 1 ∷ 1 ∷ 0 ∷ 0 ∷ [];
  links_upper = (0 ∷ 0 ∷ []) ∷ [] ∷ [];
}

pair_links-IsShaped : IsShaped pair_links
pair_links-IsShaped = record {
  layer0 = refl;
  upper = refl;
  small0 = omega arith;
  small = omega arith;
}

-- one block of eight and a tail of one
kernel-Covers_example :
    (s : Sum) × (t : Sum) × Covers 9 s
    × Covers 9 t
    × ((P : Platform) (term : P.F → P.F → P.F) (a b : List P.F)
        → value P term a b (if P.avx then s else t) ≡ kernel P term a b 9)
kernel-Covers_example = kernel-Covers 9

-- the distance of two numbers
abbrev gap : ℕ → ℕ → ℕ
gap a b = (a - b) + (b - a)

select_neighbors_heuristic-Selects_example :
    Selects counting gap
      ((7, 7) ∷ (2, 2) ∷ (3, 3) ∷ [])
      2
      (select_neighbors_heuristic counting gap ((7, 7) ∷ (2, 2) ∷ (3, 3) ∷ []) 2)
select_neighbors_heuristic-Selects_example =
    select_neighbors_heuristic-Selects counting gap ((7, 7) ∷ (2, 2) ∷ (3, 3) ∷ []) 2
      counting-IsOrdered

-- a path 0 - 1 - 2 - 3
abbrev path_links : ℕ → List ℕ
path_links zero = 1 ∷ []
path_links (suc zero) = 0 ∷ 2 ∷ []
path_links (suc (suc zero)) = 1 ∷ 3 ∷ []
path_links (suc (suc (suc i))) = 2 ∷ []

path_inside : (i : ℕ) → i < 4 → All (λ j. j < 4) (path_links i)
path_inside zero lt = (omega arith, tt)
path_inside (suc zero) lt = (omega arith, (omega arith, tt))
path_inside (suc (suc zero)) lt = (omega arith, (omega arith, tt))
path_inside (suc (suc (suc i))) lt = (omega arith, tt)

descend-Settles_example :
    (r : Walk counting) × (descend counting (gap 2) path_links (4 + 1) 0 ≡ some r)
    × Settles counting
        (gap 2)
        path_links
        4
        (λ i. i < 4)
        counting-IsOrdered
        (record { cur = 0; cur_dist = gap 2 0; changed = true })
        r
descend-Settles_example =
    descend-Settles counting (gap 2) path_links 4 (λ i. i < 4) counting-IsOrdered (λ i lt. lt)
      path_inside 0 (omega arith)
