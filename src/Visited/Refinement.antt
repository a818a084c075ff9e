-- ===== src/Visited/Refinement.antt =====
-- The epoch marks as a set: an index is in it when its mark is the current epoch.
use vector_search_engine.Base.{
  ℕ, zero, suc, ◌+◌, ◌≤◌, ◌<◌, ◌^◌, ◌≡◌, ◌⊎◌, inl, inr, refl, ap, Bool, true, false, List, [], ◌∷◌,
  some, ◌==◌, ◌||◌, if◌then◌else◌, get_elem?, set, length, All, arith, length-set, All-set, All-imp,
  Bool-cases, ==_iff, subst, sym, All-replicate, length-replicate, ◌%◌, ◌∙◌,
}
use vector_search_engine.Visited.{
  VisitedList, VisitedListPool, reset, fill, test_and_set, acquire, release, new_visited, new_pool,
}

-- Every mark is at most the epoch, and the epoch fits its uint16_t.
pub record IsValid (n : ℕ) (v : VisitedList) : Type 0 where
  pub size : length v.marks ≡ n
  pub old : All (λ m. m ≤ v.cur) v.marks
  pub fits : v.cur < 2 ^ 16

marked : ℕ → List ℕ → ℕ → Bool
marked c [] i = false
marked c (m ∷ ms) zero = m == c
marked c (m ∷ ms) (suc i) = marked c ms i

-- the abstract set
pub visits : VisitedList → ℕ → Bool
visits v i = marked v.cur v.marks i

unmarked : ℕ → List ℕ → ℕ
unmarked c [] = 0
unmarked c (m ∷ ms) = (if m == c then 0 else 1) + unmarked c ms

-- how many indices are not in the set
pub unvisited : VisitedList → ℕ
unvisited v = unmarked v.cur v.marks

All-fill : (ms : List ℕ) (c : ℕ) → All (λ m. m ≤ c) (fill ms 0)
unfolding fill
All-fill [] c = tt
All-fill (m ∷ ms) c = (omega arith, All-fill ms c)

length-fill : (ms : List ℕ) (x : ℕ) → length (fill ms x) ≡ length ms
unfolding fill
length-fill [] x = refl
length-fill (m ∷ ms) x = ap suc (length-fill ms x)

marked_above : (ms : List ℕ) (c d i : ℕ) → c < d → All (λ m. m ≤ c) ms → marked d ms i ≡ false
unfolding marked
marked_above [] c d i h k = refl
marked_above (m ∷ ms) c d zero h k = ground arith
marked_above (m ∷ ms) c d (suc i) h k = marked_above ms c d i h k.1

unmarked_above : (ms : List ℕ) (c d : ℕ) → c < d → All (λ m. m ≤ c) ms → unmarked d ms ≡ length ms
unfolding unmarked
unmarked_above [] c d h k = refl
unmarked_above (m ∷ ms) c d h k = ground (arith, unmarked_above ms c d h k.1)

pub new_visited-IsValid : (n : ℕ) → IsValid n (new_visited n)
unfolding new_visited
new_visited-IsValid n = record {
  size = length-replicate n 0;
  old = All-replicate (λ m. m ≤ 0) n 0 (omega arith);
  fits = omega arith;
}

-- the two branches of `reset`
reset-cases :
    (v : VisitedList)
    → v.cur < 2 ^ 16
    → ((reset v ≡ record v { cur = v.cur + 1 }) × (v.cur + 1 < 2 ^ 16))
      ⊎ (reset v ≡ record { marks = fill v.marks 0; cur = 1 })
unfolding reset
reset-cases v h = elim (Bool-cases ((v.cur + 1) % 2 ^ 16 == 0)) [
  | inl wraps ↦ inr (rw wraps)
  | inr steps ↦
      let e : (v.cur + 1) % 2 ^ 16 ≡ v.cur + 1 = ground arith in inl (rw (steps, e), ground arith)
]

module _ (n : ℕ) (v : VisitedList) (h : IsValid n v) where
  pub reset-IsValid : IsValid n (reset v)
  reset-IsValid = elim (reset-cases v h.fits) [
    | inl (e, fits) ↦ rw e record {
      size = h.size;
      old = All-imp (λ m. m ≤ v.cur) (λ m. m ≤ v.cur + 1) v.marks (λ m le. omega arith) h.old;
      fits = fits;
    }
    | inr e ↦
        rw e record { size = rw length-fill h.size; old = All-fill v.marks 1; fits = omega arith }
  ]

  -- After a reset of a valid visited list nothing is marked as visited, also where the epoch
  -- wraps round to 0.
  pub visits-reset : (i : ℕ) → visits (reset v) i ≡ false
  unfolding visits
  visits-reset i = elim (reset-cases v h.fits) [
    | inl (e, fits) ↦ rw e (marked_above v.marks v.cur (v.cur + 1) i (omega arith) h.old)
    | inr e ↦ rw e (marked_above (fill v.marks 0) 0 1 i (omega arith) (All-fill v.marks 0))
  ]

  pub unvisited-reset : unvisited (reset v) ≡ n
  unfolding unvisited
  unvisited-reset = elim (reset-cases v h.fits) [
    | inl (e, fits) ↦ rw e (unmarked_above v.marks v.cur (v.cur + 1) (omega arith) h.old ∙ h.size)
    | inr e ↦ rw e (
        unmarked_above (fill v.marks 0) 0 1 (omega arith) (All-fill v.marks 0)
        ∙ length-fill v.marks 0
        ∙ h.size)
  ]

marks_set :
    (ms : List ℕ) (c i j : ℕ)
    → i < length ms
    → marked c (set ms i c) j ≡ ((j == i) || marked c ms j)
unfolding marked
marks_set [] c i j h = absurd (omega arith)
marks_set (m ∷ ms) c zero zero h = ground arith
marks_set (m ∷ ms) c zero (suc j) h = ground arith
marks_set (m ∷ ms) c (suc i) zero h = ground arith
marks_set (m ∷ ms) c (suc i) (suc j) h = ground (arith, marks_set ms c i j (omega arith))

unmarked-set :
    (ms : List ℕ) (c i : ℕ)
    → i < length ms
    → marked c ms i ≡ false
    → suc (unmarked c (set ms i c)) ≡ unmarked c ms
unfolding marked unmarked
unmarked-set [] c i h k = absurd (omega arith)
unmarked-set (m ∷ ms) c zero h k = ground arith
unmarked-set (m ∷ ms) c (suc i) h k = omega (arith, unmarked-set ms c i (omega arith) k)

marked_at :
    (ms : List ℕ) (c i : ℕ)
    → i < length ms
    → (m : ℕ) × (get_elem? ms i ≡ some m) × (marked c ms i ≡ (m == c))
unfolding marked
marked_at [] c i h = absurd (omega arith)
marked_at (m ∷ ms) c zero h = (m, refl, refl)
marked_at (m ∷ ms) c (suc i) h = marked_at ms c i (omega arith)

-- The call on an index in range: its answer, the set afterwards, the count of what is left.
pub record Tests (n : ℕ) (v : VisitedList) (i : ℕ) (r : Bool × VisitedList) : Type 0 where
  pub answer : r.0 ≡ visits v i
  pub valid : IsValid n r.1
  pub adds : (j : ℕ) → visits r.1 j ≡ ((j == i) || visits v j)
  pub left : unvisited r.1 + (if r.0 then 0 else 1) ≡ unvisited v

test_and_set_eq :
    (v : VisitedList) (i : ℕ)
    → i < length v.marks
    → test_and_set v i
      ≡ (if visits v i then (true, v) else (false, record v { marks = set v.marks i v.cur }))
unfolding test_and_set visits
test_and_set_eq v i lt = let (m, e, at) = marked_at v.marks v.cur i lt in rw (at, e, test_and_set)

module _ (n : ℕ) (v : VisitedList) (i : ℕ) (h : IsValid n v) (lt : i < n) where
  hit-Tests : visits v i ≡ true → Tests n v i (true, v)
  hit-Tests old = record {
    answer = rw old;
    valid = h;
    adds = λ j. elim (Bool-cases (j == i)) [
      | inl same ↦ rw (same, (==_iff j i).0 same) old
      | inr other ↦ rw other
    ];
    left = omega arith;
  }

  miss-Tests : visits v i ≡ false → Tests n v i (false, record v { marks = set v.marks i v.cur })
  unfolding visits unvisited
  miss-Tests new = record {
    answer = rw new;
    valid = record {
      size = rw length-set h.size;
      old = All-set (λ m. m ≤ v.cur) v.marks i v.cur (omega arith) h.old;
      fits = h.fits;
    };
    adds = λ j. marks_set v.marks v.cur i j (omega (arith, h.size));
    left = omega (arith, unmarked-set v.marks v.cur i (omega (arith, h.size)) new);
  }

  -- On a valid list and an index in range testAndSet answers whether the set has the index, adds
  -- it to the set and nothing else, and the list stays valid.
  pub test_and_set-Tests : Tests n v i (test_and_set v i)
  test_and_set-Tests = elim (Bool-cases (visits v i)) [
    | inl old ↦ rw (test_and_set_eq v i (omega (arith, h.size)), old) (hit-Tests old)
    | inr new ↦ rw (test_and_set_eq v i (omega (arith, h.size)), new) (miss-Tests new)
  ]

-- Lists that wait in the pool are valid for the pool's size.
abbrev pub IsPool : ℕ → VisitedListPool → Type 0
IsPool n p = (p.n ≡ n) × All (IsValid n) p.pool

pub new_pool-IsPool : (initial n : ℕ) → IsPool n (new_pool initial n)
unfolding new_pool
new_pool-IsPool initial n =
    (refl, All-replicate (IsValid n) initial (new_visited n) (new_visited-IsValid n))

acquire_by :
    (n m : ℕ) (vs : List VisitedList)
    → let p : VisitedListPool = record { pool = vs; n = m } in
      IsPool n p → IsValid n (acquire p).0 × IsPool n (acquire p).1
unfolding acquire
acquire_by n m [] h = (subst (λ k. IsValid n (new_visited k)) (sym h.0) (new_visited-IsValid n), h)
acquire_by n m (v ∷ rest) h = (reset-IsValid n v h.1.0, (h.0, h.1.1))

-- From a pool of valid lists acquire hands out a valid list and leaves a pool of valid lists,
-- whether it had a list or makes one.
pub acquire-IsPool :
    (n : ℕ) (p : VisitedListPool) → IsPool n p → IsValid n (acquire p).0 × IsPool n (acquire p).1
acquire-IsPool n p h = acquire_by n p.n p.pool h

pub release-IsPool :
    (n : ℕ) (p : VisitedListPool) (v : VisitedList)
    → IsPool n p
    → IsValid n v
    → IsPool n (release p v)
unfolding release
release-IsPool n p v h k = (h.0, (k, h.1))
