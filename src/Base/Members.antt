-- ===== src/Base/Members.antt =====
-- Which numbers a list has, and how many it can have.
use Prim.Native.Nat.{ℕ, zero, suc, ◌≤◌, ◌<◌}
use mathlib.Core.Path.{◌≡◌, sym, subst, ◌∙◌}
use mathlib.Core.Logic.{◌≢◌, inl, inr}
use mathlib.Core.Bool.{Bool, true, false, ◌||◌}
use mathlib.Core.List.{List, [], ◌∷◌, ◌++◌}
use native.Mathlib.Omega.{arith}
use vector_search_engine.Base.Tests.{◌==◌, ==_iff, if◌then◌else◌, Bool-cases}
use vector_search_engine.Base.Lists.{length, All, All-imp, All-zip, All-append, Pairs}

abbrev pub has : ℕ → List ℕ → Bool
has i [] = false
has i (x ∷ xs) = (x == i) || has i xs

pub All-has : (Q : ℕ → Type 0) (xs : List ℕ) (i : ℕ) → All Q xs → has i xs ≡ true → Q i
All-has Q [] i h m = absurd (ground arith)
All-has Q (x ∷ xs) i h m = elim (Bool-cases (x == i)) [
  | inl same ↦ subst Q ((==_iff x i).0 same) h.0
  | inr other ↦ All-has Q xs i h.1 (ground (arith, other))
]

pub All-has_not : (xs : List ℕ) (i : ℕ) → has i xs ≡ false → All (λ x. i ≢ x) xs
All-has_not [] i m = tt
All-has_not (x ∷ xs) i m =
    (λ e. ground (arith, (==_iff x i).1 (sym e)), All-has_not xs i (ground arith))

pub All_of_has : (Q : ℕ → Type 0) (xs : List ℕ) → ((i : ℕ) → has i xs ≡ true → Q i) → All Q xs
All_of_has Q [] f = tt
All_of_has Q (x ∷ xs) f =
    (f x (ground (arith, ==_iff x x)), All_of_has Q xs (λ i m. f i (ground arith)))

pub Pairs-snoc :
    (xs : List ℕ) (i : ℕ)
    → Pairs (λ x y. x ≢ y) xs
    → All (λ x. i ≢ x) xs
    → Pairs (λ x y. x ≢ y) (xs ++ i ∷ [])
Pairs-snoc [] i d a = (tt, tt)
Pairs-snoc (x ∷ xs) i d a =
    (All-append (λ y. x ≢ y) xs (i ∷ []) d.0 (λ e. a.0 (sym e), tt), Pairs-snoc xs i d.1 a.1)

-- the list without the first `i`
without : ℕ → List ℕ → List ℕ
without i [] = []
without i (x ∷ xs) = if x == i then xs else x ∷ without i xs

length-without : (i : ℕ) (xs : List ℕ) → length xs ≤ suc (length (without i xs))
unfolding without
length-without i [] = omega arith
length-without i (x ∷ xs) = ground (arith, length-without i xs)

All-without : (Q : ℕ → Type 0) (i : ℕ) (xs : List ℕ) → All Q xs → All Q (without i xs)
unfolding without
All-without Q i [] h = tt
All-without Q i (x ∷ xs) h = elim (Bool-cases (x == i)) [
  | inl same ↦ rw same h.1
  | inr other ↦ rw other (h.0, All-without Q i xs h.1)
]

Pairs-without :
    (i : ℕ) (xs : List ℕ) → Pairs (λ x y. x ≢ y) xs → Pairs (λ x y. x ≢ y) (without i xs)
unfolding without
Pairs-without i [] h = tt
Pairs-without i (x ∷ xs) h = elim (Bool-cases (x == i)) [
  | inl same ↦ rw same h.1
  | inr other ↦ rw other (All-without (λ y. x ≢ y) i xs h.0, Pairs-without i xs h.1)
]

below-without :
    (n : ℕ) (xs : List ℕ)
    → Pairs (λ x y. x ≢ y) xs
    → All (λ x. x < suc n) xs
    → All (λ x. x < n) (without n xs)
unfolding without
below-without n [] d h = tt
below-without n (x ∷ xs) d h = elim (Bool-cases (x == n)) [
  | inl same ↦ rw same (
      All-imp (λ y. (x ≢ y) × (y < suc n)) (λ y. y < n) xs
        (λ y f.
          let e = (==_iff x n).0 same in
          let ne : y ≢ n = λ q. f.0 (e ∙ sym q) in omega (arith, f.1))
        (All-zip (λ y. x ≢ y) (λ y. y < suc n) xs d.0 h.1))
  | inr other ↦ rw other (ground arith, below-without n xs d.1 h.1)
]

-- A list of different numbers below n has at most n.
pub length-below :
    (n : ℕ) (xs : List ℕ) → Pairs (λ x y. x ≢ y) xs → All (λ x. x < n) xs → length xs ≤ n
length-below zero [] d h = omega arith
length-below zero (x ∷ xs) d h = absurd (omega (arith, h.0))
length-below (suc n) xs d h = omega (
  arith,
  length-without n xs,
  length-below n (without n xs) (Pairs-without n xs d) (below-without n xs d h),
)
