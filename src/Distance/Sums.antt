-- ===== src/Distance/Sums.antt =====
-- What the two branches of the kernels of include/hnsw.hpp add up, and in which order: as trees of
-- additions, which hold for floats with rounding too.
use vector_search_engine.Base.{
  ℕ, zero, suc, ◌+◌, ◌-◌, ◌*◌, ◌/◌, ◌≤◌, ◌<◌, ◌==◌, Bool-cases, false, List, get_or, if◌then◌else◌,
  inl, inr, ◌≡◌, refl, ◌∙◌, ap, arith,
}
use vector_search_engine.Platform.{Platform}
use vector_search_engine.Distance.{
  scalar_loop, load_term, lane_loop, hadd, horizontal_sum, scalar_kernel, avx_kernel, kernel,
}

-- a sum as it is computed: zeros, the summands of coordinates, and additions
pub data Sum : Type 0 where
  nothing : Sum
  coordinate : ℕ → Sum
  plus : Sum → Sum → Sum

-- how often the coordinate `x` is a summand
unfoldable pub uses : ℕ → Sum → ℕ
uses x nothing = 0
uses x (coordinate i) = if i == x then 1 else 0
uses x (plus s t) = uses x s + uses x t

-- Each coordinate below the length is a summand once, and no other is one.
pub record Covers (n : ℕ) (s : Sum) : Type 0 where
  pub once : (x : ℕ) → x < n → uses x s ≡ 1
  pub no_other : (x : ℕ) → n ≤ x → uses x s ≡ 0

module _ (P : Platform) (term : P.F → P.F → P.F) (a b : List P.F) where
  -- the float that a sum comes to
  unfoldable pub value : Sum → P.F
  value nothing = P.fzero
  value (coordinate i) = term (get_or a i P.fzero) (get_or b i P.fzero)
  value (plus s t) = P.fadd (value s) (value t)

-- `k` coordinates from `i` on, added one after the other
unfoldable serial : ℕ → ℕ → Sum → Sum
serial zero i s = s
serial (suc k) i s = serial k (suc i) (plus s (coordinate i))

-- `m` blocks of eight coordinates from `i` on, added lane by lane
unfoldable lanes : ℕ → ℕ → (ℕ → Sum) → ℕ → Sum
lanes zero i acc = acc
lanes (suc m) i acc = lanes m (i + 8) (λ l. plus (acc l) (coordinate (i + l)))

-- the sum of eight lanes
unfoldable across : (ℕ → Sum) → Sum
across acc =
    let lo = λ (l : ℕ). plus (acc l) (acc (4 + l)) in plus (plus (lo 0) (lo 1)) (plus (lo 2) (lo 3))

-- the sums of the two branches
unfoldable avx_sum : ℕ → Sum
unfolding serial lanes across
avx_sum n = let m = n / 8 in serial (n - m * 8) (m * 8) (across (lanes m 0 (λ l. nothing)))

unfoldable scalar_sum : ℕ → Sum
unfolding serial
scalar_sum n = serial n 0 nothing

-- how often `x` is one of the `k` numbers from `i` on
unfoldable hits : ℕ → ℕ → ℕ → ℕ
hits zero i x = 0
hits (suc k) i x = (if i == x then 1 else 0) + hits k (suc i) x

hits-append : (k j i x : ℕ) → hits (k + j) i x ≡ hits k i x + hits j (k + i) x
unfolding hits
hits-append zero j i x =
    let s : 0 + j ≡ j = omega arith in let t : 0 + i ≡ i = omega arith in rw (s, t) (omega arith)
hits-append (suc k) j i x =
    let s : suc k + j ≡ suc (k + j) = omega arith in
    let t : suc k + i ≡ k + suc i = omega arith in
    rw (s, t) (omega (arith, hits-append k j (suc i) x))

hits-before : (k i x : ℕ) → x < i → hits k i x ≡ 0
unfolding hits
hits-before zero i x lt = refl
hits-before (suc k) i x lt =
    let other : (i == x) ≡ false = ground arith in
    rw other (omega (arith, hits-before k (suc i) x (omega arith)))

hits-inside : (k i x : ℕ) → i ≤ x → x < i + k → hits k i x ≡ 1
unfolding hits
hits-inside zero i x le lt = absurd (omega arith)
hits-inside (suc k) i x le lt = elim (Bool-cases (i == x)) [
  | inl same ↦
      let before : x < suc i = ground arith in
      rw same (omega (arith, hits-before k (suc i) x before))
  | inr other ↦
      let after : suc i ≤ x = ground arith in
      rw other (omega (arith, hits-inside k (suc i) x after (omega arith)))
]

hits-after : (k i x : ℕ) → i + k ≤ x → hits k i x ≡ 0
unfolding hits
hits-after zero i x le = refl
hits-after (suc k) i x le =
    let other : (i == x) ≡ false = ground arith in
    rw other (omega (arith, hits-after k (suc i) x (omega arith)))

uses-serial : (k i x : ℕ) (s : Sum) → uses x (serial k i s) ≡ uses x s + hits k i x
unfolding serial hits uses
uses-serial zero i x s = omega arith
uses-serial (suc k) i x s = omega (arith, uses-serial k (suc i) x (plus s (coordinate i)))

-- one block more
uses-block :
    (i x : ℕ) (acc : ℕ → Sum)
    → uses x (across (λ l. plus (acc l) (coordinate (i + l)))) ≡ uses x (across acc) + hits 8 i x
unfolding across uses hits
uses-block i x acc =
    let e0 : i + 0 ≡ i = omega arith in
    let e1 : i + 1 ≡ suc i = omega arith in
    let e2 : i + 2 ≡ suc (suc i) = omega arith in
    let e3 : i + 3 ≡ suc (suc (suc i)) = omega arith in
    let e4 : i + 4 ≡ suc (suc (suc (suc i))) = omega arith in
    let e5 : i + 5 ≡ suc (suc (suc (suc (suc i)))) = omega arith in
    let e6 : i + 6 ≡ suc (suc (suc (suc (suc (suc i))))) = omega arith in
    let e7 : i + 7 ≡ suc (suc (suc (suc (suc (suc (suc i)))))) = omega arith in
    rw (e0, e1, e2, e3, e4, e5, e6, e7) (omega arith)

uses-lanes :
    (m i x : ℕ) (acc : ℕ → Sum)
    → uses x (across (lanes m i acc)) ≡ uses x (across acc) + hits (m * 8) i x
unfolding lanes
uses-lanes zero i x acc = let z : 0 * 8 ≡ 0 = omega arith in rw z (unfold hits in omega arith)
uses-lanes (suc m) i x acc =
    let s : suc m * 8 ≡ 8 + m * 8 = omega arith in
    let t : 8 + i ≡ i + 8 = omega arith in
    rw (s, hits-append 8 (m * 8) i x, t)
      (omega (
        arith,
        uses-lanes m (i + 8) x (λ l. plus (acc l) (coordinate (i + l))),
        uses-block i x acc,
      ))

uses-avx : (n x : ℕ) → uses x (avx_sum n) ≡ hits n 0 x
unfolding avx_sum
uses-avx n x =
    let m = n / 8 in
    let s : m * 8 + (n - m * 8) ≡ n = omega arith in
    let t : m * 8 + 0 ≡ m * 8 = omega arith in
    let none : uses x (across (λ l. nothing)) ≡ 0 = unfold across uses in refl in
    let whole : hits n 0 x ≡ hits (m * 8) 0 x + hits (n - m * 8) (m * 8) x =
      rw (s, t) at (hits-append (m * 8) (n - m * 8) 0 x) in
    let blocks = uses-lanes m 0 x (λ l. nothing) in
    uses-serial (n - m * 8) (m * 8) x (across (lanes m 0 (λ l. nothing))) ∙ omega arith

uses-scalar : (n x : ℕ) → uses x (scalar_sum n) ≡ hits n 0 x
unfolding scalar_sum
uses-scalar n x = uses-serial n 0 x nothing ∙ (unfold uses in omega arith)

Covers-hits : (n : ℕ) (s : Sum) → ((x : ℕ) → uses x s ≡ hits n 0 x) → Covers n s
Covers-hits n s e = record {
  once = λ x lt. e x ∙ hits-inside n 0 x (omega arith) (omega arith);
  no_other = λ x le. e x ∙ hits-after n 0 x (omega arith);
}

module _ (P : Platform) (term : P.F → P.F → P.F) (a b : List P.F) where
  value-serial :
      (k i : ℕ) (s : Sum)
      → value P term a b (serial k i s) ≡ scalar_loop P term a b k i (value P term a b s)
  unfolding serial value scalar_loop
  value-serial zero i s = refl
  value-serial (suc k) i s = value-serial k (suc i) (plus s (coordinate i))

  value-lanes :
      (m i l : ℕ) (acc : ℕ → Sum)
      → value P term a b (lanes m i acc l)
        ≡ lane_loop P term a b m i (λ j. value P term a b (acc j)) l
  unfolding lanes value lane_loop load_term
  value-lanes zero i l acc = refl
  value-lanes (suc m) i l acc = value-lanes m (i + 8) l (λ j. plus (acc j) (coordinate (i + j)))

  value-across :
      (acc : ℕ → Sum)
      → value P term a b (across acc) ≡ horizontal_sum P (λ l. value P term a b (acc l))
  unfolding across value horizontal_sum hadd
  value-across acc = refl

  value-avx : (n : ℕ) → value P term a b (avx_sum n) ≡ avx_kernel P term a b n
  unfolding avx_sum avx_kernel value
  value-avx n =
      let m = n / 8 in
      value-serial (n - m * 8) (m * 8) (across (lanes m 0 (λ l. nothing)))
      ∙ ap (scalar_loop P term a b (n - m * 8) (m * 8)) (
          value-across (lanes m 0 (λ l. nothing))
          ∙ (λ j. horizontal_sum P (λ l. value-lanes m 0 l (λ k. nothing) j)))

  value-scalar : (n : ℕ) → value P term a b (scalar_sum n) ≡ scalar_kernel P term a b n
  unfolding scalar_sum scalar_kernel value
  value-scalar n = value-serial n 0 nothing

  value-kernel :
      (n : ℕ) → value P term a b (if P.avx then avx_sum n else scalar_sum n) ≡ kernel P term a b n
  unfolding kernel value
  value-kernel n = elim (Bool-cases P.avx) [
    | inl yes_avx ↦ rw yes_avx (value-avx n)
    | inr no_avx ↦ rw no_avx (value-scalar n)
  ]

-- For every length there are two sums, one for each branch of the preprocessor, that have the
-- summand of each coordinate below the length exactly once and otherwise only zeros, and whatever
-- the float arithmetic, the two vectors and the summand of a coordinate, a kernel gives what this
-- sum comes to when it is added in its order.
pub kernel-Covers :
    (n : ℕ)
    → (s : Sum) × (t : Sum) × Covers n s
      × Covers n t
      × ((P : Platform) (term : P.F → P.F → P.F) (a b : List P.F)
          → value P term a b (if P.avx then s else t) ≡ kernel P term a b n)
kernel-Covers n = (
  avx_sum n,
  scalar_sum n,
  Covers-hits n (avx_sum n) (uses-avx n),
  Covers-hits n (scalar_sum n) (uses-scalar n),
  λ P term a b. value-kernel P term a b n,
)
