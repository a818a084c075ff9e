-- ===== src/Distance.antt =====
-- The distance kernels of include/hnsw.hpp: dotProduct, l2SquaredDistance, cosineDistance. Both
-- preprocessor branches are modelled; P.avx says which one the build has. A 256-bit or 128-bit
-- register is the function from a lane to its float, and each intrinsic works as documented:
-- loads and arithmetic lane by lane, hadd on neighbouring pairs. A read past a vector is zero;
-- the vectors of an index have `n` elements.
use vector_search_engine.Base.{
  ℕ, zero, suc, ◌+◌, ◌-◌, ◌*◌, ◌/◌, Bool, true, false, List, get_or, if◌then◌else◌,
}
use vector_search_engine.Platform.{Platform}
pub mod Sums

module _ (P : Platform) where
  -- the summand of dotProduct and that of l2SquaredDistance
  unfoldable pub product : P.F → P.F → P.F
  product x y = P.fmul x y

  unfoldable pub squared_difference : P.F → P.F → P.F
  squared_difference x y = let d = P.fsub x y in P.fmul d d

module _ (P : Platform) (term : P.F → P.F → P.F) (a b : List P.F) where
  -- `for (; i < n; ++i) res += term(a[i], b[i])`, with the rounds left first
  unfoldable pub scalar_loop : ℕ → ℕ → P.F → P.F
  scalar_loop zero i res = res
  scalar_loop (suc k) i res =
      scalar_loop k (suc i) (P.fadd res (term (get_or a i P.fzero) (get_or b i P.fzero)))

  -- a register of eight lanes at `i`, and the loop over such blocks
  unfoldable pub load_term : ℕ → ℕ → P.F
  load_term i lane = term (get_or a (i + lane) P.fzero) (get_or b (i + lane) P.fzero)

  unfoldable pub lane_loop : ℕ → ℕ → (ℕ → P.F) → ℕ → P.F
  lane_loop zero i acc = acc
  lane_loop (suc m) i acc = lane_loop m (i + 8) (λ lane. P.fadd (acc lane) (load_term i lane))

module _ (P : Platform) where
  -- _mm_hadd_ps(x, x)
  unfoldable pub hadd : (ℕ → P.F) → ℕ → P.F
  hadd x zero = P.fadd (x 0) (x 1)
  hadd x (suc zero) = P.fadd (x 2) (x 3)
  hadd x (suc (suc zero)) = P.fadd (x 0) (x 1)
  hadd x (suc (suc (suc _))) = P.fadd (x 2) (x 3)

  -- the two halves added, two hadds, and the lowest lane
  unfoldable pub horizontal_sum : (ℕ → P.F) → P.F
  unfolding hadd
  horizontal_sum acc = let lo = λ (lane : ℕ). P.fadd (acc lane) (acc (4 + lane)) in hadd (hadd lo) 0

module _ (P : Platform) (term : P.F → P.F → P.F) (a b : List P.F) (n : ℕ) where
  unfoldable pub scalar_kernel : P.F
  unfolding scalar_loop
  scalar_kernel = scalar_loop P term a b n 0 P.fzero

  unfoldable pub avx_kernel : P.F
  unfolding scalar_loop lane_loop horizontal_sum load_term
  avx_kernel =
      let m = n / 8 in
      let acc = lane_loop P term a b m 0 (λ lane. P.fzero) in
      scalar_loop P term a b (n - m * 8) (m * 8) (horizontal_sum P acc)

  unfoldable pub kernel : P.F
  unfolding scalar_kernel avx_kernel
  kernel = if P.avx then avx_kernel else scalar_kernel

module _ (P : Platform) (a b : List P.F) (n : ℕ) where
  unfoldable pub dot_product : P.F
  unfolding kernel product
  dot_product = kernel P (product P) a b n

  unfoldable pub l2_squared_distance : P.F
  unfolding kernel squared_difference
  l2_squared_distance = kernel P (squared_difference P) a b n

  unfoldable pub cosine_distance : P.F
  unfolding dot_product
  cosine_distance = P.fsub P.fone dot_product
