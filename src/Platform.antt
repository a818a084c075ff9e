-- ===== src/Platform.antt =====
-- What include/hnsw.hpp takes from the machine and the C++ runtime: binary32 and binary64
-- arithmetic, the mt19937 generator behind `rng_`, and whether the build defines __AVX__.
-- These are parameters of the model; IsOrdered is what the ordering of distances relies on.
use vector_search_engine.Base.{ℕ, ◌≡◌, Bool, true, false}

pub record Platform : Type 1 where
  -- float
  pub F : Type 0
  pub fzero : F
  pub fone : F
  pub ftiny : F
  pub fmax : F
  pub fadd : F → F → F
  pub fsub : F → F → F
  pub fmul : F → F → F
  pub fdiv : F → F → F
  pub fsqrt : F → F
  pub flt : F → F → Bool
  pub fle : F → F → Bool
  -- double, as far as `levelMult_` and `randomLevel` use it
  pub D : Type 0
  pub dzero : D
  pub done : D
  pub dmin : D
  pub of_size : ℕ → D
  pub dmul : D → D → D
  pub ddiv : D → D → D
  pub dneg : D → D
  pub dlog : D → D
  pub dle : D → D → Bool
  -- static_cast<int> of a number that is not negative and lies in the range of int, where it is
  -- defined
  pub to_int : D → ℕ
  -- std::mt19937 and std::uniform_real_distribution<double>(0, 1)
  pub Rng : Type 0
  pub seeded : ℕ → Rng
  pub uniform : Rng → D × Rng
  pub avx : Bool

-- `<` on floats that are not NaN is a strict weak order.
pub record IsOrdered (P : Platform) : Type 0 where
  pub irrefl : (a : P.F) → P.flt a a ≡ false
  pub trans : (a b c : P.F) → P.flt a b ≡ true → P.flt b c ≡ true → P.flt a c ≡ true
  pub weak : (a b c : P.F) → P.flt a b ≡ false → P.flt b c ≡ false → P.flt a c ≡ false
