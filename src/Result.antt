-- ===== src/Result.antt =====
-- A C++ call that returns or throws. The text is the exception's what().
use Prim.Native.String.{String}

pub data Result {ℓ} (A : Type ℓ) : Type ℓ where
  ok : A → Result A
  throw : String → Result A
