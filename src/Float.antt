-- ===== src/Float.antt =====
-- The floating-point numbers of the program. A value is its bit pattern; the operations belong to
-- the compiler and the C++ library, and are a parameter of every definition that uses them.
use argentum_online_taller_g.Prelude.{ℕ, Bool}
use argentum_online_taller_g.Prelude.Int.{ℤ}

pub data Float : Type 0 where
  bits : ℕ → Float

-- `float` operations, and those of `double` where the code promotes to it.
pub record FloatOps : Type 0 where
  pub of_int : ℤ → Float
  pub of_u64 : ℕ → Float
  pub add : Float → Float → Float
  pub sub : Float → Float → Float
  pub mul : Float → Float → Float
  pub mul_double : Float → Float → Float
  -- `std::pow(int, float)`, a `double`.
  pub pow : ℤ → Float → Float
  -- `std::pow(float, int)` as a `float`, and `std::sqrt(int)` as a `float`.
  pub pow_float : Float → ℤ → Float
  pub sqrt : ℤ → Float
  pub lt : Float → Float → Bool
  pub le : Float → Float → Bool
  -- `static_cast<int>` and `static_cast<uint64_t>`.
  pub to_int : Float → ℤ
  pub to_u64 : Float → ℕ
