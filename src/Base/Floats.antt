-- ===== src/Base/Floats.antt =====
-- The operations of `float64` that the program uses, over an unknown type of values.
use mathlib.Core.Bool.{Bool}
use komari_bridge.Base.Int.{ℤ}

pub record Float64 (F : Type 0) : Type 0 where
  -- `float64(n)` of an integer
  pub of_int : ℤ → F
  -- `int64(x)`, `uint64(x)` and `int(x)`, which drop the fraction
  pub truncate : F → ℤ
  pub fadd : F → F → F
  pub fmul : F → F → F
  pub fdiv : F → F → F
  pub flt : F → F → Bool
  pub is_nan : F → Bool
  pub is_inf : F → Bool
