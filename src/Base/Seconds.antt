-- ===== src/Base/Seconds.antt =====
-- `Duration.Seconds` of Go's `time`.
use Prim.Native.Nat.{ℕ, ◌+◌, ◌/◌, ◌%◌}
use komari_bridge.Base.Int.{ℤ, pos, negsuc, sub_ℕ}
use komari_bridge.Base.Time.{second}
use komari_bridge.Base.Floats.{Float64}

module _ {F : Type 0} ⦃fl : Float64 F⦄ where
  open fl use {of_int, fadd, fdiv}

  -- Whole seconds, and the rest as a fraction, both with the sign.
  abbrev signed_seconds : ℕ → (ℕ → ℤ) → F
  signed_seconds n sign =
      fadd (of_int (sign (n / second))) (fdiv (of_int (sign (n % second))) (of_int (pos second)))

  unfoldable pub seconds : ℤ → F
  seconds (pos n) = signed_seconds n pos
  seconds (negsuc n) = signed_seconds (n + 1) (sub_ℕ 0)
