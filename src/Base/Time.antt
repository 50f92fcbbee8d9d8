-- ===== src/Base/Time.antt =====
-- Go's `time.Time` as a number of nanoseconds since its zero time, and `time.Duration`.
use Prim.Native.Nat.{ℕ, ◌+◌, ◌-◌, ◌<◌, min}
use mathlib.Core.Path.{◌≡◌}
use mathlib.Core.Logic.{◌↔◌}
use mathlib.Core.Bool.{Bool, true}
use native.Mathlib.Omega.{arith}
use komari_bridge.Base.Tests.{leb, if◌then◌else◌}
use komari_bridge.Base.Int.{ℤ, pos, negsuc, ltb_ℤ}
use komari_bridge.Base.Words.{two63}

abbrev pub second : ℕ
second = 1_000_000_000

abbrev pub minute : ℕ
minute = 60_000_000_000

-- `a.Sub(b)`, which stops at the ends of a duration.
unfoldable pub time_sub : ℕ → ℕ → ℤ
time_sub a b =
    if leb b a then pos (min (a - b) (two63 - 1)) else negsuc (min (b - a - 1) (two63 - 1))

-- `now.Sub(saved) > period`.
abbrev pub is_older : ℕ → ℕ → ℕ → Bool
is_older now saved period = ltb_ℤ (pos period) (time_sub now saved)

pub is_older_iff :
    (now saved period : ℕ)
    → period < two63 - 1
    → (is_older now saved period ≡ true) ↔ (saved + period < now)
unfolding time_sub
is_older_iff now saved period h = ground arith
