-- ===== src/Ssh/Counters.antt =====
-- `counterPercent`, `rates` and `clampUsed`.
use komari_bridge.Base.{
  ◌^◌, ℕ, ◌-◌, ◌*◌, ◌%◌, ◌≤◌, ◌<◌, ◌≡◌, refl, ◌⊎◌, inl, inr, Bool-cases, ◌||◌, ltb, leb, eqb, arith,
  if◌then◌else◌,
}
use komari_bridge.Base.Int.{ℤ, pos, ◌-ℤ◌, ◌≤ℤ◌, ltb_ℤ, leb_ℤ}
use komari_bridge.Base.Words.{two64, sub_uint64, to_int64}
use komari_bridge.Base.Floats.{Float64}
use komari_bridge.Base.Seconds.{seconds}
use komari_bridge.Bridge.Validate.Sound.{IsUsage}

pub record CpuCounters : Type 0 where
  pub total : ℕ
  pub idle : ℕ

pub record NetworkCounters : Type 0 where
  pub up : ℕ
  pub down : ℕ

unfoldable pub clamp_used : ℤ → ℤ → ℤ
clamp_used total free = if ltb_ℤ free (pos 0) || ltb_ℤ total free then pos 0 else total -ℤ free

pub clamp_used-IsUsage : (total free : ℤ) → pos 0 ≤ℤ total → IsUsage total (clamp_used total free)
unfolding clamp_used ◌-ℤ◌
clamp_used-IsUsage total free h = ground arith

-- `int64(kilobytes * 1024)` of a uint64.
unfoldable pub bytes_of : ℕ → ℤ
unfolding to_int64
bytes_of kilobytes = to_int64 (kilobytes * 1024 % two64)

pub bytes_of-pos : (n : ℕ) → n < 2 ^ 53 → bytes_of n ≡ pos (n * 1024)
unfolding bytes_of
bytes_of-pos n h = ground arith

module _ {F : Type 0} ⦃fl : Float64 F⦄ where
  open fl use {of_int, truncate, fmul, fdiv}

  abbrev pub percent : ℕ → ℕ → F
  percent busy total = fdiv (fmul (of_int (pos busy)) (of_int (pos 100))) (of_int (pos total))

  -- The busy share since the last counters; the difference of the idle counters wraps.
  unfoldable pub counter_percent : CpuCounters → CpuCounters → F
  unfolding sub_uint64
  counter_percent current previous =
      let total = sub_uint64 current.total previous.total in
      let idle = sub_uint64 current.idle previous.idle in
      if eqb previous.total 0 || leb current.total previous.total || ltb total idle
      then of_int (pos 0)
      else percent (total - idle) total

  -- The usage is 0, or the share of a number in a positive one that is not smaller, whatever the
  -- counters do: they may stand still, go back or wrap.
  pub counter_percent_bounds :
      (current previous : CpuCounters)
      → current.total < two64
      → (counter_percent current previous ≡ of_int (pos 0))
        ⊎ ((busy : ℕ) × (total : ℕ) × (busy ≤ total)
            × (0 < total)
            × (counter_percent current previous ≡ percent busy total))
  unfolding counter_percent
  counter_percent_bounds current previous h =
      let total = sub_uint64 current.total previous.total in
      let idle = sub_uint64 current.idle previous.idle in
      elim (Bool-cases
        (eqb previous.total 0 || leb current.total previous.total || ltb total idle)) [
          | inl unknown ↦ inl (rw unknown refl)
          | inr known ↦ inr (total - idle, total, omega arith, ground arith, rw known refl)
        ]

module _ {F : Type 0} (fl : Float64 F) where
  open fl use {of_int, truncate, fdiv}

  abbrev pub rate : ℕ → ℕ → ℤ → ℤ
  rate current previous elapsed =
      truncate (fdiv (of_int (pos (current - previous))) (seconds ⦃fl = fl⦄ elapsed))

  unfoldable pub rates : NetworkCounters → NetworkCounters → ℤ → ℤ × ℤ
  unfolding seconds
  rates current previous elapsed =
      if leb_ℤ elapsed (pos 0)
        || eqb previous.up 0
        || ltb current.up previous.up
        || ltb current.down previous.down
      then (pos 0, pos 0)
      else (rate current.up previous.up elapsed, rate current.down previous.down elapsed)
