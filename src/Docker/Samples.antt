-- ===== src/Docker/Samples.antt =====
-- providers/docker/docker.go: `networkRates` and `containerUptime`.
use komari_bridge.Base.{ℕ, ◌-◌, ◌%◌, String, not, ◌||◌, Option, none, some, ltb, if◌then◌else◌}
use komari_bridge.Base.Int.{ℤ, pos, negsuc}
use komari_bridge.Base.Words.{two64}
use komari_bridge.Base.Dict.{Dict, lookup, insert}
use komari_bridge.Base.Floats.{Float64}
use komari_bridge.Base.Seconds.{seconds}
use komari_bridge.Base.Time.{time_sub}
use komari_bridge.Docker.Usage.{signed}

-- `networkSample`
pub record NetworkSample : Type 0 where
  pub up : ℕ
  pub down : ℕ
  pub at : ℕ

-- `uint64` of an integer.
abbrev to_uint64 : ℤ → ℕ
to_uint64 (pos n) = n % two64
to_uint64 (negsuc n) = two64 - 1 - n % two64

module _ {F : Type 0} (fl : Float64 F) where
  open fl use {of_int, truncate, fdiv, flt}

  abbrev rate : F → ℕ → ℕ → ℤ
  rate elapsed now before =
      signed (to_uint64 (truncate (fdiv (of_int (pos (now - before))) elapsed)))

  -- The rates of a sample after the last one; a counter that went back gives none.
  unfoldable pub rates_since : Option NetworkSample → NetworkSample → ℤ × ℤ
  unfolding seconds time_sub signed
  rates_since none sample = (pos 0, pos 0)
  rates_since (some last) sample =
      let elapsed = seconds ⦃fl = fl⦄ (time_sub sample.at last.at) in
      if ltb sample.up last.up || ltb sample.down last.down || not (flt (of_int (pos 0)) elapsed)
      then (pos 0, pos 0)
      else (rate elapsed sample.up last.up, rate elapsed sample.down last.down)

  unfoldable pub network_rates :
      String → NetworkSample → Dict NetworkSample → (ℤ × ℤ) × Dict NetworkSample
  unfolding lookup insert rates_since
  network_rates key sample samples =
      (rates_since (lookup key samples) sample, insert key sample samples)

  -- `containerUptime`, of the time that the start stands for.
  unfoldable pub uptime_since : Option ℕ → ℕ → ℤ
  unfolding seconds time_sub
  uptime_since none now = pos 0
  uptime_since (some started) now =
      if ltb now started then pos 0 else truncate (seconds ⦃fl = fl⦄ (time_sub now started))
