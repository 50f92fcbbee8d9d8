-- ===== src/Ssh/Gpus.antt =====
-- `formatGPUName` and `gpuReport`.
use komari_bridge.Base.{
  ℕ, ◌+◌, String, ◌<>◌, ◌==◌, List, [], ◌∷◌, map, length, ltb, get_or, if◌then◌else◌,
}
use komari_bridge.Base.Int.{pos}
use komari_bridge.Base.Dict.{Dict, lookup, insert}
use komari_bridge.Base.Floats.{Float64}
use komari_bridge.Base.Text.{trim_space, join, itoa_ℕ}
use komari_bridge.Model.{GpuDevice, GpuReport}

-- The map of counts keeps the order in which the names were first seen.
module _ {F : Type 0} where
  unfoldable pub count_names : List (GpuDevice F) → Dict ℕ → Dict ℕ
  unfolding trim_space lookup insert
  count_names [] counts = counts
  count_names (gpu ∷ gpus) counts =
      let name = trim_space gpu.name in
      count_names gpus
        (if name == "" then counts else insert name (get_or (lookup name counts) 0 + 1) counts)

abbrev name_times : String × ℕ → String
name_times (name, count) = if ltb 1 count then name <> " × " <> itoa_ℕ count else name

unfoldable pub format_gpu_name : {F : Type 0} → List (GpuDevice F) → String
unfolding count_names join itoa_ℕ
format_gpu_name gpus = join ", " (map name_times (count_names gpus []))

module _ {F : Type 0} ⦃fl : Float64 F⦄ where
  open fl use {of_int, fadd, fdiv}

  abbrev sum_utilization : F → List (GpuDevice F) → F
  sum_utilization total [] = total
  sum_utilization total (gpu ∷ gpus) = sum_utilization (fadd total gpu.utilization) gpus

  unfoldable pub gpu_report : List (GpuDevice F) → GpuReport F
  gpu_report gpus = record {
    count = pos (length gpus);
    average_usage = fdiv (sum_utilization (of_int (pos 0)) gpus) (of_int (pos (length gpus)));
    detailed_info = gpus;
  }
