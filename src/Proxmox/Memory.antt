-- ===== src/Proxmox/Memory.antt =====
-- providers/proxmox/proxmox.go: `collectGuestMemory`, `parseGuestMemory` and `usedMemory`.
use komari_bridge.Base.{
  ℕ, zero, suc, ◌+◌, String, ◌==◌, Bool, true, false, not, ◌||◌, Option, none, some, is_some,
  get_or, List, [], ◌∷◌, if◌then◌else◌, Result, ok, err, fail_if, ◌>>=◌, ◌>>◌,
}
use komari_bridge.Base.Int.{ℤ, pos, ◌-ℤ◌, ◌*ℤ◌, ltb_ℤ, leb_ℤ, eqb_ℤ}
use komari_bridge.Base.Words.{wrap64}
use komari_bridge.Base.Text.{split, fields, trim_suffix, parse_int}

pub data MemoryError : Type 0 where
  request_failed missing_pid command_failed truncated_output cancelled timed_out : MemoryError
  invalid_value : String → MemoryError
  missing_fields available_exceeds_total swap_inconsistent : MemoryError

pub record GuestMemory : Type 0 where
  pub memory_total : ℤ
  pub memory_available : ℤ
  pub swap_total : ℤ
  pub swap_free : ℤ

-- The maps `values` and `present`, of the four keys that are read.
pub record MemInfo : Type 0 where
  pub total : Option ℤ
  pub available : Option ℤ
  pub swap_total : Option ℤ
  pub swap_free : Option ℤ

abbrev pub no_info : MemInfo
no_info = record { total = none; available = none; swap_total = none; swap_free = none }

unfoldable pub is_known : String → Bool
is_known key =
    (key == "MemTotal") || (key == "MemAvailable") || (key == "SwapTotal") || (key == "SwapFree")

unfoldable pub store_value : String → ℤ → MemInfo → MemInfo
store_value key v m =
    if key == "MemTotal"
    then record m { total = some v }
    else if key == "MemAvailable"
    then record m { available = some v }
    else if key == "SwapTotal"
    then record m { swap_total = some v }
    else record m { swap_free = some v }

-- A value in kB, which an int64 may not hold in bytes.
abbrev put_value : String → Option ℤ → MemInfo → Result MemoryError MemInfo
put_value key none m = err (invalid_value key)
put_value key (some v) m =
    if ltb_ℤ v (pos 0)
    then err (invalid_value key)
    else ok (store_value key (wrap64 (v *ℤ pos 1024)) m)

unfoldable pub put_line : List String → MemInfo → Result MemoryError MemInfo
unfolding is_known store_value parse_int trim_suffix wrap64
put_line (name ∷ value ∷ _) m =
    let key = trim_suffix name ":" in
    if is_known key then put_value key (parse_int value) m else ok m
put_line _ m = ok m

unfoldable pub parse_lines : List String → MemInfo → Result MemoryError MemInfo
unfolding put_line fields
parse_lines [] m = ok m
parse_lines (line ∷ lines) m = put_line (fields line) m >>= parse_lines lines

abbrev value : Option ℤ → ℤ
value v = get_or v (pos 0)

abbrev differ : Bool → Bool → Bool
differ true b = not b
differ false b = b

unfoldable pub check_info : MemInfo → Result MemoryError GuestMemory
check_info m = do
  fail_if (not (is_some m.total) || not (is_some m.available) || leb_ℤ (value m.total) (pos 0))
      missing_fields
  fail_if (ltb_ℤ (value m.total) (value m.available)) available_exceeds_total
  fail_if
      (differ (is_some m.swap_total) (is_some m.swap_free)
        || ltb_ℤ (value m.swap_total) (value m.swap_free))
      swap_inconsistent
  ok (record {
    memory_total = value m.total;
    memory_available = value m.available;
    swap_total = value m.swap_total;
    swap_free = value m.swap_free;
  })

unfoldable pub parse_guest_memory : String → Result MemoryError GuestMemory
unfolding parse_lines check_info split
parse_guest_memory contents = parse_lines (split b'\n' contents) no_info >>= check_info

unfoldable pub used_memory : ℤ → ℤ → ℤ
used_memory total available =
    if leb_ℤ total (pos 0) || ltb_ℤ available (pos 0) || ltb_ℤ total available
    then pos 0
    else total -ℤ available

pub record ExecStatus : Type 0 where
  pub exited : ℤ
  pub exit_code : ℤ
  pub out_data : String
  pub truncated : ℤ

-- The API's answers about one command, the status at each attempt, and whether the context is
-- cancelled in the wait that follows it.
pub record GuestCommand : Type 0 where
  pub started : Option ℤ
  pub status : ℕ → Option ExecStatus
  pub cancels : ℕ → Bool

unfoldable pub finished : ExecStatus → Result MemoryError GuestMemory
unfolding parse_guest_memory
finished s = do
  fail_if (not (eqb_ℤ s.exit_code (pos 0))) command_failed
  fail_if (not (eqb_ℤ s.truncated (pos 0))) truncated_output
  parse_guest_memory s.out_data

-- The loop of at most as many attempts as are left.
unfoldable pub poll : GuestCommand → ℕ → ℕ → Result MemoryError GuestMemory
unfolding finished
poll api zero attempt = err timed_out
poll api (suc left) attempt =
    let rest = poll api left (attempt + 1) in
    elim (api.status attempt) [
      | none ↦ err request_failed
      | some s ↦
          if not (eqb_ℤ s.exited (pos 0))
          then finished s
          else if api.cancels attempt
          then err cancelled
          else rest
    ]

unfoldable pub collect_guest_memory : GuestCommand → Result MemoryError GuestMemory
unfolding poll
collect_guest_memory api = elim api.started [
  | none ↦ err request_failed
  | some pid ↦ if leb_ℤ pid (pos 0) then err missing_pid else poll api 10 0
]
