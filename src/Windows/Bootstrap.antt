-- ===== src/Windows/Bootstrap.antt =====
-- providers/windowsssh/collector.go: `collectorScript` and `collectorBootstrapCommand`, around the two
-- embedded scripts, which are not Go.
use komari_bridge.Base.{
  ℕ, ◌+◌, ◌*◌, ◌/◌, ◌%◌, ◌<◌, ◌^◌, ◌≡◌, refl, String, ◌<>◌, Bool, List, [], ◌∷◌, All, arith,
  if◌then◌else◌,
}

-- `base64.StdEncoding.EncodeToString`, `utf16.Encode`, the bytes of a string, `strings.ReplaceAll` and
-- the embedded scripts.
pub record Scripts : Type 0 where
  pub base64 : List ℕ → String
  pub utf16 : String → List ℕ
  pub bytes : String → List ℕ
  pub replace_all : String → String → String → String
  pub power_shell : String
  pub wsl_python : String

unfoldable pub collector_script : Scripts → Bool → String
collector_script lib include_windows =
    let payload = lib.base64 (lib.bytes lib.wsl_python) in
    let script = lib.replace_all lib.power_shell "__WSL_PAYLOAD__" payload in
    lib.replace_all script "__COLLECT_WINDOWS__" (if include_windows then "$true" else "$false")

abbrev pub bootstrap : String
bootstrap = "$script = [Console]::In.ReadToEnd(); Invoke-Expression $script"

-- The loop that writes each unit as two bytes, the low one first.
unfoldable pub little_endian : List ℕ → List ℕ
little_endian [] = []
little_endian (unit ∷ units) = unit % 256 ∷ unit / 256 % 256 ∷ little_endian units

abbrev pub encoded_command : String → String
encoded_command payload =
    "powershell.exe -NoLogo -NoProfile -NonInteractive -EncodedCommand " <> payload

unfoldable pub collector_bootstrap_command : Scripts → String
unfolding little_endian
collector_bootstrap_command lib = encoded_command (lib.base64 (little_endian (lib.utf16 bootstrap)))

-- The units that PowerShell reads from the bytes.
pub units_of : List ℕ → List ℕ
units_of [] = []
units_of (low ∷ []) = []
units_of (low ∷ high ∷ bytes) = (high * 256 + low) ∷ units_of bytes

-- A unit of UTF-16.
pub record IsUnit16 (n : ℕ) : Type 0 where
  pub below : n < 2 ^ 16

same_unit : (n : ℕ) → n < 2 ^ 16 → n / 256 % 256 * 256 + n % 256 ≡ n
same_unit n h = omega arith

-- The bytes of any UTF-16 text are read as its units again.
pub units_of-little_endian :
    (units : List ℕ) → All IsUnit16 units → units_of (little_endian units) ≡ units
unfolding units_of little_endian
units_of-little_endian [] h = refl
units_of-little_endian (unit ∷ units) h =
    rw (units_of-little_endian units h.1, same_unit unit h.0.below) refl
