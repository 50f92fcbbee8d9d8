-- ===== src/Buildinfo.antt =====
-- internal/buildinfo/buildinfo.go: the version that a client reports to Komari. The variables that
-- the build replaces are the fields of `Build`.
use komari_bridge.Base.Text.{trim_space, replace_chars, equal_fold}
use Prim.Native.Char.{Char, code}
use Prim.Native.String.{len, slice}
use komari_bridge.Base.{String, ◌≡◌, refl, ◌<>◌, ◌==◌, ◌||◌, ltb, if◌then◌else◌, eqb}

pub record Build : Type 0 where
  pub version : String
  pub commit : String
  pub build_time : String

-- `strings.ReplaceAll(s, "_", "-")`, a character at a time.
abbrev dash : Char → Char
dash c = if eqb (code c) b'_' then "-" else c

unfoldable pub collector_name : String → String
unfolding trim_space replace_chars
collector_name collector =
    let name = trim_space (replace_chars dash collector) in
    if name == "linux-ssh"
    then "agentless-ssh"
    else if (name == "windows-wsl") || (name == "windows-ssh-wsl")
    then "windows-wsl"
    else name

unfoldable pub short_commit : String → String
unfolding trim_space equal_fold
short_commit text =
    let commit = trim_space text in
    if (commit == "") || equal_fold commit "unknown"
    then ""
    else if ltb 7 (len commit)
    then slice commit 0 7
    else commit

unfoldable pub client_version : Build → String → String
unfolding collector_name short_commit
client_version build collector =
    let trimmed = trim_space build.version in
    let version = if trimmed == "" then "unknown" else trimmed in
    let commit = short_commit build.commit in
    let name = collector_name collector in
    let base = "komari-bridge " <> version in
    let stamped = if commit == "" then base else base <> " (" <> commit <> ")" in
    if name == "" then stamped else stamped <> " / " <> name

abbrev release : Build
release = record { version = "v1.2.3"; commit = "abcdef1234567"; build_time = "now" }

release_version :
    client_version release "linux_ssh" ≡ "komari-bridge v1.2.3 (abcdef1) / agentless-ssh"
unfolding client_version
release_version = refl
