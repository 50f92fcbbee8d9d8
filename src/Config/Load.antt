-- ===== src/Config/Load.antt =====
-- internal/config/config.go: `Load`.
use komari_bridge.Base.{◌≡◌, refl, String, Option, none, some, Result, ok, err}
use komari_bridge.Config.{Config, apply_defaults}
use komari_bridge.Config.Checks.{ConfigError, Checked}
use komari_bridge.Config.Validate.{validate, IsConfig, validate_iff}

pub data LoadError : Type 0 where
  read_failed parse_failed : LoadError
  invalid_config : ConfigError → LoadError

-- `os.ReadFile`, `os.ExpandEnv` in the environment of the process, and `yaml.Unmarshal`.
pub record Source : Type 0 where
  pub read_file : String → Option String
  pub expand_env : String → String
  pub unmarshal : String → Option Config

abbrev if_valid : Config → Checked → Result LoadError Config
if_valid cfg (ok _) = ok cfg
if_valid cfg (err e) = err (invalid_config e)

abbrev decoded : Option Config → Result LoadError Config
decoded none = err parse_failed
decoded (some cfg) = if_valid (apply_defaults cfg) (validate (apply_defaults cfg))

abbrev contents : Source → Option String → Result LoadError Config
contents source none = err read_failed
contents source (some text) = decoded (source.unmarshal (source.expand_env text))

unfoldable pub load : Source → String → Result LoadError Config
unfolding apply_defaults validate
load source path = contents source (source.read_file path)

if_valid-IsConfig :
    (cfg : Config) (v : Checked) (loaded : Config)
    → validate cfg ≡ v
    → if_valid cfg v ≡ ok loaded
    → IsConfig loaded
if_valid-IsConfig cfg (ok _) loaded e h =
    let same : cfg ≡ loaded = cc in rw⁻¹ same ((validate_iff cfg).0 e)
if_valid-IsConfig cfg (err x) loaded e h = cc

decoded-IsConfig :
    (cfg : Option Config) (loaded : Config) → decoded cfg ≡ ok loaded → IsConfig loaded
decoded-IsConfig none loaded h = cc
decoded-IsConfig (some cfg) loaded h =
    if_valid-IsConfig (apply_defaults cfg) (validate (apply_defaults cfg)) loaded refl h

contents-IsConfig :
    (source : Source) (text : Option String) (loaded : Config)
    → contents source text ≡ ok loaded
    → IsConfig loaded
contents-IsConfig source none loaded h = cc
contents-IsConfig source (some text) loaded h = decoded-IsConfig _ loaded h

-- A configuration that is loaded passes every check, whatever the file and the environment hold.
pub load-IsConfig :
    (source : Source) (path : String) (loaded : Config)
    → load source path ≡ ok loaded
    → IsConfig loaded
unfolding load
load-IsConfig source path loaded h = contents-IsConfig source (source.read_file path) loaded h
