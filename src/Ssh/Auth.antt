-- ===== src/Ssh/Auth.antt =====
-- `authMethods`, and the host key callback of `newProvider`. The keys are parsed by the SSH library.
use komari_bridge.Base.{
  String, ◌==◌, Bool, ◌||◌, Option, none, some, List, [], ◌∷◌, ◌++◌, if◌then◌else◌, Result, ok, err,
  ◌>>=◌,
}

pub data AuthError : Type 0 where
  read_failed parse_failed no_method : AuthError

pub data AuthMethod : Type 0 where
  public_key : String → AuthMethod
  password_login : String → AuthMethod

-- The files, and whether the SSH library can parse a private key.
pub record Keys : Type 0 where
  pub read_file : String → Option String
  pub parses : String → Bool

abbrev file_or_error : Option String → Result AuthError String
file_or_error none = err read_failed
file_or_error (some text) = ok text

module _ (keys : Keys) where
  abbrev key_data : String → String → Result AuthError String
  key_data path inline = if path == "" then ok inline else file_or_error (keys.read_file path)

  abbrev key_methods : String → Result AuthError (List AuthMethod)
  key_methods text =
      if text == ""
      then ok []
      else if keys.parses text
      then ok (public_key text ∷ [])
      else err parse_failed

  abbrev password_methods : String → List AuthMethod
  password_methods password = if password == "" then [] else password_login password ∷ []

  abbrev some_method : List AuthMethod → Result AuthError (List AuthMethod)
  some_method [] = err no_method
  some_method (m ∷ ms) = ok (m ∷ ms)

  unfoldable pub auth_methods : String → String → String → Result AuthError (List AuthMethod)
  auth_methods path inline password = do
    text ← key_data path inline
    methods ← key_methods text
    some_method (methods ++ password_methods password)

-- The callback: is a host key with this fingerprint accepted?
unfoldable pub accepts_host_key : Bool → String → String → Bool
accepts_host_key insecure host_key fingerprint = insecure || (fingerprint == host_key)
