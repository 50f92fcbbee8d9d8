-- ===== src/Docker/Client.antt =====
-- providers/docker/docker.go: `dockerHTTPClient`, `dockerTLSConfig` and `New`, how an engine is
-- reached.
use komari_bridge.Base.{
  ◌≢◌, ◌≡◌, String, ◌<>◌, ◌==◌, Bool, true, Option, none, some, arith, if◌then◌else◌, Result, ok,
  err, ◌>>=◌,
}
use komari_bridge.Base.Text.{to_lower, trim_slashes}
use komari_bridge.Config.{DockerConfig}

-- `url.URL`, as far as it is read.
pub record Url : Type 0 where
  pub scheme : String
  pub host : String
  pub path : String

-- The authorities and the certificate that a connection uses, as they are read.
pub record TlsConfig : Type 0 where
  pub skip_verify : Bool
  pub authorities : Option String
  pub certificate : Option String

pub data Transport : Type 0 where
  unix_socket : String → Transport
  plain : Transport
  tls : TlsConfig → Transport

pub data ClientError : Type 0 where
  invalid_endpoint no_socket_path plain_tcp plain_http : ClientError
  ca_not_read ca_empty certificate_not_read : ClientError
  unsupported_scheme : String → ClientError

-- `url.Parse`, `filepath.Clean`, `os.ReadFile`, whether a text holds certificates, and
-- `tls.LoadX509KeyPair`.
pub record Library : Type 0 where
  pub parse_url : String → Option Url
  pub clean : String → String
  pub read_file : String → Option String
  pub has_certificates : String → Bool
  pub load_key_pair : String → String → Option String

abbrev authorities_from : Library → Option String → Result ClientError (Option String)
authorities_from lib none = err ca_not_read
authorities_from lib (some pem) = if lib.has_certificates pem then ok (some pem) else err ca_empty

abbrev certificate_from : Option String → Result ClientError (Option String)
certificate_from none = err certificate_not_read
certificate_from (some c) = ok (some c)

unfoldable pub tls_config : Library → DockerConfig → Result ClientError TlsConfig
tls_config lib cfg = do
  authorities ←
      if cfg.tls_ca_file == ""
      then ok none
      else authorities_from lib (lib.read_file cfg.tls_ca_file)
  certificate ←
      if cfg.tls_cert_file == ""
      then ok none
      else certificate_from (lib.load_key_pair cfg.tls_cert_file cfg.tls_key_file)
  ok (record {
    skip_verify = cfg.insecure_skip_verify;
    authorities = authorities;
    certificate = certificate;
  })

abbrev socket_at : Library → String → Result ClientError (String × Transport)
socket_at lib path =
    if path == "" then err no_socket_path else ok ("http://docker", unix_socket (lib.clean path))

abbrev secured :
    DockerConfig → Result ClientError TlsConfig → Result ClientError (String × Transport)
secured cfg (err e) = err e
secured cfg (ok config) = ok (trim_slashes cfg.endpoint, tls config)

abbrev transport_at : Library → DockerConfig → Url → Result ClientError (String × Transport)
transport_at lib cfg u =
    let scheme = to_lower u.scheme in
    if scheme == "unix"
    then socket_at lib u.path
    else if scheme == "tcp"
    then (if cfg.insecure_allow_http then ok ("http://" <> u.host, plain) else err plain_tcp)
    else if scheme == "http"
    then (if cfg.insecure_allow_http then ok (trim_slashes cfg.endpoint, plain) else err plain_http)
    else if scheme == "https"
    then secured cfg (tls_config lib cfg)
    else err (unsupported_scheme u.scheme)

abbrev client_for : Library → DockerConfig → Option Url → Result ClientError (String × Transport)
client_for lib cfg none = err invalid_endpoint
client_for lib cfg (some u) = transport_at lib cfg u

-- The base URL and the transport of the engine's client.
unfoldable pub docker_http_client : Library → DockerConfig → Result ClientError (String × Transport)
unfolding tls_config trim_slashes to_lower
docker_http_client lib cfg = client_for lib cfg (lib.parse_url cfg.endpoint)

secured_tls :
    (cfg : DockerConfig) (r : Result ClientError TlsConfig) (base : String)
    → secured cfg r ≢ ok (base, plain)
secured_tls cfg (err e) base = λ h. cc
secured_tls cfg (ok config) base = λ h. cc

transport_at_plain :
    (lib : Library) (cfg : DockerConfig) (u : Option Url) (base : String)
    → client_for lib cfg u ≡ ok (base, plain)
    → cfg.insecure_allow_http ≡ true
transport_at_plain lib cfg none base h = cc
transport_at_plain lib cfg (some u) base h =
    ground (arith, secured_tls cfg (tls_config lib cfg) base)

-- An engine is reached without TLS over the network only where the configuration allows plain HTTP,
-- whatever its endpoint is.
pub docker_http_client_plain :
    (lib : Library) (cfg : DockerConfig) (base : String)
    → docker_http_client lib cfg ≡ ok (base, plain)
    → cfg.insecure_allow_http ≡ true
unfolding docker_http_client
docker_http_client_plain lib cfg base h =
    transport_at_plain lib cfg (lib.parse_url cfg.endpoint) base h
