-- ===== src/Komari/Endpoint.antt =====
-- internal/komari/client.go: `New`, the endpoint that a client sends its requests to.
use komari_bridge.Base.{String, ◌==◌, ◌||◌, Option, none, some, Result, ok, err, fail_if, ◌>>◌}
use komari_bridge.Base.Text.{trim_slashes}
use komari_bridge.Proxmox.Provider.{Url}

pub data EndpointError : Type 0 where
  invalid_endpoint : EndpointError

abbrev endpoint_at : Option Url → Result EndpointError String
endpoint_at none = err invalid_endpoint
endpoint_at (some u) = do fail_if (u.scheme == "" || u.host == "") invalid_endpoint; ok u.text

-- `parse_url` is `url.Parse`.
unfoldable pub new_client : (String → Option Url) → String → Result EndpointError String
unfolding trim_slashes
new_client parse_url endpoint = endpoint_at (parse_url (trim_slashes endpoint))
