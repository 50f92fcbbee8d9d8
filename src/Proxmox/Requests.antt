-- ===== src/Proxmox/Requests.antt =====
-- providers/proxmox/proxmox.go: `doJSON`, what an answer of the API is taken for.
use komari_bridge.Base.{ℕ, ◌||◌, Option, none, some, ltb, leb, if◌then◌else◌, Result, ok, err}
use komari_bridge.Komari.{Body, Reply}

pub data RequestError : Type 0 where
  transport_failed : RequestError
  http_status : ℕ → RequestError
  decode_failed : RequestError

-- An empty body is no JSON either.
abbrev decode : {A : Type 0} → Body A → Result RequestError A
decode (Body.decoded a) = ok a
decode _ = err decode_failed

unfoldable pub do_json : {A : Type 0} → Reply A → Result RequestError A
do_json Reply.failed = err transport_failed
do_json (Reply.response status body) =
    if ltb status 200 || leb 300 status then err (http_status status) else decode body

abbrev pub answered : {A : Type 0} → Result RequestError A → Option A
answered (ok a) = some a
answered (err _) = none
