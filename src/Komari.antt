-- ===== src/Komari.antt =====
-- internal/komari/client.go: registration and the JSON-RPC calls. The server answers as it likes:
-- its reply may depend on the requests that it has been sent before.
pub mod Registered
pub mod Endpoint
use komari_bridge.Base.{
  ℕ, ◌+◌, ◌%◌, String, ◌<>◌, ◌==◌, Bool, not, ◌||◌, Option, none, some, List, [], ◌∷◌, ltb, leb,
  if◌then◌else◌, Result, ok, err, ◌>>=◌,
}
use komari_bridge.Base.Int.{ℤ}
use komari_bridge.Base.Words.{two64}
use komari_bridge.Base.Text.{itoa_ℕ, first_non_empty}
use komari_bridge.Model.{BasicInfo, Report}

pub data ClientError : Type 0 where
  transport_failed : ClientError
  http_status : ℕ → ClientError
  decode_failed : ClientError
  registration_refused : String → ClientError
  rpc_error : ℤ → String → ClientError

-- What comes back of a request: a failure of `http.Do` or of the read, or a status and a body. A
-- body is empty, no JSON, or the value that `json.Unmarshal` reads from it (the first 2^20 bytes).
pub data Body (A : Type 0) : Type 0 where
  empty malformed : Body A
  decoded : A → Body A

pub data Reply (A : Type 0) : Type 0 where
  failed : Reply A
  response : ℕ → Body A → Reply A

-- `envelope[registration]`
pub record Registration : Type 0 where
  pub status : String
  pub uuid : String
  pub token : String
  pub error : String

-- `rpcResponse`: the error's code and message, or null.
abbrev pub RpcResponse : Type 0
RpcResponse = Option (ℤ × String)

pub data Method (F : Type 0) : Type 0 where
  basic_info : BasicInfo → Method F
  report : Report F → Method F

-- The requests: `POST /api/clients/register?name=…` and `POST /api/clients/v2/rpc?token=…`.
pub data Request (F : Type 0) : Type 0 where
  register_client : String → Request F
  rpc_call : String → String → Method F → Request F

pub record Server (F : Type 0) : Type 0 where
  pub on_register : List (Request F) → String → Reply Registration
  pub on_rpc : List (Request F) → Request F → Reply RpcResponse

-- The client's counter and the requests that were sent, the last one first.
pub record Client (F : Type 0) : Type 0 where
  pub seq : ℕ
  pub sent : List (Request F)

-- `doJSON`, for a destination that holds `zero` before.
unfoldable pub do_json : {A : Type 0} → A → Reply A → Result ClientError A
do_json zero failed = err transport_failed
do_json zero (response status body) =
    if ltb status 200 || leb 300 status
    then err (http_status status)
    else elim body [ empty ↦ ok zero | malformed ↦ err decode_failed | decoded a ↦ ok a ]

abbrev no_registration : Registration
no_registration = record { status = ""; uuid = ""; token = ""; error = "" }

accept : Registration → Result ClientError (String × String)
unfolding first_non_empty
accept r =
    if not (r.status == "success") || (r.uuid == "") || (r.token == "")
    then err (registration_refused (first_non_empty (r.error ∷ "unexpected response" ∷ [])))
    else ok (r.uuid, r.token)

check_rpc : RpcResponse → Result ClientError (Unit {0})
check_rpc none = ok tt
check_rpc (some (code, message)) = err (rpc_error code message)

module _ {F : Type 0} (server : Server F) where
  -- `Register`: the uuid and the token of the new client.
  unfoldable pub register : String → Client F → Result ClientError (String × String) × Client F
  unfolding do_json accept
  register name c = (
    do r ← do_json no_registration (server.on_register c.sent name); accept r,
    record c { sent = register_client name ∷ c.sent },
  )

  -- `rpc`, with the counter's new value in the request's id.
  unfoldable pub rpc : String → Method F → Client F → Result ClientError (Unit {0}) × Client F
  unfolding do_json check_rpc
  rpc token method c =
      let seq = (c.seq + 1) % two64 in
      let request = rpc_call token ("bridge-" <> itoa_ℕ seq) method in
      (
        do r ← do_json none (server.on_rpc c.sent request); check_rpc r,
        record { seq = seq; sent = request ∷ c.sent },
      )

  unfoldable pub upload_basic_info :
      String → BasicInfo → Client F → Result ClientError (Unit {0}) × Client F
  unfolding rpc
  upload_basic_info token info = rpc token (basic_info info)

  unfoldable pub send_report :
      String → Report F → Client F → Result ClientError (Unit {0}) × Client F
  unfolding rpc
  send_report token r = rpc token (report r)
