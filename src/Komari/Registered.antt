-- ===== src/Komari/Registered.antt =====
-- What a successful call of the client promises.
use komari_bridge.Base.{String, ◌≡◌, ◌≢◌, ok, arith, eq_iff}
use komari_bridge.Komari.{Server, Client, register}

-- A registration that succeeds has a uuid and a token.
pub register-ne :
    {F : Type 0} (server : Server F) (name : String) (c : Client F) {uuid token : String}
    → (register server name c).0 ≡ ok (uuid, token)
    → (uuid ≢ "") × (token ≢ "")
unfolding register
register-ne server name c {uuid} {token} h = ground (arith, eq_iff uuid "", eq_iff token "")
