-- ===== src/Auth.antt =====
-- `getAccessToken` and `parseAccessToken` of auth.cpp: the token fetched on a handle of its own.
pub mod Laws
mod Tests
use deribit_trading_system.Base.{ℕ, Bool, true, false, [], ◌∷◌, Option, none, some, if◌then◌else◌}
use deribit_trading_system.Base.Outcome.{Outcome, ok, throws, parse_error}
use deribit_trading_system.Text.{Bytes, txt}
use deribit_trading_system.Json.{Numbers, Nlohmann}
use deribit_trading_system.Curl.{
  Curl, Settings, followlocation, writedata, writefunction, url, deliver,
}
use deribit_trading_system.Token.{auth_url, token_of}

module _ {n : Numbers} (j : Nlohmann n) where
  unfoldable pub parse_access_token : Bytes → Outcome Bytes
  parse_access_token response = elim (j.parse response) [
    | none ↦ throws parse_error
    | some json ↦ if j.contains json (txt "result") then token_of j json else ok []
  ]

  module _ (c : Curl) where
    -- The options on the handle, the last one first.
    abbrev pub auth_settings : Bytes → Settings
    auth_settings u = followlocation 1 ∷ writedata ∷ writefunction ∷ url u ∷ []

    -- What the transfer leaves in `readBuffer`. A failure is printed and otherwise ignored.
    unfoldable pub read_token : Option ℕ → Bytes → Bytes → c.World → Bytes × c.World
    read_token none client_id client_secret w = ([], w)
    read_token (some curl) client_id client_secret w =
        let (good, pieces, w') = c.perform (auth_settings (auth_url client_id client_secret)) w in
        (deliver pieces [], c.easy_cleanup curl w')

    unfoldable pub get_access_token : Bytes → Bytes → c.World → Outcome Bytes × c.World
    get_access_token client_id client_secret w =
        let (_, w1) = c.global_init w in
        let (curl, w2) = c.easy_init w1 in
        let (read_buffer, w3) = read_token curl client_id client_secret w2 in
        (parse_access_token read_buffer, c.global_cleanup w3)
