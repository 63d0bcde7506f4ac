-- ===== src/Auth/Laws.antt =====
-- `getAccessToken` of auth.cpp beside `fetchAccessToken` of token_manager.cpp.
use deribit_trading_system.Base.{ℕ, ◌≡◌, refl, true, [], none, some}
use deribit_trading_system.Base.Outcome.{Outcome, ok, throws, parse_error}
use deribit_trading_system.Text.{Bytes}
use deribit_trading_system.Json.{Numbers, Nlohmann}
use deribit_trading_system.Curl.{Curl}
use deribit_trading_system.Auth.{parse_access_token, auth_settings, read_token, get_access_token}
use deribit_trading_system.Token.{Clock, TokenManager, auth_url, fetch_on, fetch_access_token}
use deribit_trading_system.Token

module _ {n : Numbers} (j : Nlohmann n) (c : Curl) (clock : Clock c) (t : TokenManager)
    (w : c.World) where
  abbrev pub after_init : c.World
  after_init = (c.global_init w).1

  abbrev outcome : Outcome Bytes
  outcome = (get_access_token j c t.client_id t.client_secret w).0

  -- On a transfer that succeeds, `getAccessToken` ends as `fetchAccessToken` does.
  pub get_access_token-fetch_access_token :
      (curl : ℕ)
      → (c.easy_init after_init).0 ≡ some curl
      → (c.perform
          (auth_settings j c (auth_url t.client_id t.client_secret))
          (c.easy_init after_init).1).0
        ≡ true
      → (get_access_token j c t.client_id t.client_secret w).0
        ≡ (fetch_access_token j c clock t after_init).0
  unfolding get_access_token read_token fetch_access_token parse_access_token
      Token.parse_access_token
  get_access_token-fetch_access_token curl e good =
      rw (e, get_access_token, read_token, fetch_access_token) (rw (good, fetch_on) refl)

  -- Where no handle comes, `getAccessToken` parses the empty text and throws, while
  -- `fetchAccessToken` returns it.
  pub get_access_token_starved :
      (c.easy_init after_init).0 ≡ none
      → j.parse [] ≡ none
      → ((get_access_token j c t.client_id t.client_secret w).0 ≡ throws parse_error)
        × ((fetch_access_token j c clock t after_init).0 ≡ ok [])
  unfolding get_access_token read_token fetch_access_token parse_access_token
  get_access_token_starved e h = (
    rw (e, get_access_token, read_token) (rw (h, parse_access_token) refl),
    rw (e, fetch_access_token) refl,
  )
