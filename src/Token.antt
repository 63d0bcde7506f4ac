-- ===== src/Token.antt =====
-- `TokenManager` of token_manager.h and token_manager.cpp: the access token, kept for 59 minutes.
-- `token_mutex` makes each call of `getAccessToken` one step.
pub mod Cache
mod Tests
use deribit_trading_system.Base.{
  ℕ, ◌+◌, ◌*◌, Bool, true, false, ◌||◌, [], ◌∷◌, ◌++◌, Option, none, some, ltb, if◌then◌else◌,
}
use deribit_trading_system.Base.Outcome.{
  Outcome, M, ok, throws, aborts, hangs, parse_error, type_error,
}
use deribit_trading_system.Text.{Bytes, txt, is_empty}
use deribit_trading_system.Curl.{
  Curl, Settings, url, writefunction, writedata, followlocation, deliver,
}
use deribit_trading_system.Json.{Numbers, Nlohmann}

-- `steady_clock`: a reading, and the ticks of a minute.
pub record Clock (c : Curl) : Type 0 where
  pub now : c.World → ℕ × c.World
  pub minute : ℕ

pub record TokenManager : Type 0 where
  pub client_id : Bytes
  pub client_secret : Bytes
  pub access_token : Bytes
  pub expiry_time : ℕ

-- The constructor; a `time_point` starts at the epoch.
unfoldable pub init : Bytes → Bytes → TokenManager
init id secret = record {
  client_id = id;
  client_secret = secret;
  access_token = [];
  expiry_time = 0;
}

abbrev pub auth_url : Bytes → Bytes → Bytes
auth_url id secret =
    txt "https://test.deribit.com/api/v2/public/auth?client_id="
    ++ (id ++ (txt "&client_secret=" ++ (secret ++ txt "&grant_type=client_credentials")))

module _ {n : Numbers} (j : Nlohmann n) where
  or_type_error {ℓ} : {A : Type ℓ} → Option A → Outcome A
  or_type_error none = throws type_error
  or_type_error (some a) = ok a

  -- `json["result"]["access_token"]` as a string.
  unfoldable pub token_of : j.Json → Outcome Bytes
  unfolding or_type_error
  token_of json = elim (j.at json (txt "result")) [
    | none ↦ throws type_error
    | some result ↦ elim (j.at result (txt "access_token")) [
      | none ↦ throws type_error
      | some token ↦ or_type_error (j.to_string token)
    ]
  ]

  unfoldable pub parse_access_token : Bytes → Outcome Bytes
  unfolding token_of
  parse_access_token response = elim (j.parse response) [
    | none ↦ throws parse_error
    | some json ↦ if j.contains json (txt "result") then token_of json else ok []
  ]

module _ {n : Numbers} (j : Nlohmann n) (c : Curl) (clock : Clock c) where
  -- The token manager with the world that it runs in.
  pub record Session : Type 0 where
    pub tokens : TokenManager
    pub world : c.World

  -- The options on the new handle, the last one first.
  abbrev pub fetch_settings : Bytes → Settings
  fetch_settings u = followlocation 1 ∷ writedata ∷ writefunction ∷ url u ∷ []

  pub fetch_on : Option ℕ × c.World → TokenManager → Outcome Bytes × c.World
  fetch_on (none, w) t = (ok [], w)
  fetch_on (some handle, w) t =
      let (good, pieces, w') =
        c.perform (fetch_settings (auth_url t.client_id t.client_secret)) w in
      let w'' = c.easy_cleanup handle w' in
      elim good [ true ↦ (parse_access_token j (deliver pieces []), w'') | false ↦ (ok [], w'') ]

  unfoldable pub fetch_access_token : TokenManager → c.World → Outcome Bytes × c.World
  unfolding fetch_on
  fetch_access_token t w = fetch_on (c.easy_init w) t

  -- The assignments after `fetchAccessToken`, which an exception skips.
  unfoldable pub store : TokenManager → Outcome Bytes × c.World → Outcome Bytes × Session
  store t (ok token, w) =
      let (time, w') = clock.now w in
      (
        ok token,
        record {
          tokens = record t { access_token = token; expiry_time = time + 59 * clock.minute };
          world = w';
        },
      )
  store t (throws e, w) = (throws e, record { tokens = t; world = w })
  store t (aborts, w) = (aborts, record { tokens = t; world = w })
  store t (hangs, w) = (hangs, record { tokens = t; world = w })

  unfoldable pub get_access_token : M Session Bytes
  unfolding store
  get_access_token s =
      let (time, w) = clock.now s.world in
      if ltb s.tokens.expiry_time time || is_empty s.tokens.access_token
      then store s.tokens (fetch_access_token s.tokens w)
      else (ok s.tokens.access_token, record s { world = w })
