-- ===== src/Auth/Tests.antt =====
-- `getAccessToken` of auth.cpp in a scripted world.
use deribit_trading_system.Base.{◌≡◌, refl, true, [], ◌∷◌, none}
use deribit_trading_system.Base.Outcome.{ok}
use deribit_trading_system.Text.{txt, beq}
use deribit_trading_system.Auth.{get_access_token, read_token, parse_access_token}
use deribit_trading_system.Auth.Laws.{get_access_token-fetch_access_token}
use deribit_trading_system.Curl.{Curl, deliver, write_callback}
use deribit_trading_system.Token.{TokenManager, Clock, fetch_access_token, token_of}
use deribit_trading_system.Samples.{Script, script_curl, script_clock}
use deribit_trading_system.Samples.Trees.{tree_nlohmann}

abbrev client : TokenManager
client = record {
  client_id = txt "id";
  client_secret = txt "secret";
  access_token = [];
  expiry_time = 0;
}

abbrev answering : Script
answering = record { replies = (true, txt "token" ∷ []) ∷ []; time = 0; next = 1 }

get_access_token_runs :
    (get_access_token tree_nlohmann script_curl (txt "id") (txt "secret") answering).0
    ≡ ok (txt "tok")
unfolding get_access_token read_token parse_access_token deliver write_callback beq token_of
get_access_token_runs = refl

get_access_token-fetch_access_token_example :
    (get_access_token tree_nlohmann script_curl (txt "id") (txt "secret") answering).0
    ≡ (fetch_access_token tree_nlohmann script_curl script_clock client answering).0
get_access_token-fetch_access_token_example =
    get_access_token-fetch_access_token tree_nlohmann script_curl script_clock client answering 1
      refl refl

-- A libcurl that gives no handles.
abbrev no_handles : Curl
no_handles = record {
  World = Script;
  global_init = λ w. (true, w);
  easy_init = λ w. (none, w);
  easy_cleanup = λ h w. w;
  global_cleanup = λ w. w;
  perform = script_curl.perform;
}

abbrev its_clock : Clock no_handles
its_clock = record { now = script_clock.now; minute = 60 }
