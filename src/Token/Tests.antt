-- ===== src/Token/Tests.antt =====
-- `TokenManager` in a scripted world.
use deribit_trading_system.Base.{◌≡◌, refl, inl, true, false, List, [], ◌∷◌, map, arith}
use deribit_trading_system.Base.Outcome.{Outcome, ok}
use deribit_trading_system.Text.{Bytes, txt, beq}
use deribit_trading_system.Curl.{deliver}
use deribit_trading_system.Token.{
  TokenManager, Session, fetch_access_token, get_access_token, parse_access_token,
}
use deribit_trading_system.Token.Cache.{answers, get_lasts}
use deribit_trading_system.Samples.{Script, script_curl, script_clock}
use deribit_trading_system.Samples.Trees.{tree_nlohmann}

abbrev S : Type 0
S = Session tree_nlohmann script_curl script_clock

abbrev get : S → Outcome Bytes × S
get = get_access_token tree_nlohmann script_curl script_clock

abbrev new : TokenManager
new = record { client_id = txt "me"; client_secret = txt "pw"; access_token = []; expiry_time = 0 }

abbrev online : Script
online = record { replies = (true, txt "token" ∷ []) ∷ []; time = 5; next = 9 }

abbrev offline : Script
offline = record { replies = (false, []) ∷ []; time = 5; next = 9 }

abbrev first : S
first = record { tokens = new; world = online }

abbrev failing : S
failing = record { tokens = new; world = offline }

abbrev holding : S
holding = record {
  tokens = record new { access_token = txt "tok"; expiry_time = 3546 };
  world = online;
}

abbrev fetched_world : Script
fetched_world = record { replies = []; time = 6; next = 10 }

abbrev later : List Script
later = record fetched_world { time = 100 } ∷ record fetched_world { time = 3000 } ∷ []

get_lasts_example :
    ((get first).0 ≡ ok (txt "tok"))
    × (answers tree_nlohmann script_curl script_clock (get first).1 later
        ≡ map (λ w. (ok (txt "tok"), (script_clock.now w).1)) later)
unfolding fetch_access_token parse_access_token deliver beq
get_lasts_example =
    get_lasts tree_nlohmann script_curl script_clock first (txt "tok") fetched_world later
      (inl (omega arith)) refl (λ e. cc) (omega arith, (omega arith, tt))
