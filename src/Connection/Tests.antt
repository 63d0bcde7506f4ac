-- ===== src/Connection/Tests.antt =====
-- `CurlConnectionManager` in a scripted world.
use deribit_trading_system.Base.{◌≡◌, ◌⊎◌, refl, Bool, true, false, [], ◌∷◌}
use deribit_trading_system.Connection.{init, initialize_pool, setup_curl_options}
use deribit_trading_system.Connection.Handles.{IsReady, opened, init-IsReady}
use deribit_trading_system.Samples.{Script, script_curl}

abbrev start : Script
start = record { replies = []; time = 0; next = 7 }

init_runs : (init script_curl 2 4096 start).0.free_handles ≡ 8 ∷ 7 ∷ []
unfolding init initialize_pool setup_curl_options
init_runs = refl

init-IsReady_example :
    (◌≡◌ {A = Bool} true true
      × IsReady script_curl (init script_curl 2 4096 start).0 (opened script_curl 2 start []))
    ⊎ (◌≡◌ {A = Bool} true false × IsReady script_curl (init script_curl 2 4096 start).0 [])
init-IsReady_example = init-IsReady script_curl 2 4096 start
