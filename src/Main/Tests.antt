-- ===== src/Main/Tests.antt =====
-- `main` of main.cpp where the token cannot be fetched.
use deribit_trading_system.Base.{◌≡◌, ◌⊎◌, refl, false, [], none, some}
use deribit_trading_system.Base.Outcome.{ok}
use deribit_trading_system.Text.{Bytes, txt}
use deribit_trading_system.Samples.{Script, sample_env, script_curl}
use deribit_trading_system.Token.{get_access_token, fetch_access_token}
use deribit_trading_system.Token
use deribit_trading_system.Main.{Layout, run_main, login}
use deribit_trading_system.Main.Exits.{run_main_one}

abbrev layout : Layout sample_env (λ n. n)
layout = record { buffers = 4096; order_blocks = 8192; json_size = 16 }

abbrev unreachable : Script
unreachable = record { replies = []; time = 0; next = 1 }

unreachable_one :
    (run_main sample_env
      (λ n. n)
      layout
      (txt "40")
      (txt "6000")
      (some (txt "id"))
      (some (txt "secret"))
      unreachable).0
    ≡ ok 1
unfolding run_main get_access_token Token.init fetch_access_token
unreachable_one = refl

run_main_one_example :
    (some (txt "id") ≡ none)
    ⊎ (some (txt "secret") ≡ none)
    ⊎ ((script_curl.global_init unreachable).0 ≡ false)
    ⊎ ((i : Bytes) × (s : Bytes) × (some (txt "id") ≡ some i)
        × (some (txt "secret") ≡ some s)
        × ((login sample_env (λ n. n) i s unreachable).0 ≡ ok []))
run_main_one_example =
    run_main_one sample_env (λ n. n) layout (txt "40") (txt "6000") (some (txt "id"))
      (some (txt "secret")) unreachable unreachable_one
