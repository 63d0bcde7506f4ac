-- ===== src/Http/Tests.antt =====
-- `performCurlRequest` of order_management.cpp in a scripted world.
use deribit_trading_system.Base.{ℕ, ◌≡◌, refl, true, false, List, [], ◌∷◌}
use deribit_trading_system.Text.{txt}
use deribit_trading_system.Curl.{deliver}
use deribit_trading_system.Pool
use deribit_trading_system.Connection.{Manager, get_curl_handle}
use deribit_trading_system.Http.{Net, perform_curl_request, request_on, retry}
use deribit_trading_system.Http.Retry.{Stops, request_settings, perform_curl_request-Stops}
use deribit_trading_system.Samples.{Script, script_curl}

abbrev with_free : List ℕ → Manager
with_free hs = record {
  pool_size = 1;
  curl_pool = 7 ∷ [];
  free_handles = hs;
  buffer_pool = Pool.init 4096 1024 100;
  settings = λ _. [];
}

abbrev flaky : Script
flaky = record {
  replies = (false, txt "HTT" ∷ []) ∷ (true, txt "HTTP/2 200" ∷ []) ∷ [];
  time = 0;
  next = 9;
}

abbrev net : Net script_curl
net = record { manager = with_free (7 ∷ []); world = flaky }

abbrev starved : Net script_curl
starved = record { manager = with_free []; world = flaky }

-- What a failed attempt had delivered stays in the buffer.
flaky_reply : (perform_curl_request script_curl (txt "u") (txt "t") [] net).1 ≡ txt "HTTHTTP/2 200"
unfolding perform_curl_request request_on retry get_curl_handle deliver
flaky_reply = refl

perform_curl_request-Stops_example :
    let (good, response', n') = perform_curl_request script_curl (txt "u") (txt "t") [] net in
    (k : ℕ) × Stops script_curl
      (request_settings (txt "u") (txt "t") [])
      2
      k
      flaky
      []
      (good, response', n'.world)
    × (n'.manager.free_handles ≡ 7 ∷ [])
    × (n'.manager.curl_pool ≡ 7 ∷ [])
    × (n'.manager.settings 7 ≡ request_settings (txt "u") (txt "t") [])
perform_curl_request-Stops_example =
    perform_curl_request-Stops script_curl (txt "u") (txt "t") [] net 7 [] refl
