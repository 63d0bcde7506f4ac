-- ===== src/AsyncBatch/Tests.antt =====
-- `performBatchAsyncCurlRequest` of order_management.cpp: two requests on one handle.
use deribit_trading_system.Base.{
  ℕ, zero, suc, ◌+◌, ◌≤◌, ◌<◌, ◌≡◌, refl, Bool, true, false, List, [], ◌∷◌, some, length, arith,
}
use deribit_trading_system.Text.{Bytes, txt}
use deribit_trading_system.Curl.{deliver}
use deribit_trading_system.Connection.{get_curl_handle, release_curl_handle}
use deribit_trading_system.Http.{Net, attempt, prepare}
use deribit_trading_system.AsyncBatch.{run, step, turn, launch, all_successful}
use deribit_trading_system.Base.Times.{times}
use deribit_trading_system.AsyncBatch.Shares.{total, holds, run-launch}
use deribit_trading_system.AsyncBatch.Turns.{run-all_successful}
use deribit_trading_system.Pool
use deribit_trading_system.Samples.{script_curl}

abbrev net : Net script_curl
net = record {
  manager = record {
    pool_size = 1;
    curl_pool = 7 ∷ [];
    free_handles = 7 ∷ [];
    buffer_pool = Pool.init 4096 1024 100;
    settings = λ _. [];
  };
  world = record {
    replies = (false, []) ∷ (true, txt "a" ∷ []) ∷ (true, txt "b" ∷ []) ∷ [];
    time = 0;
    next = 9;
  };
}

abbrev urls : List Bytes
urls = txt "u" ∷ txt "v" ∷ []

-- The second thread looks for a handle while the first has it.
abbrev turns : List ℕ
turns = 0 ∷ 0 ∷ 1 ∷ 1 ∷ 0 ∷ 1 ∷ 0 ∷ 0 ∷ 0 ∷ 1 ∷ 0 ∷ 1 ∷ 1 ∷ 1 ∷ []

starved :
    let b = run script_curl (txt "t") turns (launch script_curl urls net []) in
    (b.responses ≡ [] ∷ txt "a" ∷ []) × (all_successful b.requests ≡ some false)
unfolding run step turn get_curl_handle release_curl_handle prepare attempt deliver
starved = (refl, refl)

-- Two appends at once: the first response is lost.
abbrev racing : List ℕ
racing = 0 ∷ 0 ∷ 1 ∷ 0 ∷ 0 ∷ 0 ∷ 1 ∷ 0 ∷ 1 ∷ []

lost : (run script_curl (txt "t") racing (launch script_curl urls net [])).responses ≡ [] ∷ []
unfolding run step turn get_curl_handle release_curl_handle prepare attempt deliver
lost = refl

run-launch_example :
    let b = run script_curl (txt "t") turns (launch script_curl urls net []) in
    times 7 b.net.manager.free_handles + total (holds 7) b.requests ≡ times 7 (7 ∷ [])
run-launch_example = run-launch script_curl (txt "t") urls net [] turns 7

seven_each : (i : ℕ) → i < length urls → 7 ≤ times i turns
seven_each zero h = omega arith
seven_each (suc zero) h = omega arith
seven_each (suc (suc i)) h = absurd (omega arith)

run-all_successful_example :
    let b = run script_curl (txt "t") turns (launch script_curl urls net []) in
    (all : Bool) × (all_successful b.requests ≡ some all)
run-all_successful_example = run-all_successful script_curl (txt "t") urls net [] turns seven_each
