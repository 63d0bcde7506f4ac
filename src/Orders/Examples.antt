-- ===== src/Orders/Examples.antt =====
-- Series of calls of `OrderAPI` in a scripted world.
use mathlib.Core.List.{Nodup}
use deribit_trading_system.Base.{◌≡◌, refl, List, [], ◌∷◌, ◌++◌, All, arith}
use deribit_trading_system.Text.{txt}
use deribit_trading_system.Connection.{Manager}
use deribit_trading_system.Token.{TokenManager}
use deribit_trading_system.Orders.{init}
use deribit_trading_system.Text.{find, substr, beq, c_str}
use deribit_trading_system.Json.{rapidjson_to_nlohmann, parse_json_response}
use deribit_trading_system.Connection.{get_curl_handle, release_curl_handle}
use deribit_trading_system.Curl.{deliver}
use deribit_trading_system.Http.{perform_curl_request, request_on, retry}
use deribit_trading_system.Token.{get_access_token}
use deribit_trading_system.Response.{extract_body, is_gzip}
use deribit_trading_system.Pool
use deribit_trading_system.Orders.{
  access_token, send, unzip, read_body, record_order, execute_async_task,
}
use deribit_trading_system.Orders.Map.{lies_at, put_at, find as find_entry, assign}
use deribit_trading_system.Orders.Place.{
  has_order, order_of, order_id_of, settle_place, place_order,
}
use deribit_trading_system.Orders.Cancel.{cancel_order, cancel_order_request}
use deribit_trading_system.Orders.Market.{get_order_book, get_order_book_data}
use deribit_trading_system.Orders.Calls.{Call, place, cancel, modify, look_up, perform, after}
use deribit_trading_system.Orders.Changes.{books, Change}
use deribit_trading_system.Orders.Refine.{perform-Change}
use deribit_trading_system.Orders.History.{IsSound, after-IsSound}
use deribit_trading_system.Orders.Storage.{KeepsOrders, addresses, after-Nodup}
use deribit_trading_system.Orders.Tests.{ready}
use deribit_trading_system.Samples.{Script, sample_env}

abbrev market_order : Call sample_env
market_order = place (txt "ETH") (txt "40") (txt "0") (txt "l") [] (txt "market")

perform-Change_example :
    Change sample_env market_order
      (perform sample_env market_order ready).0
      (books sample_env ready)
      (books sample_env (perform sample_env market_order ready).1)
perform-Change_example = perform-Change sample_env market_order ready

abbrev manager : Manager
manager = ready.manager

abbrev tokens : TokenManager
tokens = ready.tokens

abbrev started : Script
started = ready.world

abbrev session : List (Call sample_env)
session = market_order ∷ look_up (txt "ETH") ∷ cancel (txt "ETH-1") ∷ []

session_stays :
    (books sample_env
      (after sample_env session (init sample_env manager tokens 4096 16 started))).stray
    ≡ []
unfolding after perform init place_order cancel_order cancel_order_request get_order_book
    execute_async_task access_token get_access_token send perform_curl_request request_on retry
    get_curl_handle deliver read_body extract_body find substr unzip is_gzip parse_json_response
    c_str beq settle_place has_order order_of order_id_of record_order Pool.allocate Pool.init
    rapidjson_to_nlohmann lies_at put_at find_entry assign release_curl_handle get_order_book_data
session_stays = refl

after-IsSound_example :
    IsSound sample_env
      (7 ∷ [])
      (books sample_env (after sample_env session (init sample_env manager tokens 4096 16 started)))
after-IsSound_example =
    after-IsSound sample_env manager tokens 4096 16 started session session_stays

abbrev trades : List (Call sample_env)
trades = market_order ∷ modify (txt "ETH-1") (txt "41") (txt "40") ∷ []

keeps : All (KeepsOrders sample_env) trades
keeps = ((λ id k. elim k [ ]), ((λ id k. elim k [ ]), tt))

after-Nodup_example :
    let b =
      books sample_env (after sample_env trades (init sample_env manager tokens 4096 16 started)) in
    Nodup (addresses sample_env b ++ b.order_pool.free_blocks)
after-Nodup_example =
    after-Nodup sample_env manager tokens 4096 16 started trades (omega arith) keeps
