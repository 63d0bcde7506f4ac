-- ===== src/Orders/Market.antt =====
-- `OrderAPI::getOrderBookData`, `getOrderBook` and `parseMarketData` of order_management.cpp.
pub mod Step
use deribit_trading_system.Base.{Bool, true, false, not, [], ◌++◌, none, some, if◌then◌else◌}
use deribit_trading_system.Base.Outcome.{Outcome, M, ok, and_then, raise, pure, ◌>>=◌}
use deribit_trading_system.Text.{Bytes, txt, c_str}
use deribit_trading_system.Json.{asserted, parse_json_response, rapidjson_to_nlohmann}
use deribit_trading_system.Response.{strip_headers}
use deribit_trading_system.Orders.{Env, Value, Json, Api, send, unzip, execute_async_task}

module _ (e : Env) where
  open e use {rapid, nlohmann}

  -- `!IsObject() || !HasMember("result")`
  unfoldable pub lacks_result : Value e → Outcome Bool
  lacks_result document =
      if rapid.is_object document
      then and_then (asserted (rapid.has_member document (txt "result"))) (λ has. ok (not has))
      else ok true

  unfoldable pub parse_market_data : Bytes → Outcome (Json e)
  parse_market_data json_data = elim (rapid.parse (c_str json_data)) [
    | none ↦ ok nlohmann.null
    | some document ↦ and_then (lacks_result document) λ lacks.
        if lacks
        then ok nlohmann.null
        else and_then (asserted (rapid.member document (txt "result")))
            λ result. rapidjson_to_nlohmann rapid nlohmann (e.depth result) result
  ]

  unfoldable pub book_url : Bytes → Bytes
  book_url symbol =
      txt "https://test.deribit.com/api/v2/public/get_order_book?instrument_name=" ++ symbol

  -- From the parsed reply on.
  unfoldable pub settle_book : Bool × Value e → Outcome (Json e)
  settle_book (success, document) =
      and_then (if success then lacks_result document else ok true) λ lacks.
        if lacks
        then ok nlohmann.null
        else rapidjson_to_nlohmann rapid nlohmann (e.depth document) document

  -- From the result of the request on.
  on_book_reply : Bool × Bytes → M (Api e) (Json e)
  on_book_reply (false, buffer) = pure nlohmann.null
  on_book_reply (true, buffer) = do
    body ← raise (strip_headers buffer)
    read ← raise (unzip e body)
    elim read [
      | none ↦ pure nlohmann.null
      | some text ↦ raise (settle_book (parse_json_response rapid text))
    ]

  unfoldable pub get_order_book_data : Bytes → M (Api e) (Json e)
  unfolding on_book_reply
  get_order_book_data symbol = do reply ← send e (book_url symbol) []; on_book_reply reply

  unfoldable pub get_order_book : Bytes → M (Api e) (Json e)
  get_order_book symbol = execute_async_task e (get_order_book_data symbol)
