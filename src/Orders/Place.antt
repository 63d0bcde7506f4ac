-- ===== src/Orders/Place.antt =====
-- `OrderAPI::placeOrder`, `placeMarketOrder` and `placeLimitOrder` of order_management.cpp. A method
-- returns its result with the value that it leaves in `orderId`.
pub mod Laws
pub mod Step
use deribit_trading_system.Base.{Bool, true, false, ◌++◌, Option, none, some, if◌then◌else◌}
use deribit_trading_system.Base.Outcome.{Outcome, M, ok, and_then, raise, pure, ◌>>=◌, ◌>>◌}
use deribit_trading_system.Text.{Bytes, txt, beq, c_str}
use deribit_trading_system.Json.{asserted}
use deribit_trading_system.Orders.{
  Env, Value, Api, access_token, send, read_body, error_message, record_order,
}

module _ (e : Env) where
  open e use {numbers, rapid, print_double, zero_double}

  unfoldable pub place_url : Bytes → numbers.Double → numbers.Double → Bytes → Bytes → Bytes
  place_url instrument quantity price label order_type =
      let url =
        txt "https://test.deribit.com/api/v2/private/buy?amount="
        ++ (print_double quantity
            ++ (txt "&instrument_name="
                ++ (instrument ++ (txt "&label=" ++ (label ++ (txt "&type=" ++ order_type)))))) in
      if beq order_type (txt "limit") then url ++ (txt "&price=" ++ print_double price) else url

  -- `IsObject() && HasMember("result") && ["result"].HasMember("order")`, after `success`.
  unfoldable pub has_order : Bool → Value e → Outcome Bool
  has_order success document =
      if success
      then (if rapid.is_object document
          then and_then (asserted (rapid.has_member document (txt "result"))) (λ has.
            if has
            then and_then (asserted (rapid.member document (txt "result")))
                (λ result. asserted (rapid.has_member result (txt "order")))
            else ok false)
          else ok false)
      else ok false

  -- `document["result"]["order"]`
  unfoldable pub order_of : Value e → Outcome (Value e)
  order_of document =
      and_then (asserted (rapid.member document (txt "result")))
        λ result. asserted (rapid.member result (txt "order"))

  -- The `order_id` member, `none` where there is none.
  unfoldable pub order_id_of : Value e → Outcome (Option Bytes)
  order_id_of order = and_then (asserted (rapid.has_member order (txt "order_id"))) λ has.
      if has
      then and_then (asserted (rapid.member order (txt "order_id")))
          (λ id. and_then (asserted (rapid.get_string id)) λ text. ok (some (c_str text)))
      else ok none

  -- With the id, if the order has one.
  keep : Bytes → Value e → Option Bytes → M (Api e) (Bool × Bytes)
  keep order_id order none = pure (false, order_id)
  keep order_id order (some id) = record_order e id order >> pure (true, id)

  -- The branch that has found an order.
  accept : Bytes → Value e → M (Api e) (Bool × Bytes)
  accept order_id document = do
    order ← raise (order_of document)
    found ← raise (order_id_of order)
    keep order_id order found

  report : Bytes → Value e → Bool → M (Api e) (Bool × Bytes)
  report order_id document true = raise (error_message e document) >>= λ _. pure (false, order_id)
  report order_id document false = pure (false, order_id)

  -- The `else if`, and what follows it.
  reject : Bytes → Value e → M (Api e) (Bool × Bytes)
  reject order_id document = do
    failed ← raise (asserted (rapid.has_member document (txt "error")))
    report order_id document failed

  accept_or_reject : Bytes → Value e → Bool → M (Api e) (Bool × Bytes)
  accept_or_reject order_id document true = accept order_id document
  accept_or_reject order_id document false = reject order_id document

  -- From the parsed reply on.
  unfoldable pub settle_place : Bytes → Bool × Value e → M (Api e) (Bool × Bytes)
  unfolding accept reject keep report accept_or_reject
  settle_place order_id (success, document) = do
    placed ← raise (has_order success document)
    accept_or_reject order_id document placed

  settle_read : Bytes → Option (Bool × Value e) → M (Api e) (Bool × Bytes)
  settle_read order_id none = pure (false, order_id)
  settle_read order_id (some parsed) = settle_place order_id parsed

  -- From the result of the request on.
  on_place_reply : Bytes → Bool × Bytes → M (Api e) (Bool × Bytes)
  on_place_reply order_id (false, buffer) = pure (false, order_id)
  on_place_reply order_id (true, buffer) = do
    read ← raise (read_body e buffer)
    settle_read order_id read

  unfoldable pub place_order :
      Bytes → numbers.Double → numbers.Double → Bytes → Bytes → Bytes → M (Api e) (Bool × Bytes)
  unfolding on_place_reply settle_read
  place_order instrument quantity price label order_id order_type = do
    token ← access_token e
    reply ← send e (place_url instrument quantity price label order_type) token
    on_place_reply order_id reply

  unfoldable pub place_market_order :
      Bytes → numbers.Double → Bytes → Bytes → M (Api e) (Bool × Bytes)
  place_market_order instrument quantity label order_id =
      place_order instrument quantity zero_double label order_id (txt "market")

  unfoldable pub place_limit_order :
      Bytes → numbers.Double → numbers.Double → Bytes → M (Api e) (Bool × Bytes)
  place_limit_order instrument quantity price order_id =
      place_order instrument quantity price (txt "limit_order") order_id (txt "limit")
