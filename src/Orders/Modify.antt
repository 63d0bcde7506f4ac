-- ===== src/Orders/Modify.antt =====
-- `OrderAPI::modifyOrder` of order_management.cpp.
pub mod Laws
pub mod Step
use deribit_trading_system.Base.{Bool, true, false, ◌++◌, Option, none, some}
use deribit_trading_system.Base.Outcome.{M, raise, pure, ◌>>=◌, ◌>>◌}
use deribit_trading_system.Text.{Bytes, txt}
use deribit_trading_system.Json.{asserted}
use deribit_trading_system.Orders.Cancel.{is_refused, refusal_text}
use deribit_trading_system.Orders.{
  Env, Value, Api, access_token, send, read_body, record_order, execute_async_task,
}

module _ (e : Env) where
  open e use {numbers, rapid, print_double}

  unfoldable pub modify_url : Bytes → numbers.Double → numbers.Double → Bytes
  modify_url order_id new_price amount =
      txt "https://test.deribit.com/api/v2/private/edit?order_id="
      ++ (order_id
          ++ (txt "&price=" ++ (print_double new_price ++ (txt "&amount=" ++ print_double amount))))

  keep : Bytes → Value e → Bool → M (Api e) Bool
  keep order_id result true = do
    order ← raise (asserted (rapid.member result (txt "order")))
    record_order e order_id order
    pure true
  keep order_id result false = pure false

  -- The branch that has found no error.
  update_order : Bytes → Value e → M (Api e) Bool
  update_order order_id document = do
    result ← raise (asserted (rapid.member document (txt "result")))
    has ← raise (asserted (rapid.has_member result (txt "order")))
    keep order_id result has

  refuse_or_update : Bytes → Value e → Bool → M (Api e) Bool
  refuse_or_update order_id document true = raise (refusal_text e document) >>= λ _. pure false
  refuse_or_update order_id document false = update_order order_id document

  -- From the parsed reply on.
  unfoldable pub settle_modify : Bytes → Bool × Value e → M (Api e) Bool
  unfolding keep update_order refuse_or_update
  settle_modify order_id (success, document) = do
    refused ← raise (is_refused e success document)
    refuse_or_update order_id document refused

  settle_read : Bytes → Option (Bool × Value e) → M (Api e) Bool
  settle_read order_id none = pure false
  settle_read order_id (some parsed) = settle_modify order_id parsed

  -- From the result of the request on.
  on_modify_reply : Bytes → Bool × Bytes → M (Api e) Bool
  on_modify_reply order_id (false, buffer) = pure false
  on_modify_reply order_id (true, buffer) = do
    read ← raise (read_body e buffer)
    settle_read order_id read

  unfoldable pub modify_task : Bytes → numbers.Double → numbers.Double → M (Api e) Bool
  unfolding on_modify_reply settle_read
  modify_task order_id new_price amount = do
    token ← access_token e
    reply ← send e (modify_url order_id new_price amount) token
    on_modify_reply order_id reply

  unfoldable pub modify_order : Bytes → numbers.Double → numbers.Double → M (Api e) Bool
  modify_order order_id new_price amount =
      execute_async_task e (modify_task order_id new_price amount)
