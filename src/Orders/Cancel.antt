-- ===== src/Orders/Cancel.antt =====
-- `OrderAPI::cancelOrderRequest` and `cancelOrder` of order_management.cpp.
pub mod Laws
pub mod Step
use deribit_trading_system.Base.{
  Bool, true, false, not, ◌||◌, ◌++◌, Option, none, some, if◌then◌else◌,
}
use deribit_trading_system.Base.Outcome.{Outcome, M, ok, and_then, raise, pure, ◌>>=◌, ◌>>◌}
use deribit_trading_system.Text.{Bytes, txt}
use deribit_trading_system.Json.{asserted}
use deribit_trading_system.Pool.{deallocate}
use deribit_trading_system.Orders.Map.{find, erase}
use deribit_trading_system.Orders.{
  Env, Value, Api, access_token, send, read_body, error_message, execute_async_task,
}

module _ (e : Env) where
  open e use {rapid}

  unfoldable pub cancel_url : Bytes → Bytes
  cancel_url order_id = txt "https://test.deribit.com/api/v2/private/cancel?order_id=" ++ order_id

  -- `!success || !IsObject() || HasMember("error")`
  unfoldable pub is_refused : Bool → Value e → Outcome Bool
  is_refused success document =
      if not success || not (rapid.is_object document)
      then ok true
      else asserted (rapid.has_member document (txt "error"))

  -- What the refusal prints: `HasMember("error") ? ["error"]["message"].GetString() : "Unknown"`.
  unfoldable pub refusal_text : Value e → Outcome Bytes
  refusal_text document =
      and_then (asserted (rapid.has_member document (txt "error")))
        λ has. if has then error_message e document else ok (txt "Unknown")

  -- The address of the map's value goes to the pool, and then the node is erased.
  unfoldable pub forget : Bytes → Api e → Api e
  forget order_id a = elim (find order_id a.orders) [
    | none ↦ a
    | some entry ↦ record a {
      order_pool = deallocate a.order_pool entry.address;
      orders = erase order_id a.orders;
    }
  ]

  refuse_or_forget : Bytes → Value e → Bool → M (Api e) Bool
  refuse_or_forget order_id document true = raise (refusal_text document) >>= λ _. pure false
  refuse_or_forget order_id document false = λ a. (ok true, forget order_id a)

  -- From the parsed reply on.
  unfoldable pub settle_cancel : Bytes → Bool × Value e → M (Api e) Bool
  unfolding refuse_or_forget
  settle_cancel order_id (success, document) = do
    refused ← raise (is_refused success document)
    refuse_or_forget order_id document refused

  settle_read : Bytes → Option (Bool × Value e) → M (Api e) Bool
  settle_read order_id none = pure false
  settle_read order_id (some parsed) = settle_cancel order_id parsed

  -- From the result of the request on.
  on_cancel_reply : Bytes → Bool × Bytes → M (Api e) Bool
  on_cancel_reply order_id (false, buffer) = pure false
  on_cancel_reply order_id (true, buffer) = do
    read ← raise (read_body e buffer)
    settle_read order_id read

  unfoldable pub cancel_order_request : Bytes → M (Api e) Bool
  unfolding on_cancel_reply settle_read
  cancel_order_request order_id = do
    token ← access_token e
    reply ← send e (cancel_url order_id) token
    on_cancel_reply order_id reply

  unfoldable pub cancel_order : Bytes → M (Api e) Bool
  cancel_order order_id = execute_async_task e (cancel_order_request order_id)
