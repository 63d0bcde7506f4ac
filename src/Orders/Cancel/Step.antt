-- ===== src/Orders/Cancel/Step.antt =====
-- The books under `cancelOrder` of order_management.cpp.
use deribit_trading_system.Base.{
  refl, Bool, true, false, Option, none, some, inl, inr, Option-cases,
}
use deribit_trading_system.Base.Outcome.{M, raise, pure, ◌>>=◌}
use deribit_trading_system.Text.{Bytes}
use deribit_trading_system.Orders.Map.{find}
use deribit_trading_system.Orders.{Env, Value, Api, access_token, send, read_body}
use deribit_trading_system.Orders.Calls.{Call, cancel}
use deribit_trading_system.Orders.Changes.{
  books, cancelling, refused, unknown, forgotten, Made, via, send-Change, task-Change,
}
use deribit_trading_system.Orders.Cancel.{
  cancel_url, is_refused, refusal_text, forget, refuse_or_forget, settle_cancel, settle_read,
  on_cancel_reply, cancel_order_request, cancel_order,
}

module _ (e : Env) where
  module _ (order_id : Bytes) (a : Api e) where
    abbrev c : Call e
    c = cancel order_id

    abbrev P : M (Api e) Bool → Type 0
    P m = Made e c (λ r. r) (books e a) (m a)

    either-Change :
        (document : Value e) (refused : Bool) → P (refuse_or_forget e order_id document refused)
    unfolding refuse_or_forget forget
    either-Change document true =
        via e c (λ r. r) (books e a) (raise (refusal_text e document)) (λ _. pure false) a refl
          (λ _. refused (books e a))
    either-Change document false = elim (Option-cases (find order_id a.orders)) [
      | inl h ↦ rw (h, forget) (unknown order_id (books e a) (cancelling order_id) h)
      | inr (entry, h) ↦
          rw (h, forget) (forgotten order_id entry (books e a) (cancelling order_id) h)
    ]

    settle-Change : (read : Option (Bool × Value e)) → P (settle_read e order_id read)
    unfolding settle_read settle_cancel
    settle-Change none = refused (books e a)
    settle-Change (some (success, document)) =
        via e c (λ r. r) (books e a) (raise (is_refused e success document))
          (refuse_or_forget e order_id document) a refl (either-Change document)

    reply-Change : (reply : Bool × Bytes) → P (on_cancel_reply e order_id reply)
    unfolding on_cancel_reply
    reply-Change (false, buffer) = refused (books e a)
    reply-Change (true, buffer) =
        via e c (λ r. r) (books e a) (raise (read_body e buffer)) (settle_read e order_id) a refl
          settle-Change

  request-Change :
      (order_id : Bytes) (a : Api e)
      → Made e (cancel order_id) (λ r. r) (books e a) (cancel_order_request e order_id a)
  unfolding cancel_order_request access_token send
  request-Change order_id a =
      let sent = send e (cancel_url e order_id) in
      via e (cancel order_id) (λ r. r) (books e a) (access_token e)
        (λ token. sent token >>= on_cancel_reply e order_id) a refl
        λ token.
          send-Change e (cancel order_id) (λ r. r) (cancel_url e order_id) token
            (on_cancel_reply e order_id) (access_token e a).1
            (reply-Change order_id (sent token (access_token e a).1).1)

  pub cancel_order-Change :
      (order_id : Bytes) (a : Api e)
      → Made e (cancel order_id) (λ r. r) (books e a) (cancel_order e order_id a)
  unfolding cancel_order
  cancel_order-Change order_id a =
      task-Change e (cancel order_id) (λ r. r) (books e a) (cancel_order_request e order_id) a
        (request-Change order_id a)
