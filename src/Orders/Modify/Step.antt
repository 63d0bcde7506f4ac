-- ===== src/Orders/Modify/Step.antt =====
-- The books under `modifyOrder` of order_management.cpp.
use deribit_trading_system.Base.{refl, Bool, true, false, Option, none, some}
use deribit_trading_system.Base.Outcome.{M, raise, pure, ◌>>=◌, ◌>>◌}
use deribit_trading_system.Text.{Bytes, txt}
use deribit_trading_system.Json.{asserted}
use deribit_trading_system.Orders.{Env, Value, Api, access_token, send, read_body, record_order}
use deribit_trading_system.Orders.Calls.{Call, modify}
use deribit_trading_system.Orders.Changes.{
  books, Records, modifying, refused, Made, via, send-Change, record_order-Change, task-Change,
}
use deribit_trading_system.Orders.Cancel.{is_refused, refusal_text}
use deribit_trading_system.Orders.Modify.{
  modify_url, keep, update_order, refuse_or_update, settle_modify, settle_read, on_modify_reply,
  modify_task, modify_order,
}

module _ (e : Env) where
  open e use {rapid}

  module _ (c : Call e) (order_id : Bytes) (k : Records e c order_id) (a : Api e) where
    abbrev P : M (Api e) Bool → Type 0
    P m = Made e c (λ r. r) (books e a) (m a)

    keep-Change : (result : Value e) (has : Bool) → P (keep e order_id result has)
    unfolding keep
    keep-Change result true =
        via e c (λ r. r) (books e a) (raise (asserted (rapid.member result (txt "order"))))
          (λ order. record_order e order_id order >> pure true) a refl
          (λ order. record_order-Change e c (λ r. r) true order_id order a refl k)
    keep-Change result false = refused (books e a)

    either-Change :
        (document : Value e) (refused : Bool) → P (refuse_or_update e order_id document refused)
    unfolding refuse_or_update update_order
    either-Change document true =
        via e c (λ r. r) (books e a) (raise (refusal_text e document)) (λ _. pure false) a refl
          (λ _. refused (books e a))
    either-Change document false =
        via e c (λ r. r) (books e a) (raise (asserted (rapid.member document (txt "result"))))
          (λ result.
            raise (asserted (rapid.has_member result (txt "order"))) >>= keep e order_id result)
          a refl
          λ result.
            via e c (λ r. r) (books e a) (raise (asserted (rapid.has_member result (txt "order"))))
              (keep e order_id result) a refl (keep-Change result)

    settle-Change : (read : Option (Bool × Value e)) → P (settle_read e order_id read)
    unfolding settle_read settle_modify
    settle-Change none = refused (books e a)
    settle-Change (some (success, document)) =
        via e c (λ r. r) (books e a) (raise (is_refused e success document))
          (refuse_or_update e order_id document) a refl (either-Change document)

    reply-Change : (reply : Bool × Bytes) → P (on_modify_reply e order_id reply)
    unfolding on_modify_reply
    reply-Change (false, buffer) = refused (books e a)
    reply-Change (true, buffer) =
        via e c (λ r. r) (books e a) (raise (read_body e buffer)) (settle_read e order_id) a refl
          settle-Change

  pub modify_order-Change :
      (order_id : Bytes) (new_price amount : e.numbers.Double) (a : Api e)
      → Made e
          (modify order_id new_price amount)
          (λ r. r)
          (books e a)
          (modify_order e order_id new_price amount a)
  unfolding modify_order modify_task access_token send
  modify_order-Change order_id new_price amount a =
      let c = modify order_id new_price amount in
      let sent = send e (modify_url e order_id new_price amount) in
      task-Change e c (λ r. r) (books e a) (modify_task e order_id new_price amount) a
        (via e c (λ r. r) (books e a) (access_token e)
          (λ token. sent token >>= on_modify_reply e order_id) a refl
          λ token.
            send-Change e c (λ r. r) (modify_url e order_id new_price amount) token
              (on_modify_reply e order_id) (access_token e a).1
              (reply-Change c order_id (modifying order_id) (sent token (access_token e a).1).1))
