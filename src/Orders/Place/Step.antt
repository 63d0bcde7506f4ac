-- ===== src/Orders/Place/Step.antt =====
-- The books under `placeOrder` of order_management.cpp.
use deribit_trading_system.Base.{refl, Bool, true, false, Option, none, some}
use deribit_trading_system.Base.Outcome.{M, raise, pure, ◌>>=◌}
use deribit_trading_system.Text.{Bytes, txt}
use deribit_trading_system.Json.{asserted}
use deribit_trading_system.Orders.{Env, Value, Api, access_token, send, read_body, error_message}
use deribit_trading_system.Orders.Calls.{Call, place}
use deribit_trading_system.Orders.Changes.{
  books, Records, placing, refused, Made, via, send-Change, record_order-Change,
}
use deribit_trading_system.Orders.Place.{
  has_order, order_of, order_id_of, accept, reject, keep, report, accept_or_reject, settle_read,
  settle_place, on_place_reply, place_order, place_url,
}

module _ (e : Env) where
  module _ (c : Call e) (k : (id : Bytes) → Records e c id) (order_id : Bytes) (a : Api e) where
    abbrev P : M (Api e) (Bool × Bytes) → Type 0
    P m = Made e c (λ r. r.0) (books e a) (m a)

    keep-Change : (order : Value e) (found : Option Bytes) → P (keep e order_id order found)
    unfolding keep
    keep-Change order none = refused (books e a)
    keep-Change order (some id) =
        record_order-Change e c (λ r. r.0) (true, id) id order a refl (k id)

    report-Change : (document : Value e) (failed : Bool) → P (report e order_id document failed)
    unfolding report
    report-Change document true =
        via e c (λ r. r.0) (books e a) (raise (error_message e document))
          (λ _. pure (false, order_id)) a refl (λ _. refused (books e a))
    report-Change document false = refused (books e a)

    either-Change :
        (document : Value e) (placed : Bool) → P (accept_or_reject e order_id document placed)
    unfolding accept_or_reject accept reject
    either-Change document true =
        via e c (λ r. r.0) (books e a) (raise (order_of e document))
          (λ order. raise (order_id_of e order) >>= λ found. keep e order_id order found) a refl
          λ order.
            via e c (λ r. r.0) (books e a) (raise (order_id_of e order)) (keep e order_id order) a
              refl (keep-Change order)
    either-Change document false =
        via e c (λ r. r.0) (books e a)
          (raise (asserted (e.rapid.has_member document (txt "error"))))
          (report e order_id document) a refl (report-Change document)

    settle-Change : (read : Option (Bool × Value e)) → P (settle_read e order_id read)
    unfolding settle_read settle_place
    settle-Change none = refused (books e a)
    settle-Change (some (success, document)) =
        via e c (λ r. r.0) (books e a) (raise (has_order e success document))
          (accept_or_reject e order_id document) a refl (either-Change document)

    reply-Change : (reply : Bool × Bytes) → P (on_place_reply e order_id reply)
    unfolding on_place_reply
    reply-Change (false, buffer) = refused (books e a)
    reply-Change (true, buffer) =
        via e c (λ r. r.0) (books e a) (raise (read_body e buffer)) (settle_read e order_id) a refl
          settle-Change

  pub place_order-Change :
      (instrument : Bytes) (quantity price : e.numbers.Double) (label order_id order_type : Bytes)
      (a : Api e)
      → Made e
          (place instrument quantity price label order_id order_type)
          (λ r. r.0)
          (books e a)
          (place_order e instrument quantity price label order_id order_type a)
  unfolding place_order access_token send
  place_order-Change instrument quantity price label order_id order_type a =
      let c = place instrument quantity price label order_id order_type in
      let sent = send e (place_url e instrument quantity price label order_type) in
      via e c (λ r. r.0) (books e a) (access_token e)
        (λ token. sent token >>= on_place_reply e order_id) a refl
        λ token.
          send-Change e c (λ r. r.0) (place_url e instrument quantity price label order_type) token
            (on_place_reply e order_id) (access_token e a).1
            (reply-Change c (λ id. placing id) order_id (sent token (access_token e a).1).1)
