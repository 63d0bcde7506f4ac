-- ===== src/Orders/Cancel/Laws.antt =====
-- What `cancelOrder` of order_management.cpp does with the map and the pool.
use deribit_trading_system.Base.{
  ◌≡◌, ◌≢◌, refl, subst, ap, Bool, true, false, ◌∷◌, Option, none, some,
}
use deribit_trading_system.Base.Outcome.{ok, raise, pure, ◌>>=◌}
use deribit_trading_system.Text.{Bytes}
use deribit_trading_system.Pool.{allocate, deallocate}
use deribit_trading_system.Pool.Blocks.{allocate-some}
use deribit_trading_system.Orders.Map.{Entry, find}
use deribit_trading_system.Orders.Map.Laws.{
  Distinct, find-erase_self, find-erase_ne, erase-Distinct,
}
use deribit_trading_system.Orders.{Env, Value, Json, Api, access_token, send, read_body}
use deribit_trading_system.Orders.Unchanged.{Same, Unless, via, task-Unless}
use deribit_trading_system.Orders.Cancel.{
  cancel_url, is_refused, refusal_text, forget, refuse_or_forget, settle_cancel, settle_read,
  on_cancel_reply, cancel_order_request, cancel_order,
}

module _ (e : Env) where
  -- The order is gone from the map, and the address where its value lay is on top of the pool.
  pub record Forgotten (order_id : Bytes) (entry : Entry (Json e)) (a a' : Api e) : Type 0 where
    pub gone : find order_id a'.orders ≡ none
    pub others : (k : Bytes) → order_id ≢ k → find k a'.orders ≡ find k a.orders
    pub distinct : Distinct a'.orders
    pub free_is : a'.order_pool.free_blocks ≡ entry.address ∷ a.order_pool.free_blocks
    pub next : (allocate a'.order_pool).0 ≡ some entry.address
    pub placed_is : a'.placed ≡ a.placed

  -- A reply that refuses nothing, for an order of the map: true is returned, the order leaves the
  -- map, which is otherwise the same, and the pool hands out next the address of the erased value.
  pub settle_cancel-Forgotten :
      (order_id : Bytes) (success : Bool) (document : Value e) (entry : Entry (Json e)) (a : Api e)
      → is_refused e success document ≡ ok false
      → find order_id a.orders ≡ some entry
      → Distinct a.orders
      → let (o, a') = settle_cancel e order_id (success, document) a in
        (o ≡ ok true) × Forgotten order_id entry a a'
  unfolding settle_cancel forget deallocate
  settle_cancel-Forgotten order_id success document entry a accepted known d =
      rw (accepted, settle_cancel)
        (rw (known, forget)
          (
            refl,
            record {
              gone = find-erase_self order_id a.orders d;
              others = λ k h. find-erase_ne order_id k a.orders h;
              distinct = erase-Distinct order_id a.orders d;
              free_is = refl;
              next = ap (λ p. p.0) (allocate-some _ entry.address a.order_pool.free_blocks refl);
              placed_is = refl;
            },
          ))

  either-Unless :
      (order_id : Bytes) (a b : Api e) (document : Value e) (refused : Bool)
      → Same e a b
      → Unless e a (refuse_or_forget e order_id document refused b)
  unfolding refuse_or_forget
  either-Unless order_id a b document true s =
      via e a (raise (refusal_text e document)) (λ _. pure false) b (λ _. s)
  either-Unless order_id a b document false s = tt

  settle-Unless :
      (order_id : Bytes) (a b : Api e) (read : Option (Bool × Value e))
      → Same e a b
      → Unless e a (settle_read e order_id read b)
  unfolding settle_read settle_cancel
  settle-Unless order_id a b none s = s
  settle-Unless order_id a b (some (success, document)) s =
      via e a (raise (is_refused e success document)) (refuse_or_forget e order_id document) b
        λ refused. either-Unless order_id a b document refused s

  reply-Unless :
      (order_id : Bytes) (a b : Api e) (reply : Bool × Bytes)
      → Same e a b
      → Unless e a (on_cancel_reply e order_id reply b)
  unfolding on_cancel_reply
  reply-Unless order_id a b (false, buffer) s = s
  reply-Unless order_id a b (true, buffer) s =
      via e a (raise (read_body e buffer)) (settle_read e order_id) b
        λ read. settle-Unless order_id a b read s

  request-Unless : (order_id : Bytes) (a : Api e) → Unless e a (cancel_order_request e order_id a)
  unfolding cancel_order_request access_token send
  request-Unless order_id a =
      let sent = send e (cancel_url e order_id) in
      via e a (access_token e) (λ token. sent token >>= on_cancel_reply e order_id) a
        λ token. via e a (sent token) (on_cancel_reply e order_id) (access_token e a).1 λ reply.
          reply-Unless order_id a (sent token (access_token e a).1).1 reply
            (record { orders_are = refl; pool_is = refl; placed_is = refl })

  cancel_order-Unless : (order_id : Bytes) (a : Api e) → Unless e a (cancel_order e order_id a)
  unfolding cancel_order
  cancel_order-Unless order_id a =
      task-Unless e (cancel_order_request e order_id) a (request-Unless order_id a)

  -- When `cancelOrder` returns false, whatever the reply, it has changed neither the map nor the pool
  -- nor what lies in its blocks.
  pub cancel_order-false :
      (order_id : Bytes) (a a' : Api e) → cancel_order e order_id a ≡ (ok false, a') → Same e a a'
  cancel_order-false order_id a a' h = subst (Unless e a) h (cancel_order-Unless order_id a)
