-- ===== src/Orders/Modify/Laws.antt =====
-- What `modifyOrder` of order_management.cpp does with the map and the pool.
use deribit_trading_system.Base.{
  ℕ, ◌≡◌, refl, subst, Bool, true, false, List, ◌∷◌, Option, none, some,
}
use deribit_trading_system.Base.Outcome.{ok, raise, pure, ◌>>=◌, ◌>>◌, bind_ok}
use deribit_trading_system.Text.{Bytes, txt}
use deribit_trading_system.Json.{asserted, rapidjson_to_nlohmann}
use deribit_trading_system.Orders.{
  Env, Value, Json, Api, access_token, send, read_body, record_order,
}
use deribit_trading_system.Orders.Record.{Recorded, IsOwn, record_order-Recorded}
use deribit_trading_system.Orders.Unchanged.{Same, Unless, via, task-Unless}
use deribit_trading_system.Orders.Cancel.{is_refused, refusal_text}
use deribit_trading_system.Orders.Modify.{
  modify_url, keep, update_order, refuse_or_update, settle_modify, settle_read, on_modify_reply,
  modify_task, modify_order,
}

module _ (e : Env) where
  open e use {rapid}

  -- The reply holds the order as it is now.
  pub record Shows (success : Bool) (document result order : Value e) : Type 0 where
    pub accepted : is_refused e success document ≡ ok false
    pub result_is : rapid.member document (txt "result") ≡ some result
    pub there : rapid.has_member result (txt "order") ≡ some true
    pub order_is : rapid.member result (txt "order") ≡ some order

  settle_shown :
      (order_id : Bytes) (success : Bool) (document result order : Value e) (a : Api e)
      → Shows success document result order
      → (record_order e order_id order a).0 ≡ ok tt
      → settle_modify e order_id (success, document) a
        ≡ (ok true, (record_order e order_id order a).1)
  unfolding settle_modify
  settle_shown order_id success document result order a s done =
      rw (s.accepted, settle_modify)
        (rw (s.result_is, update_order)
          (rw (s.there, update_order)
            (rw (s.order_is, keep)
              (bind_ok (record_order e order_id order) (λ _. pure true) a tt done))))

  -- A reply that shows the order makes the method return true. One more block of the pool is taken,
  -- also where the map had the order, and the map has the new value under its id, and otherwise what
  -- it had.
  pub settle_modify-Recorded :
      (order_id : Bytes) (success : Bool) (document result order : Value e) (a : Api e) (ptr : ℕ)
      (rest : List ℕ) (x : Json e)
      → Shows success document result order
      → a.order_pool.free_blocks ≡ ptr ∷ rest
      → rapidjson_to_nlohmann e.rapid e.nlohmann (e.depth order) order ≡ ok x
      → IsOwn e order_id order a ptr
      → let (o, a') = settle_modify e order_id (success, document) a in
        (o ≡ ok true) × Recorded e order_id order a ptr rest x a'
  settle_modify-Recorded order_id success document result order a ptr rest x s free converts own =
      let (done, recorded) =
        record_order-Recorded e order_id order a ptr rest x free converts own in
      rw (settle_shown order_id success document result order a s done) (refl, recorded)

  module _ (order_id : Bytes) (a b : Api e) (s : Same e a b) where
    keep-Unless : (result : Value e) (has : Bool) → Unless e a (keep e order_id result has b)
    unfolding keep
    keep-Unless result true =
        via e a (raise (asserted (rapid.member result (txt "order"))))
          (λ order. record_order e order_id order >> pure true) b
          λ order. via e a (record_order e order_id order) (λ _. pure true) b (λ _. tt)
    keep-Unless result false = s

    either-Unless :
        (document : Value e) (refused : Bool)
        → Unless e a (refuse_or_update e order_id document refused b)
    unfolding refuse_or_update update_order
    either-Unless document true =
        via e a (raise (refusal_text e document)) (λ _. pure false) b (λ _. s)
    either-Unless document false =
        via e a (raise (asserted (rapid.member document (txt "result"))))
          (λ result.
            raise (asserted (rapid.has_member result (txt "order"))) >>= keep e order_id result)
          b
          λ result.
            via e a (raise (asserted (rapid.has_member result (txt "order"))))
              (keep e order_id result) b (keep-Unless result)

    settle-Unless : (read : Option (Bool × Value e)) → Unless e a (settle_read e order_id read b)
    unfolding settle_read settle_modify
    settle-Unless none = s
    settle-Unless (some (success, document)) =
        via e a (raise (is_refused e success document)) (refuse_or_update e order_id document) b
          (either-Unless document)

    reply-Unless : (reply : Bool × Bytes) → Unless e a (on_modify_reply e order_id reply b)
    unfolding on_modify_reply
    reply-Unless (false, buffer) = s
    reply-Unless (true, buffer) =
        via e a (raise (read_body e buffer)) (settle_read e order_id) b settle-Unless

  modify_task-Unless :
      (order_id : Bytes) (new_price amount : e.numbers.Double) (a : Api e)
      → Unless e a (modify_task e order_id new_price amount a)
  unfolding modify_task access_token send
  modify_task-Unless order_id new_price amount a =
      let sent = send e (modify_url e order_id new_price amount) in
      via e a (access_token e) (λ token. sent token >>= on_modify_reply e order_id) a
        λ token. via e a (sent token) (on_modify_reply e order_id) (access_token e a).1 (
          reply-Unless order_id a (sent token (access_token e a).1).1
            (record { orders_are = refl; pool_is = refl; placed_is = refl }))

  modify_order-Unless :
      (order_id : Bytes) (new_price amount : e.numbers.Double) (a : Api e)
      → Unless e a (modify_order e order_id new_price amount a)
  unfolding modify_order
  modify_order-Unless order_id new_price amount a =
      task-Unless e (modify_task e order_id new_price amount) a
        (modify_task-Unless order_id new_price amount a)

  -- When `modifyOrder` returns false, whatever the reply, it has changed neither the map nor the pool
  -- nor what lies in its blocks.
  pub modify_order-false :
      (order_id : Bytes) (new_price amount : e.numbers.Double) (a a' : Api e)
      → modify_order e order_id new_price amount a ≡ (ok false, a')
      → Same e a a'
  modify_order-false order_id new_price amount a a' h =
      subst (Unless e a) h (modify_order-Unless order_id new_price amount a)
