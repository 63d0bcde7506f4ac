-- ===== src/Orders/Place/Laws.antt =====
-- What `placeOrder` of order_management.cpp does on each kind of reply.
use deribit_trading_system.Base.{
  ℕ, ◌≡◌, refl, subst, ap, ◌∙◌, Bool, true, false, List, [], ◌∷◌, Option, none, some,
}
use deribit_trading_system.Base.Outcome.{Outcome, ok, bind-Post, bind_ok, pure, raise, M, ◌>>=◌}
use deribit_trading_system.Text.{Bytes, txt}
use deribit_trading_system.Json.{asserted, rapidjson_to_nlohmann}
use deribit_trading_system.Orders.{
  Env, Value, Json, Api, access_token, send, read_body, record_order, error_message,
}
use deribit_trading_system.Orders.Record.{
  Recorded, IsOwn, record_order-Recorded, record_order_exhausted,
}
use deribit_trading_system.Orders.Unchanged.{Same}
use deribit_trading_system.Orders.Place.{
  has_order, order_of, order_id_of, accept, reject, keep, report, accept_or_reject, settle_read,
  settle_place, on_place_reply, place_order, place_url,
}

module _ (e : Env) where
  -- The reply names an order and its id.
  pub record Names (success : Bool) (document order : Value e) (id : Bytes) : Type 0 where
    pub there : has_order e success document ≡ ok true
    pub order_is : order_of e document ≡ ok order
    pub id_is : order_id_of e order ≡ ok (some id)

  settle_accepted :
      (order_id : Bytes) (success : Bool) (document order : Value e) (id : Bytes) (a : Api e)
      → Names success document order id
      → (record_order e id order a).0 ≡ ok tt
      → settle_place e order_id (success, document) a
        ≡ (ok (true, id), (record_order e id order a).1)
  unfolding settle_place
  settle_accepted order_id success document order id a n done =
      rw (n.there, settle_place)
        (rw (n.order_is, accept)
          (rw (n.id_is, keep) (bind_ok (record_order e id order) (λ _. pure (true, id)) a tt done)))

  -- A reply that names an order makes the method return true with the order's id. The next block of
  -- the pool is taken, the order is built in it, and the map has the order under its id, and
  -- otherwise what it had.
  pub settle_place-Recorded :
      (order_id : Bytes) (success : Bool) (document order : Value e) (id : Bytes) (a : Api e)
      (ptr : ℕ) (rest : List ℕ) (x : Json e)
      → Names success document order id
      → a.order_pool.free_blocks ≡ ptr ∷ rest
      → rapidjson_to_nlohmann e.rapid e.nlohmann (e.depth order) order ≡ ok x
      → IsOwn e id order a ptr
      → let (o, a') = settle_place e order_id (success, document) a in
        (o ≡ ok (true, id)) × Recorded e id order a ptr rest x a'
  settle_place-Recorded order_id success document order id a ptr rest x n free converts own =
      let (done, recorded) = record_order-Recorded e id order a ptr rest x free converts own in
      rw (settle_accepted order_id success document order id a n done) (refl, recorded)

  -- Once the pool is empty the method still returns true with the id, and records nothing.
  pub settle_place_untracked :
      (order_id : Bytes) (success : Bool) (document order : Value e) (id : Bytes) (a : Api e)
      → Names success document order id
      → a.order_pool.free_blocks ≡ []
      → settle_place e order_id (success, document) a ≡ (ok (true, id), a)
  settle_place_untracked order_id success document order id a n free =
      let r = record_order_exhausted e id order a free in
      settle_accepted order_id success document order id a n (ap (λ p. p.0) r)
      ∙ ap (λ p. (ok (true, id), p.1)) r

  -- If the outcome is false, `orderId` is what it was, and so are the books.
  abbrev pub UnlessPlaced : Bytes → Api e → Outcome (Bool × Bytes) × Api e → Type 0
  UnlessPlaced order_id a (ok (false, id), a') = (id ≡ order_id) × Same e a a'
  UnlessPlaced order_id a (_, a') = Unit {0}

  -- Through a step that only an ordinary return goes beyond.
  via :
      {A : Type 0} (order_id : Bytes) (a : Api e) (m : M (Api e) A)
      (f : A → M (Api e) (Bool × Bytes)) (b : Api e)
      → ((x : A) → UnlessPlaced order_id a (f x (m b).1))
      → UnlessPlaced order_id a ((m >>= f) b)
  via order_id a m f b h = bind-Post (UnlessPlaced order_id a) m f b (λ x _. h x) (λ _. tt) tt tt

  module _ (order_id : Bytes) (a b : Api e) (s : Same e a b) where
    abbrev P : M (Api e) (Bool × Bytes) → Type 0
    P m = UnlessPlaced order_id a (m b)

    keep-Unless : (order : Value e) (found : Option Bytes) → P (keep e order_id order found)
    unfolding keep
    keep-Unless order none = (refl, s)
    keep-Unless order (some id) =
        via order_id a (record_order e id order) (λ _. pure (true, id)) b (λ _. tt)

    report-Unless : (document : Value e) (failed : Bool) → P (report e order_id document failed)
    unfolding report
    report-Unless document true =
        via order_id a (raise (error_message e document)) (λ _. pure (false, order_id)) b
          (λ _. (refl, s))
    report-Unless document false = (refl, s)

    either-Unless :
        (document : Value e) (placed : Bool) → P (accept_or_reject e order_id document placed)
    unfolding accept_or_reject accept reject
    either-Unless document true =
        via order_id a (raise (order_of e document))
          (λ order. raise (order_id_of e order) >>= λ found. keep e order_id order found) b
          λ order.
            via order_id a (raise (order_id_of e order)) (keep e order_id order) b
              (keep-Unless order)
    either-Unless document false =
        via order_id a (raise (asserted (e.rapid.has_member document (txt "error"))))
          (report e order_id document) b (report-Unless document)

    settle-Unless : (read : Option (Bool × Value e)) → P (settle_read e order_id read)
    unfolding settle_read settle_place
    settle-Unless none = (refl, s)
    settle-Unless (some (success, document)) =
        via order_id a (raise (has_order e success document)) (accept_or_reject e order_id document)
          b (either-Unless document)

    reply-Unless : (reply : Bool × Bytes) → P (on_place_reply e order_id reply)
    unfolding on_place_reply
    reply-Unless (false, buffer) = (refl, s)
    reply-Unless (true, buffer) =
        via order_id a (raise (read_body e buffer)) (settle_read e order_id) b settle-Unless

  place_order-Unless :
      (instrument : Bytes) (quantity price : e.numbers.Double) (label order_id order_type : Bytes)
      (a : Api e)
      → UnlessPlaced order_id a
          (place_order e instrument quantity price label order_id order_type a)
  unfolding place_order access_token send
  place_order-Unless instrument quantity price label order_id order_type a =
      let sent = send e (place_url e instrument quantity price label order_type) in
      via order_id a (access_token e) (λ token. sent token >>= on_place_reply e order_id) a
        λ token. via order_id a (sent token) (on_place_reply e order_id) (access_token e a).1 (
          reply-Unless order_id a (sent token (access_token e a).1).1
            (record { orders_are = refl; pool_is = refl; placed_is = refl }))

  -- When `placeOrder` returns false, whatever the request and the reply, it has changed neither
  -- `orderId` nor the map, the pool or what lies in its blocks.
  pub place_order-false :
      (instrument : Bytes) (quantity price : e.numbers.Double)
      (label order_id order_type id : Bytes) (a a' : Api e)
      → place_order e instrument quantity price label order_id order_type a ≡ (ok (false, id), a')
      → (id ≡ order_id) × Same e a a'
  place_order-false instrument quantity price label order_id order_type id a a' h =
      subst (UnlessPlaced order_id a) h
        (place_order-Unless instrument quantity price label order_id order_type a)
