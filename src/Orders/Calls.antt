-- ===== src/Orders/Calls.antt =====
-- A client's use of `OrderAPI` of order_management.h: calls of its methods one after the other.
use deribit_trading_system.Base.{Bool, true, false, List, [], ◌∷◌, if◌then◌else◌}
use deribit_trading_system.Base.Outcome.{Outcome, M, ok, throws, aborts, hangs}
use deribit_trading_system.Text.{Bytes}
use deribit_trading_system.Orders.{Env, Api}
use deribit_trading_system.Orders.Place.{place_order}
use deribit_trading_system.Orders.Cancel.{cancel_order}
use deribit_trading_system.Orders.Modify.{modify_order}
use deribit_trading_system.Orders.Market.{get_order_book}

abbrev pub with_result {ℓ κ} : {A : Type ℓ} {B : Type κ} → (A → B) → Outcome A → Outcome B
with_result f (ok a) = ok (f a)
with_result f (throws x) = throws x
with_result f aborts = aborts
with_result f hangs = hangs

-- A client survives an exception, which it may catch, but not the end of its process.
abbrev pub survives : Outcome Bool → Bool
survives (ok b) = true
survives (throws x) = true
survives aborts = false
survives hangs = false

module _ (e : Env) where
  open e use {numbers}

  -- A call with its arguments; `place` has those of `placeOrder`, in its order.
  pub data Call : Type 0 where
    place : Bytes → numbers.Double → numbers.Double → Bytes → Bytes → Bytes → Call
    cancel : Bytes → Call
    modify : Bytes → numbers.Double → numbers.Double → Call
    look_up : Bytes → Call

  -- Whether it returned true. An order book counts as false.
  unfoldable pub perform : Call → M (Api e) Bool
  perform (place instrument quantity price label order_id order_type) a =
      let (o, a') = place_order e instrument quantity price label order_id order_type a in
      (with_result (λ r. r.0) o, a')
  perform (cancel order_id) a =
      let (o, a') = cancel_order e order_id a in (with_result (λ r. r) o, a')
  perform (modify order_id new_price amount) a =
      let (o, a') = modify_order e order_id new_price amount a in (with_result (λ r. r) o, a')
  perform (look_up symbol) a =
      let (o, a') = get_order_book e symbol a in (with_result (λ book. false) o, a')

  -- The state after a series of calls.
  unfoldable pub after : List Call → Api e → Api e
  after [] a = a
  after (c ∷ calls) a =
      let (o, a') = perform c a in let rest = after calls a' in if survives o then rest else a'
