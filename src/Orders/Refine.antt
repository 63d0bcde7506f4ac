-- ===== src/Orders/Refine.antt =====
-- Every call of a method of `OrderAPI` of order_management.cpp as a transition of its books.
use deribit_trading_system.Orders.{Env, Api}
use deribit_trading_system.Orders.Calls.{Call, place, cancel, modify, look_up, perform}
use deribit_trading_system.Orders.Changes.{Change, books}
use deribit_trading_system.Orders.Place.Step.{place_order-Change}
use deribit_trading_system.Orders.Cancel.Step.{cancel_order-Change}
use deribit_trading_system.Orders.Modify.Step.{modify_order-Change}
use deribit_trading_system.Orders.Market.Step.{get_order_book-Change}

module _ (e : Env) where
  -- Whatever the reply and the outcome, a call makes one of the transitions of the books that its
  -- method and outcome allow: where it returns false or an order book, none; where true, an order is
  -- built at the address that the pool gave, which also overwrites a value of the map that lies there,
  -- and is recorded, or the pool was empty; a cancelled order leaves the map, or was not in it; and
  -- where it fails, the most that can have happened is that a block of the pool was taken. What becomes
  -- of the map where that address is in freed memory is left open.
  pub perform-Change :
      (c : Call e) (a : Api e)
      → Change e c (perform e c a).0 (books e a) (books e (perform e c a).1)
  unfolding perform
  perform-Change (place instrument quantity price label order_id order_type) a =
      place_order-Change e instrument quantity price label order_id order_type a
  perform-Change (cancel order_id) a = cancel_order-Change e order_id a
  perform-Change (modify order_id new_price amount) a =
      modify_order-Change e order_id new_price amount a
  perform-Change (look_up symbol) a = get_order_book-Change e symbol a
