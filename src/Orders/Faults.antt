-- ===== src/Orders/Faults.antt =====
-- What the methods of `OrderAPI` in order_management.cpp do with a reply that is no JSON object.
use deribit_trading_system.Base.{◌≡◌, refl, Bool, true, false, none}
use deribit_trading_system.Base.Outcome.{ok, aborts}
use deribit_trading_system.Text.{Bytes, txt}
use deribit_trading_system.Orders.{Env, Value, Api}
use deribit_trading_system.Orders.Place.{has_order, settle_place}
use deribit_trading_system.Orders.Cancel.{is_refused, refusal_text, settle_cancel}
use deribit_trading_system.Orders.Modify.{settle_modify}
use deribit_trading_system.Orders.Market.{lacks_result, settle_book}

module _ (e : Env) where
  open e use {rapid}

  -- What the rapidjson documentation says: `HasMember` asserts that the value is an object, and a
  -- document that has not been filled is not one.
  pub record Asserts : Type 0 where
    pub fresh_null : rapid.is_object rapid.fresh ≡ false
    pub object_only :
        (v : rapid.Value) (k : Bytes) → rapid.is_object v ≡ false → rapid.has_member v k ≡ none

  module _ (law : Asserts) (order_id : Bytes) (a : Api e) where
    -- On a reply that parses to something else than an object, the handler of the error looks for an
    -- "error" member in it: the assertion of `HasMember` ends the process in all three methods,
    -- while the order book returns null.
    pub not_object-aborts :
        (success : Bool) (document : Value e)
        → rapid.is_object document ≡ false
        → (settle_place e order_id (success, document) a ≡ (aborts, a))
          × (settle_cancel e order_id (success, document) a ≡ (aborts, a))
          × (settle_modify e order_id (success, document) a ≡ (aborts, a))
          × (settle_book e (success, document) ≡ ok e.nlohmann.null)
    unfolding settle_place settle_cancel settle_modify settle_book has_order is_refused refusal_text
        lacks_result
    not_object-aborts true document h =
        let none_there = law.object_only document (txt "error") h in
        (rw h (rw none_there), rw h (rw none_there), rw h (rw none_there), rw h)
    not_object-aborts false document h =
        let none_there = law.object_only document (txt "error") h in
        (rw none_there, rw none_there, rw none_there, refl)
