-- ===== src/Orders/Record.antt =====
-- How `placeOrder` and `modifyOrder` of order_management.cpp record an order.
use deribit_trading_system.Base.{ℕ, true, false, ◌≡◌, refl, ap, List, [], ◌∷◌, some, if◌then◌else◌}
use deribit_trading_system.Base.Outcome.{ok}
use deribit_trading_system.Text.{Bytes, beq}
use deribit_trading_system.Json.{rapidjson_to_nlohmann}
use deribit_trading_system.Pool.Blocks.{allocate-some, allocate-none}
use deribit_trading_system.Orders.Map.Laws.{value_at, value_at-assign, put_at_apart}
use deribit_trading_system.Orders.Map.{lies_at}
use deribit_trading_system.Orders.{Env, Value, Json, Api, is_block, record_at, record_order}

module _ (e : Env) (order_id : Bytes) (order : Value e) where
  -- The state once an order is recorded in the block at the top of the pool.
  pub record Recorded (a : Api e) (ptr : ℕ) (rest : List ℕ) (x : Json e) (a' : Api e) : Type 0 where
    pub pool_is : a'.order_pool ≡ record a.order_pool { free_blocks = rest }
    pub placed_is : a'.placed ≡ (ptr, x) ∷ a.placed
    pub order_is :
        (k : Bytes)
        → value_at k a'.orders ≡ (if beq order_id k then some x else value_at k a.orders)
    pub stray_is : a'.stray ≡ a.stray
    pub tokens_are : a'.tokens ≡ a.tokens
    pub manager_is : a'.manager ≡ a.manager

  -- The block lies in the memory of the pool, and no value of the map lies there.
  pub record IsOwn (a : Api e) (ptr : ℕ) : Type 0 where
    pub inside : is_block e ptr a.order_pool ≡ true
    pub apart : lies_at ptr a.orders ≡ false

  pub record_order-Recorded :
      (a : Api e) (ptr : ℕ) (rest : List ℕ) (x : Json e)
      → a.order_pool.free_blocks ≡ ptr ∷ rest
      → rapidjson_to_nlohmann e.rapid e.nlohmann (e.depth order) order ≡ ok x
      → IsOwn a ptr
      → ((record_order e order_id order a).0 ≡ ok tt)
        × Recorded a ptr rest x (record_order e order_id order a).1
  unfolding record_order record_at
  record_order-Recorded a ptr rest x free converts own =
      rw
        (
          allocate-some a.order_pool ptr rest free,
          record_order,
          converts,
          own.inside,
          put_at_apart ptr x a.orders own.apart,
          record_at,
        )
        (
          refl,
          record {
            pool_is = refl;
            placed_is = refl;
            order_is = λ k. value_at-assign e.new_node order_id k x a.orders a.world;
            stray_is = refl;
            tokens_are = refl;
            manager_is = refl;
          },
        )

  pub record_order_exhausted :
      (a : Api e) → a.order_pool.free_blocks ≡ [] → record_order e order_id order a ≡ (ok tt, a)
  unfolding record_order record_at
  record_order_exhausted a free =
      ap (λ p. record_at e order_id order p a) (allocate-none a.order_pool free)
