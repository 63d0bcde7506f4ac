-- ===== src/Orders/Unchanged.antt =====
-- When a method of `OrderAPI` that returns a `bool` leaves its books alone.
use deribit_trading_system.Base.{◌≡◌, Bool, true, false}
use deribit_trading_system.Base.Outcome.{Outcome, M, ok, throws, aborts, hangs, bind-Post, ◌>>=◌}
use deribit_trading_system.Orders.{Env, Api, uncaught, execute_async_task}

module _ (e : Env) where
  -- The books of the two states are the same.
  pub record Same (a a' : Api e) : Type 0 where
    pub orders_are : a'.orders ≡ a.orders
    pub pool_is : a'.order_pool ≡ a.order_pool
    pub placed_is : a'.placed ≡ a.placed

  -- If the outcome is false, the books are what they were.
  abbrev pub Unless : Api e → Outcome Bool × Api e → Type 0
  Unless a (ok false, a') = Same a a'
  Unless a (_, a') = Unit {0}

  -- Through a step that only an ordinary return goes beyond.
  pub via :
      {A : Type 0} (a : Api e) (m : M (Api e) A) (f : A → M (Api e) Bool) (b : Api e)
      → ((x : A) → Unless a (f x (m b).1))
      → Unless a ((m >>= f) b)
  via a m f b h = bind-Post (Unless a) m f b (λ x _. h x) (λ _. tt) tt tt

  uncaught-Unless :
      (a a' : Api e) (o : Outcome Bool) → Unless a (o, a') → Unless a (uncaught e o, a')
  uncaught-Unless a a' (ok true) h = tt
  uncaught-Unless a a' (ok false) h = h
  uncaught-Unless a a' (throws x) h = tt
  uncaught-Unless a a' aborts h = tt
  uncaught-Unless a a' hangs h = tt

  -- On a worker thread it is the same.
  pub task-Unless :
      (task : M (Api e) Bool) (a : Api e)
      → Unless a (task a)
      → Unless a (execute_async_task e task a)
  unfolding execute_async_task
  task-Unless task a h = uncaught-Unless a (task a).1 (task a).0 h
