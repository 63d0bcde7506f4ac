-- ===== src/Orders/Changes.antt =====
-- What a call of a method of `OrderAPI` of order_management.cpp can do to its books: a transition
-- system of the map of orders, the pool and what was built in the blocks.
use deribit_trading_system.Base.{
  ℕ, ◌≡◌, refl, ap, subst, sym, Bool, true, false, List, [], ◌∷◌, none, some,
}
use deribit_trading_system.Base.Outcome.{
  Outcome, Exception, M, ok, throws, aborts, hangs, bind-Post, pure, ◌>>=◌, ◌>>◌,
}
use deribit_trading_system.Text.{Bytes}
use deribit_trading_system.Json.{rapidjson_to_nlohmann}
use deribit_trading_system.Pool.{MemoryPool, deallocate}
use deribit_trading_system.Pool.Blocks.{allocate-some, allocate-none}
use deribit_trading_system.Http.{Net, perform_curl_request}
use deribit_trading_system.Http.Retry.{perform_curl_request-Stops, perform_curl_request_starved}
use deribit_trading_system.Orders.Map.{Entry, find, assign, erase}
use deribit_trading_system.Orders.{
  Env, Json, Value, Api, construct, strays, record_order, record_at, execute_async_task, uncaught,
  send,
}
use deribit_trading_system.Orders.Calls.{Call, place, cancel, modify, with_result}

abbrev pub fails {ℓ} : {A : Type ℓ} → Outcome A → Bool
fails (ok b) = false
fails _ = true

module _ (e : Env) where
  pub record Books : Type 0 where
    pub free_handles : List ℕ
    pub orders : List (Entry (Json e))
    pub order_pool : MemoryPool
    pub placed : List (ℕ × Json e)
    pub stray : List ℕ

  abbrev pub books : Api e → Books
  books a = record {
    free_handles = a.manager.free_handles;
    orders = a.orders;
    order_pool = a.order_pool;
    placed = a.placed;
    stray = a.stray;
  }

  -- The handle of a request is the last one free and goes back there.
  request-free_handles :
      (u token : Bytes) (n : Net e.curl)
      → (perform_curl_request e.curl u token [] n).2.manager.free_handles ≡ n.manager.free_handles
  request-free_handles u token n = go n.manager.free_handles refl
    where
      go :
          (free : List ℕ)
          → n.manager.free_handles ≡ free
          → (perform_curl_request e.curl u token [] n).2.manager.free_handles
            ≡ n.manager.free_handles
      go [] h =
          ap (λ p. p.2.manager.free_handles) (perform_curl_request_starved e.curl u token [] n h)
      go (handle ∷ rest) h = (perform_curl_request-Stops e.curl u token [] n handle rest h).2

  send-books : (u token : Bytes) (a : Api e) → books (send e u token a).1 ≡ books a
  unfolding send
  send-books u token a =
      ap (λ f. record (books a) { free_handles = f })
        (request-free_handles u token (record { manager = a.manager; world = a.world }))

  -- The id under which a call may record an order: any one that the reply names, or the given one.
  pub data Records : Call e → Bytes → Type 0 where
    placing :
        {i : Bytes} {q p : e.numbers.Double} {l o t : Bytes} (id : Bytes)
        → Records (place i q p l o t) id
    modifying : {p q : e.numbers.Double} (id : Bytes) → Records (modify id p q) id

  pub data Cancels : Call e → Bytes → Type 0 where
    cancelling : (id : Bytes) → Cancels (cancel id) id

  -- With the top block taken from the pool.
  abbrev pub popped : Books → List ℕ → Books
  popped b rest = record b { order_pool = record b.order_pool { free_blocks = rest } }

  -- The transitions of the books, by the call and its outcome.
  pub data Change (c : Call e) : Outcome Bool → Books → Books → Type 0 where
    refused : (b : Books) → Change c (ok false) b b
    stopped : (o : Outcome Bool) (b : Books) → fails o ≡ true → Change c o b b
    untracked :
        (id : Bytes) (b : Books)
        → Records c id
        → b.order_pool.free_blocks ≡ []
        → Change c (ok true) b b
    unknown :
        (id : Bytes) (b : Books) → Cancels c id → find id b.orders ≡ none → Change c (ok true) b b
    recorded :
        (id : Bytes) (ptr : ℕ) (rest : List ℕ) (x : Json e) (w : e.curl.World) (b : Books)
        → Records c id
        → b.order_pool.free_blocks ≡ ptr ∷ rest
        → Change c (ok true) b (record (popped b rest) {
          orders = (assign e.new_node id x (construct e ptr x b.order_pool b.orders) w).0;
          stray = strays e ptr b.order_pool b.orders b.stray;
          placed = (ptr, x) ∷ b.placed;
        })
    unconverted :
        (o : Outcome Bool) (id : Bytes) (ptr : ℕ) (rest : List ℕ) (b : Books)
        → fails o ≡ true
        → Records c id
        → b.order_pool.free_blocks ≡ ptr ∷ rest
        → Change c o b (popped b rest)
    forgotten :
        (id : Bytes) (entry : Entry (Json e)) (b : Books)
        → Cancels c id
        → find id b.orders ≡ some entry
        → Change c (ok true) b (record b {
          order_pool = deallocate b.order_pool entry.address;
          orders = erase id b.orders;
        })

  module _ (c : Call e) where
    -- The change that a run makes of the books it starts with.
    abbrev pub Made : {B : Type 0} → (B → Bool) → Books → Outcome B × Api e → Type 0
    Made g b r = Change c (with_result g r.0) b (books r.1)

    -- Through a step that leaves the books alone.
    pub via :
        {A B : Type 0} (g : B → Bool) (b : Books) (m : M (Api e) A) (f : A → M (Api e) B)
        (a : Api e)
        → books (m a).1 ≡ b
        → ((x : A) → Made g b (f x (m a).1))
        → Made g b ((m >>= f) a)
    via g b m f a s h =
        let stop : (o : Outcome Bool) → fails o ≡ true → Change c o b (books (m a).1) =
          λ o t. subst (Change c o b) (sym s) (stopped o b t) in
        bind-Post (Made g b) m f a (λ x _. h x) (λ x. stop (throws x) refl) (stop aborts refl)
          (stop hangs refl)

    returned :
        {B : Type 0} (g : B → Bool) (r : B) (b : Books) (a : Api e) (p : Outcome (Unit {0}) × Api e)
        → Change c (with_result (λ _. g r) p.0) b (books p.1)
        → Made g b (((λ _. p) >> pure r) a)
    returned g r b a (ok u, a') k = k
    returned g r b a (throws x, a') k = k
    returned g r b a (aborts, a') k = k
    returned g r b a (hangs, a') k = k

    -- Through a request.
    pub send-Change :
        {B : Type 0} (g : B → Bool) (u token : Bytes) (f : Bool × Bytes → M (Api e) B) (a : Api e)
        → ((x : Bool × Bytes) → Made g (books (send e u token a).1) (f x (send e u token a).1))
        → Made g (books a) ((send e u token >>= f) a)
    send-Change g u token f a h =
        via g (books a) (send e u token) f a (send-books u token a)
          (λ x. subst (λ b. Made g b (f x (send e u token a).1)) (send-books u token a) (h x))

    then_pure :
        {B : Type 0} (g : B → Bool) (r : B) (b : Books) (m : M (Api e) (Unit {0})) (a : Api e)
        (p : Outcome (Unit {0}) × Api e)
        → m a ≡ p
        → Change c (with_result (λ _. g r) p.0) b (books p.1)
        → Made g b ((m >> pure r) a)
    then_pure g r b m a p h k =
        returned g r b a (m a)
          (subst (λ p. Change c (with_result (λ _. g r) p.0) b (books p.1)) (sym h) k)

    -- An order is recorded, and then true is returned.
    pub record_order-Change :
        {B : Type 0} (g : B → Bool) (r : B) (id : Bytes) (order : Value e) (a : Api e)
        → g r ≡ true
        → Records c id
        → Made g (books a) ((record_order e id order >> pure r) a)
    unfolding record_order record_at
    record_order-Change {B} g r id order a t k = go a.order_pool.free_blocks refl _ refl
      where
        made :
            (p : Outcome (Unit {0}) × Api e)
            → record_order e id order a ≡ p
            → Change c (with_result (λ _. g r) p.0) (books a) (books p.1)
            → Made g (books a) ((record_order e id order >> pure r) a)
        made = then_pure g r (books a) (record_order e id order) a

        without : List ℕ → Api e
        without rest = record a { order_pool = record a.order_pool { free_blocks = rest } }

        go :
            (free : List ℕ)
            → a.order_pool.free_blocks ≡ free
            → (o : Outcome (Json e))
            → rapidjson_to_nlohmann e.rapid e.nlohmann (e.depth order) order ≡ o
            → Made g (books a) ((record_order e id order >> pure r) a)
        go [] h o h' =
            made (ok tt, a) (rw (allocate-none a.order_pool h, record_order) refl)
              (rw t (untracked id (books a) k h))
        go (ptr ∷ rest) h (ok x) h' =
            made
              (
                ok tt,
                record (without rest) {
                  placed = (ptr, x) ∷ a.placed;
                  orders =
                      (assign e.new_node id x (construct e ptr x a.order_pool a.orders) a.world).0;
                  stray = strays e ptr a.order_pool a.orders a.stray;
                  world =
                      (assign e.new_node id x (construct e ptr x a.order_pool a.orders) a.world).1;
                },
              )
              (rw (allocate-some a.order_pool ptr rest h, record_order, h', record_at) refl)
              (rw t (recorded id ptr rest x a.world (books a) k h))
        go (ptr ∷ rest) h (throws x) h' =
            made (throws x, without rest)
              (rw (allocate-some a.order_pool ptr rest h, record_order, h', record_at) refl)
              (unconverted (throws x) id ptr rest (books a) refl k h)
        go (ptr ∷ rest) h aborts h' =
            made (aborts, without rest)
              (rw (allocate-some a.order_pool ptr rest h, record_order, h', record_at) refl)
              (unconverted aborts id ptr rest (books a) refl k h)
        go (ptr ∷ rest) h hangs h' =
            made (hangs, without rest)
              (rw (allocate-some a.order_pool ptr rest h, record_order, h', record_at) refl)
              (unconverted hangs id ptr rest (books a) refl k h)

    -- An exception that nothing catches.
    aborted : (x : Exception) (b b' : Books) → Change c (throws x) b b' → Change c aborts b b'
    aborted x b b' (stopped o d t) = stopped aborts d refl
    aborted x b b' (unconverted o id ptr rest d t k h) = unconverted aborts id ptr rest d refl k h

    uncaught-Change :
        {B : Type 0} (g : B → Bool) (o : Outcome B) (b b' : Books)
        → Change c (with_result g o) b b'
        → Change c (with_result g (uncaught e o)) b b'
    uncaught-Change g (ok r) b b' h = h
    uncaught-Change g (throws x) b b' h = aborted x b b' h
    uncaught-Change g aborts b b' h = h
    uncaught-Change g hangs b b' h = h

    -- On a worker thread it is the same, but for an exception.
    pub task-Change :
        {B : Type 0} (g : B → Bool) (b : Books) (task : M (Api e) B) (a : Api e)
        → Made g b (task a)
        → Made g b (execute_async_task e task a)
    unfolding execute_async_task
    task-Change g b task a h = uncaught-Change g (task a).0 b (books (task a).1) h
