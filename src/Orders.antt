-- ===== src/Orders.antt =====
-- `OrderAPI` of order_management.h and order_management.cpp: its state, and what its methods share.
-- The methods are the children `Place`, `Cancel`, `Modify` and `Market`.
pub mod Map
pub mod Place
pub mod Cancel
pub mod Modify
pub mod Market
pub mod Unchanged
pub mod Record
pub mod Url
pub mod Faults
pub mod Calls
pub mod Changes
pub mod Refine
pub mod History
pub mod Storage
mod Tests
mod Examples
use deribit_trading_system.Base.{
  ℕ, ◌+◌, ◌*◌, ltb, not, ◌&&◌, ◌||◌, Bool, true, false, List, [], ◌∷◌, Option, none, some,
  if◌then◌else◌,
}
use deribit_trading_system.Base.Outcome.{
  Outcome, M, ok, throws, aborts, hangs, out_of_range, runtime_error, parse_error, type_error,
  and_then, raise, pure, ◌>>=◌,
}
use deribit_trading_system.Text.{Bytes, txt}
use deribit_trading_system.Curl.{Curl}
use deribit_trading_system.Json.{
  Numbers, RapidJson, Nlohmann, asserted, parse_json_response, rapidjson_to_nlohmann,
}
use deribit_trading_system.Gzip.{Zlib, decompress_gzip}
use deribit_trading_system.Pool.{MemoryPool, allocate}
use deribit_trading_system.Pool
use deribit_trading_system.Connection.{Manager}
use deribit_trading_system.Http.{Net, perform_curl_request}
use deribit_trading_system.Token.{TokenManager, Clock, Session, get_access_token}
use deribit_trading_system.Response.{extract_body, is_gzip}
use Map.{Entry, find, assign, lies_at, put_at}

-- The libraries and the world that the program runs in. `new_node` is the address of the value in a
-- node that the hash map allocates, `damage` what a construction in freed memory makes of the map.
-- `rounds` and `depth` are the fuel of the two loops.
pub record Env : Type 1 where
  pub numbers : Numbers
  pub rapid : RapidJson numbers
  pub nlohmann : Nlohmann numbers
  pub curl : Curl
  pub clock : Clock curl
  pub zlib : Zlib
  pub print_double : numbers.Double → Bytes
  pub zero_double : numbers.Double
  pub new_node : curl.World → ℕ × curl.World
  pub damage : ℕ → List (Entry nlohmann.Json) → List (Entry nlohmann.Json)
  pub outbuffer : Bytes
  pub rounds : Bytes → ℕ
  pub depth : rapid.Value → ℕ

module _ (e : Env) where
  open e use {rapid, nlohmann, curl, clock, zlib, new_node}

  abbrev pub Json : Type 0
  Json = nlohmann.Json

  abbrev pub Value : Type 0
  Value = rapid.Value

  -- The object with what it refers to. `placed` is what placement `new` has put at which address,
  -- the last one first, and `stray` where it did so in freed memory.
  pub record Api : Type 0 where
    pub manager : Manager
    pub tokens : TokenManager
    pub order_pool : MemoryPool
    pub orders : List (Entry Json)
    pub placed : List (ℕ × Json)
    pub stray : List ℕ
    pub world : curl.World

  -- The constructor: a pool of 100 blocks of `sizeof(nlohmann::json)` at the address it got.
  unfoldable pub init : Manager → TokenManager → ℕ → ℕ → curl.World → Api
  init manager tokens memory json_size w = record {
    manager = manager;
    tokens = tokens;
    order_pool = Pool.init memory json_size 100;
    orders = [];
    placed = [];
    stray = [];
    world = w;
  }

  -- `tokenManager.getAccessToken()`
  unfoldable pub access_token : M Api Bytes
  access_token a =
      let (o, s) =
        get_access_token nlohmann curl clock (record { tokens = a.tokens; world = a.world }) in
      (o, record a { tokens = s.tokens; world = s.world })

  -- `performCurlRequest` into an empty buffer; `performAsyncCurlRequest` waits for just that.
  unfoldable pub send : Bytes → Bytes → M Api (Bool × Bytes)
  send url token a =
      let (good, buffer, n) =
        perform_curl_request curl url token [] (record { manager = a.manager; world = a.world }) in
      (ok (good, buffer), record a { manager = n.manager; world = n.world })

  -- The handler of `std::runtime_error` returns from the method.
  caught : Outcome Bytes → Outcome (Option Bytes)
  caught (ok body) = ok (some body)
  caught (throws runtime_error) = ok none
  caught (throws x) = throws x
  caught aborts = aborts
  caught hangs = hangs

  unfoldable pub unzip : Bytes → Outcome (Option Bytes)
  unfolding caught
  unzip body =
      if is_gzip body
      then caught (decompress_gzip zlib (e.rounds body) e.outbuffer body)
      else ok (some body)

  -- A reply on its way to the parser; `none` where the method returns early.
  unfoldable pub read_body : Bytes → Outcome (Option (Bool × Value))
  unfolding unzip
  read_body buffer = and_then (extract_body buffer) λ body.
      and_then (unzip body)
        λ read. ok (elim read [ none ↦ none | some text ↦ some (parse_json_response rapid text) ])

  -- `document["error"]["message"].GetString()`, which is only printed.
  unfoldable pub error_message : Value → Outcome Bytes
  error_message document = and_then (asserted (rapid.member document (txt "error"))) λ error.
      and_then (asserted (rapid.member error (txt "message")))
        λ message. asserted (rapid.get_string message)

  -- The block is the pool's, or a node of the map, whose address a cancellation gave to the pool. Any
  -- other address that the pool hands out is that of a node which was freed since.
  abbrev pub is_block : ℕ → MemoryPool → Bool
  is_block ptr p = not (ltb ptr p.memory) && ltb ptr (p.memory + p.block_count * p.block_size)

  abbrev pub can_hold : ℕ → MemoryPool → List (Entry Json) → Bool
  can_hold ptr p orders = is_block ptr p || lies_at ptr orders

  -- What the placement `new` does to the map.
  abbrev pub construct : ℕ → Json → MemoryPool → List (Entry Json) → List (Entry Json)
  construct ptr x p orders =
      if can_hold ptr p orders then put_at ptr x orders else e.damage ptr orders

  abbrev pub strays : ℕ → MemoryPool → List (Entry Json) → List ℕ → List ℕ
  strays ptr p orders stray = if can_hold ptr p orders then stray else ptr ∷ stray

  -- `if (orderPtr)`: the block holds the order for good, and the map gets a copy.
  record_at : Bytes → Value → Option ℕ × MemoryPool → M Api (Unit {0})
  record_at order_id order (none, p) a = (ok tt, record a { order_pool = p })
  record_at order_id order (some ptr, p) a =
      elim (rapidjson_to_nlohmann rapid nlohmann (e.depth order) order) [
        | ok x ↦
            let (orders', w) = assign new_node order_id x (construct ptr x p a.orders) a.world in
            (
              ok tt,
              record a {
                order_pool = p;
                placed = (ptr, x) ∷ a.placed;
                orders = orders';
                stray = strays ptr p a.orders a.stray;
                world = w;
              },
            )
        | throws x ↦ (throws x, record a { order_pool = p })
        | aborts ↦ (aborts, record a { order_pool = p })
        | hangs ↦ (hangs, record a { order_pool = p })
      ]

  unfoldable pub record_order : Bytes → Value → M Api (Unit {0})
  unfolding record_at
  record_order order_id order a = record_at order_id order (allocate a.order_pool) a

  -- `executeAsyncTask`: the task runs on a worker of the global pool, and the caller waits. No frame
  -- of the worker catches an exception.
  abbrev uncaught {ℓ} : {A : Type ℓ} → Outcome A → Outcome A
  uncaught (ok a) = ok a
  uncaught (throws x) = aborts
  uncaught aborts = aborts
  uncaught hangs = hangs

  unfoldable pub execute_async_task {ℓ} : {A : Type ℓ} → M Api A → M Api A
  execute_async_task task a = let (o, a') = task a in (uncaught o, a')
