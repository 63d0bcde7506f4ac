-- ===== src/Main.antt =====
-- main.cpp: the benchmark, and the start and end of the program. The times and messages that are
-- printed are left out.
pub mod Exits
mod Tests
use deribit_trading_system.Base.{
  ℕ, ◌≡◌, ◌⊎◌, inl, inr, refl, Bool, true, false, [], ◌∷◌, Option, none, some, if◌then◌else◌,
  Bool-cases,
}
use deribit_trading_system.Base.Outcome.{Outcome, M, ok, throws, aborts, hangs, pure, ◌>>=◌}
use deribit_trading_system.Text.{Bytes, txt, is_empty}
use deribit_trading_system.Connection.{destroy}
use deribit_trading_system.Connection
use deribit_trading_system.Token.{TokenManager, Session, get_access_token}
use deribit_trading_system.Token
use deribit_trading_system.Orders.{Env, Api, Json}
use deribit_trading_system.Orders
use deribit_trading_system.Orders.Place.{place_market_order, place_limit_order}
use deribit_trading_system.Orders.Cancel.{cancel_order}
use deribit_trading_system.Orders.Modify.{modify_order}
use deribit_trading_system.Orders.Market.{get_order_book}

module _ (e : Env) (twice : e.numbers.Double → e.numbers.Double) where
  open e use {numbers, nlohmann, curl, clock}

  -- What the calls of the benchmark return.
  pub record Report : Type 0 where
    pub market : Bool
    pub limit : Bool
    pub modified : Bool
    pub book : Json e
    pub cancelled : Bool

  -- One `orderId` is passed through all calls.
  unfoldable pub benchmark : Bytes → numbers.Double → numbers.Double → Bytes → M (Api e) Report
  benchmark instrument quantity price label = do
    (market, first_id) ← place_market_order e instrument quantity label []
    (limit, order_id) ← place_limit_order e instrument quantity price first_id
    modified ← modify_order e order_id (twice price) (twice quantity)
    book ← get_order_book e instrument
    cancelled ← cancel_order e order_id
    pure (record {
      market = market;
      limit = limit;
      modified = modified;
      book = book;
      cancelled = cancelled;
    })

  -- The addresses of the two memory pools, and `sizeof(nlohmann::json)`.
  pub record Layout : Type 0 where
    pub buffers : ℕ
    pub order_blocks : ℕ
    pub json_size : ℕ

  -- The return of `main`, and then the destructor of the connection manager.
  leave : Outcome Report × Api e → Outcome ℕ × curl.World
  leave (ok report, a) = (ok 0, destroy curl a.manager (curl.global_cleanup a.world))
  leave (throws x, a) = (aborts, a.world)
  leave (aborts, a) = (aborts, a.world)
  leave (hangs, a) = (hangs, a.world)

  -- With an access token.
  trade :
      Layout → numbers.Double → numbers.Double → TokenManager → curl.World → Outcome ℕ × curl.World
  unfolding leave
  trade l quantity price tokens w =
      let (manager, w') = Connection.init curl 10 l.buffers w in
      let a = Orders.init e manager tokens l.order_blocks l.json_size w' in
      leave (benchmark (txt "BTC-PERPETUAL") quantity price (txt "market0000234") a)

  with_token :
      Layout
      → numbers.Double
      → numbers.Double
      → Outcome Bytes × Session nlohmann curl clock
      → Outcome ℕ × curl.World
  with_token l quantity price (ok token, s) =
      if is_empty token
      then (ok 1, curl.global_cleanup s.world)
      else trade l quantity price s.tokens s.world
  with_token l quantity price (throws x, s) = (aborts, s.world)
  with_token l quantity price (aborts, s) = (aborts, s.world)
  with_token l quantity price (hangs, s) = (hangs, s.world)

  abbrev pub login : Bytes → Bytes → curl.World → Outcome Bytes × Session nlohmann curl clock
  login id secret w =
      get_access_token nlohmann curl clock (record { tokens = Token.init id secret; world = w })

  -- `main`, given the two environment variables; an exception that leaves it ends the process.
  unfoldable pub run_main :
      Layout
      → numbers.Double
      → numbers.Double
      → Option Bytes
      → Option Bytes
      → curl.World
      → Outcome ℕ × curl.World
  unfolding with_token trade
  run_main l quantity price (some id) (some secret) w =
      let (good, w') = curl.global_init w in
      elim good [ true ↦ with_token l quantity price (login id secret w') | false ↦ (ok 1, w') ]
  run_main l quantity price id secret w = (ok 1, w)
