-- ===== src/Client.antt =====
-- `WebSocketClient` of websocket_client.cpp: the messages that it takes in and what it prints.
pub mod Display
pub mod Session
pub mod Delivery
mod Tests
mod Examples
use deribit_trading_system.Base.{
  ℕ, Bool, true, false, List, [], ◌∷◌, ◌++◌, Option, none, some, if◌then◌else◌,
}
use deribit_trading_system.Base.Outcome.{
  Outcome, M, ok, throws, aborts, hangs, pure, raise, ◌>>=◌, ◌>>◌, type_error,
}
use deribit_trading_system.Text.{Bytes, txt}
use deribit_trading_system.Json.{Numbers, Nlohmann}
use deribit_trading_system.Gzip.{Zlib}
use deribit_trading_system.Compression.{decompress_string}

-- nlohmann::json and zlib as the client uses them. `field` and `item` are `operator[]` of a constant
-- value, with what they do where the key or the index is missing; `elements` is what a range `for`
-- goes through; `has_int64` tells whether `get<int64_t>` returns.
pub record Env : Type 1 where
  pub numbers : Numbers
  pub nlohmann : Nlohmann numbers
  pub inflater : Zlib
  pub field : nlohmann.Json → Bytes → Outcome nlohmann.Json
  pub item : nlohmann.Json → ℕ → Outcome nlohmann.Json
  pub elements : nlohmann.Json → List nlohmann.Json
  pub has_int64 : nlohmann.Json → Bool
  pub outbuffer : Bytes
  pub rounds : Bytes → ℕ

module _ (e : Env) where
  open e use {nlohmann, field, item}

  abbrev pub Json : Type 0
  Json = nlohmann.Json

  -- A line of the printed order book: price, amount and side.
  pub record Row : Type 0 where
    pub price : Json
    pub amount : Json
    pub side : Bytes

  -- The loop over the asks, or the bids.
  unfoldable pub display_side : Bytes → List Json → M (List Row) (Unit {0})
  display_side side [] = pure tt
  display_side side (level ∷ levels) = do
    price ← raise (item level 0)
    amount ← raise (item level 1)
    (λ rows. (ok tt, rows ++ (record { price = price; amount = amount; side = side } ∷ [])))
        >> display_side side levels

  -- `displayOrderBook`.
  unfoldable pub display_order_book : Json → M (List Row) (Unit {0})
  display_order_book order_book_data = do
    asks ← raise (field order_book_data (txt "asks"))
    display_side (txt "Sell") (e.elements asks)
    bids ← raise (field order_book_data (txt "bids"))
    display_side (txt "Buy") (e.elements bids)

  -- A time that is there is logged, and must be a number.
  pub logged : Bytes → Json → Outcome (Unit {0})
  logged key order_book_data =
      if nlohmann.contains order_book_data key
      then elim (field order_book_data key) [
        | ok time ↦ if e.has_int64 time then ok tt else throws type_error
        | throws x ↦ throws x
        | aborts ↦ aborts
        | hangs ↦ hangs
      ]
      else ok tt

  -- A discarded value contains nothing and has no fields.
  show : Option Json → M (List Row) (Unit {0})
  unfolding logged
  show none = raise (throws type_error)
  show (some order_book_data) = do
    raise (logged (txt "server_send_time") order_book_data)
    raise (logged (txt "processing_latency_ms") order_book_data)
    display_order_book order_book_data

  -- The handler of `std::exception` logs it.
  abbrev pub caught : Outcome (Unit {0}) → Outcome (Unit {0})
  caught (throws x) = ok tt
  caught o = o

  -- The thread that `on_message` starts.
  unfoldable pub on_message : Bytes → M (List Row) (Unit {0})
  unfolding show
  on_message payload rows =
      let (o, rows') =
        (raise (decompress_string e.inflater (e.rounds payload) e.outbuffer payload) >>= λ text.
        show (nlohmann.parse text))
          rows in
      (caught o, rows')
