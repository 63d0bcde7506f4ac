-- ===== src/Server.antt =====
-- `WebSocketServer` of websocket_server.cpp: the subscriptions of the connected clients, and the
-- order books that are sent to them. A connection is a number, and its address the next one; its log
-- file is left out.
pub mod Updates
pub mod Greeting
pub mod Listening
pub mod Handles
mod Tests
mod Examples
use deribit_trading_system.Base.{
  ℕ, Bool, true, false, List, [], ◌∷◌, ◌++◌, Option, none, some, ◌==◌, if◌then◌else◌,
}
use deribit_trading_system.Base.Outcome.{
  Outcome, M, ok, throws, aborts, hangs, and_then, pure, raise, ◌>>=◌, ◌>>◌, type_error,
  connection_error,
}
use deribit_trading_system.Text.{Bytes, txt}
use Handles.{lock}
use deribit_trading_system.Json.{Numbers, Nlohmann}
use deribit_trading_system.Gzip.{Zlib}
use deribit_trading_system.Compression.{compress_string}
use deribit_trading_system.Curl.{Curl, Settings, timeout, writedata, writefunction, url, deliver}

-- nlohmann::json, libcurl, zlib, websocketpp and the clock, as the server uses them. `index` and
-- `assign` are `operator[]`, read and written: none where it throws a type error; a missing key reads
-- as null. `send` tells whether it returned or threw. `millis` is a time in milliseconds as JSON.
pub record Env : Type 1 where
  pub numbers : Numbers
  pub nlohmann : Nlohmann numbers
  pub curl : Curl
  pub deflater : Zlib
  pub index : nlohmann.Json → Bytes → Option nlohmann.Json
  pub assign : nlohmann.Json → Bytes → nlohmann.Json → Option nlohmann.Json
  pub is_null : nlohmann.Json → Bool
  pub empty : nlohmann.Json → Bool
  pub has_int64 : nlohmann.Json → Bool
  pub dump : nlohmann.Json → Option Bytes
  pub millis : curl.World → nlohmann.Json × curl.World
  pub send : ℕ → Bytes → curl.World → Bool × curl.World
  pub outbuffer : Bytes
  pub rounds : Bytes → ℕ

-- The entry of a key lies under the address that it locked to when it was entered: 0 where the
-- connection was gone then. Where it is gone since, no lookup hashes to that address any more.
abbrev pub Subscriptions : Type 0
Subscriptions = ℕ → Option Bytes

unfoldable pub subscribe : ℕ → Bytes → Subscriptions → Subscriptions
subscribe key symbol subscriptions k = if k == key then some symbol else subscriptions k

unfoldable pub unsubscribe : ℕ → Subscriptions → Subscriptions
unsubscribe key subscriptions k = if k == key then none else subscriptions k

unfoldable pub count : ℕ → Subscriptions → Bool
count key subscriptions = elim (subscriptions key) [ none ↦ false | some symbol ↦ true ]

unfoldable pub on_open : ℕ → Subscriptions → Subscriptions
on_open key = subscribe key []

unfoldable pub on_close : ℕ → Subscriptions → Subscriptions
on_close key = unsubscribe key

-- What the threads share: the subscriptions, and which connections are still there.
abbrev pub Shared : Type 0
Shared = Subscriptions × (ℕ → Bool)

abbrev pub book_url : Bytes → Bytes
book_url symbol =
    txt "https://test.deribit.com/api/v2/public/get_order_book?instrument_name=" ++ symbol

module _ (e : Env) where
  open e use {nlohmann, curl, deflater, index, is_null}

  -- The server, with the world that it runs in.
  pub record WebSocketServer : Type 0 where
    pub subscriptions : Subscriptions
    pub alive : ℕ → Bool
    pub world : curl.World

  abbrev pub Json : Type 0
  Json = nlohmann.Json

  -- The options on the handle, the last one first.
  abbrev pub book_settings : Bytes → Settings
  book_settings u = timeout 10 ∷ writedata ∷ writefunction ∷ url u ∷ []

  -- The transfer: none where the function returns at once.
  unfoldable pub read_book : Bytes → Option ℕ × curl.World → Option Bytes × curl.World
  read_book symbol (none, w) = (some [], w)
  read_book symbol (some handle, w) =
      let (good, pieces, w') = curl.perform (book_settings (book_url symbol)) w in
      let w'' = curl.easy_cleanup handle w' in
      elim good [ true ↦ (some (deliver pieces []), w'') | false ↦ (none, w'') ]

  or_type_error : Option Json → Outcome Json
  or_type_error none = throws type_error
  or_type_error (some x) = ok x

  -- `orderBook["result"]`, with its latency, or null.
  with_latency : Json → Json → Outcome Json
  unfolding or_type_error
  with_latency latency result =
      if is_null result
      then ok nlohmann.null
      else or_type_error (e.assign result (txt "processing_latency_ms") latency)

  unfoldable pub parse_book : Json → Option Bytes → Outcome Json
  unfolding with_latency or_type_error
  parse_book latency none = ok nlohmann.null
  parse_book latency (some read_buffer) = elim (nlohmann.parse read_buffer) [
    | none ↦ ok nlohmann.null
    | some order_book ↦
        and_then (or_type_error (index order_book (txt "result"))) (with_latency latency)
  ]

  -- `getOrderBook`.
  unfoldable pub get_order_book : Bytes → M WebSocketServer Json
  get_order_book symbol s =
      let (read_buffer, w) = read_book symbol (curl.easy_init s.world) in
      let (latency, w') = e.millis w in (parse_book latency read_buffer, record s { world = w' })

  -- `m_server.send(hdl, compressString(orderBookData.dump()), ...)`
  unfoldable pub send_book : ℕ → Json → M WebSocketServer (Unit {0})
  send_book hdl book s = elim (e.dump book) [
    | none ↦ (throws type_error, s)
    | some text ↦ elim (compress_string deflater (e.rounds text) e.outbuffer text) [
      | ok frame ↦
          let (sent, w) = e.send hdl frame s.world in
          (if sent then ok tt else throws connection_error, record s { world = w })
      | throws x ↦ (throws x, s)
      | aborts ↦ (aborts, s)
      | hangs ↦ (hangs, s)
    ]
  ]

  -- The server stamps the order book with the time.
  unfoldable stamped : Json → M WebSocketServer Json
  unfolding or_type_error
  stamped book s =
      let (now, w) = e.millis s.world in
      (or_type_error (e.assign book (txt "server_send_time") now), record s { world = w })

  -- The body of the loop of `send_order_book_updates` after the sleep.
  unfoldable pub update : ℕ → Bytes → M WebSocketServer (Unit {0})
  unfolding stamped
  update hdl symbol = get_order_book symbol >>= λ book.
      if e.empty book then pure tt else (stamped book >>= send_book hdl)

  abbrev pub interfere : (Shared → Shared) → WebSocketServer → WebSocketServer
  interfere others s =
      let (subscriptions, alive) = others (s.subscriptions, s.alive) in
      record s { subscriptions = subscriptions; alive = alive }

  abbrev pub is_counted : ℕ → WebSocketServer → Bool
  is_counted hdl s = count (lock s.alive hdl) s.subscriptions

  -- `send_order_book_updates`, with what the other threads do before each test of the loop: since the
  -- last one, while the thread slept, fetched and sent, which does not look at what they share.
  unfoldable pub send_order_book_updates :
      List (Shared → Shared) → ℕ → Bytes → M WebSocketServer (Unit {0})
  send_order_book_updates [] hdl symbol s = (hangs, s)
  send_order_book_updates (others ∷ rest) hdl symbol s =
      if is_counted hdl (interfere others s)
      then (update hdl symbol >> send_order_book_updates rest hdl symbol) (interfere others s)
      else (ok tt, interfere others s)

  -- No frame of the thread catches an exception.
  abbrev pub uncaught : Outcome (Unit {0}) → Outcome (Unit {0})
  uncaught (ok a) = ok a
  uncaught (throws x) = aborts
  uncaught aborts = aborts
  uncaught hangs = hangs

  -- What the client's symbol leads to.
  unfoldable pub serve : List (Shared → Shared) → ℕ → Option Bytes → M WebSocketServer (Unit {0})
  serve schedule hdl none s = (throws type_error, s)
  serve schedule hdl (some symbol) s =
      (get_order_book symbol >>= λ book.
      (if e.empty book then pure tt else send_book hdl book)
      >> send_order_book_updates schedule hdl symbol)
        (record s { subscriptions = subscribe (lock s.alive hdl) symbol s.subscriptions })

  -- `request["symbol"]` as a string.
  symbol_of : Json → Option Bytes
  symbol_of request = elim (index request (txt "symbol")) [
    | none ↦ none
    | some symbol ↦ nlohmann.to_string symbol
  ]

  -- A "client_send_time" is only logged, but it must be a number.
  bad_time : Json → Bool
  bad_time request = elim (index request (txt "client_send_time")) [
    | none ↦ true
    | some time ↦ if e.has_int64 time then false else true
  ]

  handle : List (Shared → Shared) → ℕ → Json → M WebSocketServer (Unit {0})
  unfolding symbol_of bad_time
  handle schedule hdl request =
      let wrong = bad_time request in
      if nlohmann.contains request (txt "client_send_time")
      then if wrong
        then raise (throws type_error)
        else if nlohmann.contains request (txt "symbol")
        then serve schedule hdl (symbol_of request)
        else pure tt
      else if nlohmann.contains request (txt "symbol")
      then serve schedule hdl (symbol_of request)
      else pure tt

  -- The thread that `on_message` starts. A discarded payload contains nothing.
  unfoldable pub on_message : List (Shared → Shared) → ℕ → Bytes → M WebSocketServer (Unit {0})
  unfolding handle
  on_message schedule hdl payload s = elim (nlohmann.parse payload) [
    | none ↦ (ok tt, s)
    | some request ↦ let (o, s') = handle schedule hdl request s in (uncaught o, s')
  ]
