-- ===== src/Client/Delivery.antt =====
-- An order book on its way from websocket_server.cpp to the console of websocket_client.cpp.
use deribit_trading_system.Base.{
  ℕ, ◌<◌, ◌^◌, ◌≡◌, refl, List, ◌++◌, some, map, All, length, if◌then◌else◌,
}
use deribit_trading_system.Base.Outcome.{ok, throws, connection_error}
use deribit_trading_system.Text.{Bytes, txt}
use deribit_trading_system.Compression.{decompress_string}
use deribit_trading_system.Compression.Roundtrip.{IsCodec, compress_string-decompress_string}
use deribit_trading_system.Server.{WebSocketServer, send_book}
use deribit_trading_system.Server
use deribit_trading_system.Client.{Env, Json, Row, logged, show, on_message}
use deribit_trading_system.Client.Display.{row, IsQuoted, display_order_book-rows}

module _ (e : Env) (price amount : Json e → Json e) where
  -- A book that the client can print: its times are numbers, where they are there, and each level has
  -- a price and an amount.
  pub record IsShown (book asks bids : Json e) : Type 0 where
    pub sent_at : logged e (txt "server_send_time") book ≡ ok tt
    pub latency : logged e (txt "processing_latency_ms") book ≡ ok tt
    pub asks_are : e.field book (txt "asks") ≡ ok asks
    pub bids_are : e.field book (txt "bids") ≡ ok bids
    pub asks_quoted : All (IsQuoted e price amount) (e.elements asks)
    pub bids_quoted : All (IsQuoted e price amount) (e.elements bids)

  abbrev pub printed : Json e → Json e → List (Row e)
  printed asks bids =
      map (row e price amount (txt "Sell")) (e.elements asks)
      ++ map (row e price amount (txt "Buy")) (e.elements bids)

  pub on_message-rows :
      (payload text : Bytes) (book asks bids : Json e) (rows : List (Row e))
      → decompress_string e.inflater (e.rounds payload) e.outbuffer payload ≡ ok text
      → e.nlohmann.parse text ≡ some book
      → IsShown book asks bids
      → on_message e payload rows ≡ (ok tt, rows ++ printed asks bids)
  unfolding on_message show
  on_message-rows payload text book asks bids rows h h' s =
      let shown : show e (some book) rows ≡ (ok tt, rows ++ printed asks bids) =
        rw (s.sent_at, s.latency, show)
          (display_order_book-rows e price amount book asks bids rows s.asks_are s.bids_are
            s.asks_quoted s.bids_quoted) in
      rw (h, on_message) (rw h' (rw shown refl))

  module _ (server : Server.Env) (codec : IsCodec server.deflater e.inflater) where
    -- An order book that the server can write goes out to the connection in one frame, and the client
    -- that takes this frame in prints its asks and then its bids, one row each, where it reads the text
    -- of the book as one that can be printed, the buffers and rounds of both sides are enough, and the
    -- text and the bound on what it is compressed to are below 2^32.
    pub send_book-rows :
        (hdl : ℕ) (sent : Server.Json server) (s : WebSocketServer server) (text : Bytes)
        (zs : server.deflater.Stream) (zs' : e.inflater.Stream) (book asks bids : Json e)
        (rows : List (Row e))
        → server.dump sent ≡ some text
        → length text < 2 ^ 32
        → codec.bound (length text) < 2 ^ 32
        → 0 < length server.outbuffer
        → 0 < length e.outbuffer
        → server.deflater.init ≡ some zs
        → e.inflater.init ≡ some zs'
        → codec.deflates.pending (server.deflater.feed zs text) < server.rounds text
        → ((z : Bytes) → codec.inflates.pending (e.inflater.feed zs' z) < e.rounds z)
        → e.nlohmann.parse text ≡ some book
        → IsShown book asks bids
        → (frame : Bytes) × (send_book server hdl sent s ≡ (
          if (server.send hdl frame s.world).0 then ok tt else throws connection_error,
          record s { world = (server.send hdl frame s.world).1 },
        ))
          × (on_message e frame rows ≡ (ok tt, rows ++ printed asks bids))
    unfolding send_book
    send_book-rows hdl sent s text zs zs' book asks bids rows d small packed room room' start start'
          enough enough' parses shown =
        let (frame, packs, unpacks) =
          compress_string-decompress_string server.deflater e.inflater codec (server.rounds text)
            e.rounds server.outbuffer e.outbuffer text zs zs' small packed room room' start start'
            enough enough' in
        (
          frame,
          rw (d, send_book) (rw packs refl),
          on_message-rows frame text book asks bids rows unpacks parses shown,
        )
