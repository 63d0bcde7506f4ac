-- ===== src/Server/Greeting.antt =====
-- What websocket_server.cpp makes of the message that websocket_client.cpp sends once connected.
use deribit_trading_system.Base.{ℕ, ◌≡◌, refl, true, false, List, some}
use deribit_trading_system.Base.Outcome.{ok}
use deribit_trading_system.Text.{Bytes, txt, beq}
use deribit_trading_system.Client.Session.{
  Line, WebSocketClient, on_open, send_message, request, unless_type_error, unless_parse_error,
  transmit,
}
use deribit_trading_system.Server.{
  Env, Shared, WebSocketServer, serve, symbol_of, bad_time, handle, on_message, uncaught,
}

module _ (e : Env) (l : Line e.nlohmann) where
  open e use {nlohmann, index}

  -- An object of two members.
  abbrev pub pair : Bytes → nlohmann.Json → Bytes → nlohmann.Json → nlohmann.Json
  pair k v k' w = nlohmann.put (nlohmann.put nlohmann.object k v) k' w

  -- The message that the client sends, at a time.
  abbrev pub greeting : nlohmann.Json → nlohmann.Json
  greeting time =
      pair (txt "symbol") (nlohmann.of_string (txt "BTC-PERPETUAL")) (txt "client_send_time") time

  -- The documented behaviour of nlohmann::json: `operator[]` adds a member to an object, both members
  -- of an object of two are found under their keys, what `dump` writes of the two texts of the client
  -- parses to them, and the time in milliseconds is a number.
  pub record IsLawful : Type 0 where
    pub assigned :
        (k k' : Bytes) (v w : nlohmann.Json)
        → l.assign (nlohmann.put nlohmann.object k v) k' w ≡ some (pair k v k' w)
    pub members :
        (k k' : Bytes) (v w : nlohmann.Json)
        → beq k' k ≡ false
        → (nlohmann.contains (pair k v k' w) k ≡ true)
          × (nlohmann.contains (pair k v k' w) k' ≡ true)
          × (index (pair k v k' w) k ≡ some v)
          × (index (pair k v k' w) k' ≡ some w)
    pub string : (s : Bytes) → nlohmann.to_string (nlohmann.of_string s) ≡ some s
    pub request_parses :
        (text : Bytes)
        → l.dump (request nlohmann l) ≡ some text
        → nlohmann.parse text ≡ some (request nlohmann l)
    pub stamped_parses :
        (text : Bytes) (w : l.World)
        → l.dump (greeting (l.millis w).0) ≡ some text
        → nlohmann.parse text ≡ some (greeting (l.millis w).0)
    pub time_is_int64 : (w : l.World) → e.has_int64 (l.millis w).0 ≡ true

  -- The client, once connected, sends one message on that connection, and what the server does with it is
  -- to serve the symbol BTC-PERPETUAL, where both texts of the message can be written.
  pub on_open-serve :
      (law : IsLawful) (hdl hdl' : ℕ) (c : WebSocketClient nlohmann l) (text text' : Bytes)
      (schedule : List (Shared → Shared)) (s : WebSocketServer e)
      → l.dump (request nlohmann l) ≡ some text
      → l.dump (greeting (l.millis c.world).0) ≡ some text'
      → (on_open nlohmann l hdl c ≡ (
        ok tt,
        record { m_hdl = some hdl; world = (l.send (some hdl) text' (l.millis c.world).1).1 },
      ))
        × (on_message e schedule hdl' text' s ≡ (
            let (o, s') = serve e schedule hdl' (some (txt "BTC-PERPETUAL")) s in
            (uncaught e o, s')))
  unfolding on_open send_message on_message handle symbol_of bad_time unless_type_error
      unless_parse_error transmit beq
  on_open-serve law hdl hdl' c text text' schedule s h h' =
      let (there, there', symbol, time) =
        law.members (txt "symbol") (txt "client_send_time")
          (nlohmann.of_string (txt "BTC-PERPETUAL")) (l.millis c.world).0 refl in
      let bad : bad_time e (greeting (l.millis c.world).0) ≡ false =
        rw (time, bad_time) (rw (law.time_is_int64 c.world) refl) in
      let named : symbol_of e (greeting (l.millis c.world).0) ≡ some (txt "BTC-PERPETUAL") =
        rw (symbol, symbol_of) (law.string (txt "BTC-PERPETUAL")) in
      (
        rw
            (
              h,
              law.request_parses text h,
              law.assigned (txt "symbol") (txt "client_send_time") _ _,
              h',
            )
            refl,
        rw (law.stamped_parses text' c.world h', on_message)
            (rw (bad, named, there, there', handle) refl),
      )
