-- ===== src/Client/Session.antt =====
-- `WebSocketClient` of websocket_client.cpp: connecting, and the message that it sends once connected.
use deribit_trading_system.Base.{ℕ, Bool, List, [], ◌∷◌, Option, none, some}
use deribit_trading_system.Base.Outcome.{
  Outcome, M, ok, throws, aborts, hangs, pure, raise, ◌>>=◌, ◌>>◌, parse_error, type_error,
}
use deribit_trading_system.Text.{Bytes, txt}
use deribit_trading_system.Json.{Numbers, Nlohmann}

-- websocketpp, the clock, and what else the client uses of nlohmann::json. `assign` is the writing
-- `operator[]` and `dump` the text, none where they throw. `send` tells whether its error code is
-- clear; `get_connection` gives none where its error code is set.
pub record Line {n : Numbers} (j : Nlohmann n) : Type 1 where
  pub World : Type 0
  pub assign : j.Json → Bytes → j.Json → Option j.Json
  pub dump : j.Json → Option Bytes
  pub millis : World → j.Json × World
  pub send : Option ℕ → Bytes → World → Bool × World
  pub get_connection : Bytes → World → Option ℕ × World
  pub connect_to : ℕ → World → World

-- What `run` calls a handler for.
pub data Event : Type 0 where
  opened : ℕ → Event
  closed : ℕ → Event
  arrived : Bytes → Event

module _ {n : Numbers} (j : Nlohmann n) (l : Line j) where
  open l use {World}

  pub record WebSocketClient : Type 0 where
    pub m_hdl : Option ℕ
    pub world : World

  unfoldable pub unless_type_error : {A : Type 0} → Option A → Outcome A
  unless_type_error none = throws type_error
  unless_type_error (some a) = ok a

  unfoldable pub unless_parse_error : Option j.Json → Outcome j.Json
  unless_parse_error none = throws parse_error
  unless_parse_error (some x) = ok x

  abbrev now : M WebSocketClient j.Json
  now c = let (time, w) = l.millis c.world in (ok time, record c { world = w })

  -- A failure is only printed.
  unfoldable pub transmit : Bytes → M WebSocketClient (Unit {0})
  transmit text c = (ok tt, record c { world = (l.send c.m_hdl text c.world).1 })

  unfoldable pub send_message : Bytes → M WebSocketClient (Unit {0})
  unfolding unless_type_error unless_parse_error transmit
  send_message message = do
    current_millis ← now
    msg ← raise (unless_parse_error (j.parse message))
    stamped ← raise (unless_type_error (l.assign msg (txt "client_send_time") current_millis))
    text ← raise (unless_type_error (l.dump stamped))
    transmit text

  -- `{{"symbol", "BTC-PERPETUAL"}}`
  abbrev pub request : j.Json
  request = j.put j.object (txt "symbol") (j.of_string (txt "BTC-PERPETUAL"))

  unfoldable pub on_open : ℕ → M WebSocketClient (Unit {0})
  unfolding send_message unless_type_error
  on_open hdl c =
      (raise (unless_type_error (l.dump request)) >>= send_message) (record c { m_hdl = some hdl })

  -- A message is taken in by a thread of its own, and a closed connection is only logged.
  dispatch : Event → M WebSocketClient (Unit {0})
  unfolding on_open
  dispatch (opened hdl) = on_open hdl
  dispatch (closed hdl) = pure tt
  dispatch (arrived payload) = pure tt

  -- `run`: an exception of a handler leaves it.
  unfoldable pub run : List Event → M WebSocketClient (Unit {0})
  unfolding dispatch
  run [] = pure tt
  run (event ∷ events) = dispatch event >> run events

  unfoldable pub connect : Bytes → List Event → M WebSocketClient (Unit {0})
  unfolding run
  connect uri events c =
      let (con, w) = l.get_connection uri c.world in
      elim con [
        | none ↦ (ok tt, record c { world = w })
        | some con ↦ run events (record c { world = l.connect_to con w })
      ]

  -- The constructor, whose log file is left out.
  abbrev pub init : World → WebSocketClient
  init w = record { m_hdl = none; world = w }

  -- No frame of `main` catches an exception.
  unfoldable pub main : List Event → World → Outcome (Unit {0}) × WebSocketClient
  unfolding connect
  main events w =
      let (o, c) = connect (txt "ws://localhost:9002") events (init w) in
      (elim o [ ok a ↦ ok a | throws x ↦ aborts | aborts ↦ aborts | hangs ↦ hangs ], c)
