-- ===== src/Server/Examples.antt =====
-- The client of websocket_client.cpp and the server of websocket_server.cpp over a JSON library that
-- knows the two texts of the client.
use deribit_trading_system.Base.{ℕ, ◌+◌, ◌≡◌, refl, true, [], Option, none, some, if◌then◌else◌}
use deribit_trading_system.Base.Outcome.{ok}
use deribit_trading_system.Text.{Bytes, txt, beq}
use deribit_trading_system.Text.Search.{beq_refl}
use deribit_trading_system.Samples.Trees.{Tree, dict, field, end, text, number, tree_nlohmann}
use deribit_trading_system.Client.Session.{Line, WebSocketClient, on_open}
use deribit_trading_system.Server.{Env, WebSocketServer, on_message, serve, uncaught}
use deribit_trading_system.Server.Greeting.{IsLawful, on_open-serve}
use deribit_trading_system.Server.Tests.{quiet, no_one}

-- The sample JSON library with the two texts of the client, and `operator[]` of an object.
abbrev its_request : Tree
its_request = dict (field (txt "symbol") (text (txt "BTC-PERPETUAL")) end)

abbrev its_message : Tree
its_message = dict (
    field (txt "client_send_time") (number (txt "1"))
      (field (txt "symbol") (text (txt "BTC-PERPETUAL")) end))

abbrev parse_two : Bytes → Option Tree
parse_two s =
    if beq s (txt "request")
    then some its_request
    else if beq s (txt "message")
    then some its_message
    else none

abbrev dump_two : Tree → Option Bytes
dump_two (dict (field k t end)) = some (txt "request")
dump_two (dict (field k t (field k' t' fs))) = some (txt "message")
dump_two t = none

abbrev two_texts : Env
two_texts = record quiet {
  nlohmann = record tree_nlohmann { parse = parse_two };
  index = tree_nlohmann.at;
}

abbrev line : Line two_texts.nlohmann
line = record {
  World = ℕ;
  assign = λ o k x. some (tree_nlohmann.put o k x);
  dump = dump_two;
  millis = λ w. (number (txt "1"), w);
  send = λ h s w. (true, w + 1);
  get_connection = λ u w. (some 3, w);
  connect_to = λ h w. w;
}

request_back : (t : Bytes) → some (txt "request") ≡ some t → parse_two t ≡ some its_request
unfolding beq
request_back t h = let q : txt "request" ≡ t = cc in rw (← q) refl

message_back : (t : Bytes) → some (txt "message") ≡ some t → parse_two t ≡ some its_message
unfolding beq
message_back t h = let q : txt "message" ≡ t = cc in rw (← q) refl

abbrev line_law : IsLawful two_texts line
unfolding beq
line_law = record {
  assigned = λ k k' v w. refl;
  members = λ k k' v w h. rw (h, beq_refl k, beq_refl k') (refl, refl, refl, refl);
  string = λ s. refl;
  request_parses = request_back;
  stamped_parses = λ t w. message_back t;
  time_is_int64 = λ w. refl;
}

abbrev dialled : WebSocketClient two_texts.nlohmann line
dialled = record { m_hdl = none; world = 7 }

abbrev idle : WebSocketServer two_texts
idle = record { subscriptions = no_one; alive = λ h. true; world = 1 }

on_open-serve_example :
    (on_open two_texts.nlohmann line 3 dialled ≡ (ok tt, record { m_hdl = some 3; world = 8 }))
    × (on_message two_texts [] 5 (txt "message") idle ≡ (
        let (o, s') = serve two_texts [] 5 (some (txt "BTC-PERPETUAL")) idle in
        (uncaught two_texts o, s')))
on_open-serve_example =
    on_open-serve two_texts line line_law 3 5 dialled (txt "request") (txt "message") [] idle refl
      refl
