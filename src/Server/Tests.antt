-- ===== src/Server/Tests.antt =====
-- `WebSocketServer` of websocket_server.cpp with one client and a scripted exchange.
use deribit_trading_system.Base.{
  ℕ, ◌+◌, ◌≡◌, true, false, List, [], ◌∷◌, none, some, replicate, length,
}
use deribit_trading_system.Text.{txt}
use deribit_trading_system.Curl.{Curl}
use deribit_trading_system.Samples.Trees.{number, plain_numbers, tree_nlohmann}
use deribit_trading_system.Samples.Streams.{stored}
use deribit_trading_system.Server.{Env, Subscriptions, Shared, count, on_open, WebSocketServer}
use deribit_trading_system.Server.Listening.{
  Event, opened, closed, expired, arrived, subscribed, main, main-entered,
}
use deribit_trading_system.Server.Updates.{close}

-- An exchange that sends the same reply each time, and whose order books count as empty.
abbrev same_reply : Curl
same_reply = record {
  World = ℕ;
  global_init = λ w. (true, w);
  easy_init = λ w. (some w, w + 1);
  easy_cleanup = λ h w. w;
  global_cleanup = λ w. w;
  perform = λ s w. (true, txt "list" ∷ [], w);
}

abbrev pub quiet : Env
quiet = record {
  numbers = plain_numbers;
  nlohmann = tree_nlohmann;
  curl = same_reply;
  deflater = stored;
  index = λ j k. some j;
  assign = λ j k x. some j;
  is_null = λ j. false;
  empty = λ j. true;
  has_int64 = λ j. true;
  dump = λ j. some (txt "book");
  millis = λ w. (number (txt "1"), w);
  send = λ h s w. (true, w);
  outbuffer = replicate 8 0;
  rounds = λ s. length s + 1;
}

abbrev pub no_one : Subscriptions
no_one k = none

abbrev connected : WebSocketServer quiet
connected = record { subscriptions = on_open 4 no_one; alive = λ h. true; world = 1 }

-- Before the connection closes, another one opens.
abbrev closing : Shared → Shared
closing (subscriptions, alive) = close 3 (on_open 8 subscriptions, alive)

-- The thread of a message writes the subscription after its connection has gone. Handle 4, which is
-- gone then, has the same key.
abbrev late : List Event
late =
    opened 3
    ∷ opened 4
    ∷ arrived 3 (txt "m")
    ∷ closed 3
    ∷ expired 3
    ∷ subscribed 3 (txt "ETH")
    ∷ closed 4
    ∷ expired 4
    ∷ []

main-entered_example :
    count 0 (main (some (txt "id")) (some (txt "secret")) late).1.subscriptions ≡ true
main-entered_example = main-entered (txt "id") (txt "secret") late 0
