-- ===== src/Client/Examples.antt =====
-- An order book on its way from a server to the console of a client.
use deribit_trading_system.Base.{
  ℕ, ◌+◌, ◌≡◌, refl, true, false, [], ◌++◌, none, some, if◌then◌else◌, replicate, length, arith,
}
use deribit_trading_system.Base.Outcome.{ok}
use deribit_trading_system.Text.{Bytes, txt, beq}
use deribit_trading_system.Curl.{Curl}
use deribit_trading_system.Samples.Trees.{number, plain_numbers, tree_nlohmann}
use deribit_trading_system.Samples.Streams.{stored}
use deribit_trading_system.Samples.Codec.{stored_codec}
use deribit_trading_system.Server.{send_book}
use deribit_trading_system.Server
use deribit_trading_system.Client.{Env, logged, on_message}
use deribit_trading_system.Client.Tests.{sample, entry, book, asks, bids}
use deribit_trading_system.Client.Delivery.{IsShown, printed, send_book-rows}

abbrev silent : Curl
silent = record {
  World = ℕ;
  global_init = λ w. (true, w);
  easy_init = λ w. (some w, w + 1);
  easy_cleanup = λ h w. w;
  global_cleanup = λ w. w;
  perform = λ s w. (true, [], w);
}

-- A server whose books are written as one text.
abbrev sender : Server.Env
sender = record {
  numbers = plain_numbers;
  nlohmann = tree_nlohmann;
  curl = silent;
  deflater = stored;
  index = λ j k. some j;
  assign = λ j k x. some j;
  is_null = λ j. false;
  empty = λ j. false;
  has_int64 = λ j. true;
  dump = λ j. some (txt "book");
  millis = λ w. (number (txt "1"), w);
  send = λ h s w. (true, w);
  outbuffer = replicate 4 0;
  rounds = λ s. length s + 1;
}

-- A client that reads that text.
abbrev reader : Env
reader = record sample {
  nlohmann = record tree_nlohmann { parse = λ s. if beq s (txt "book") then some book else none };
}

abbrev shown : IsShown reader (entry 0) (entry 1) book asks bids
unfolding logged beq
shown = record {
  sent_at = refl;
  latency = refl;
  asks_are = refl;
  bids_are = refl;
  asks_quoted = ((refl, refl), ((refl, refl), tt));
  bids_quoted = ((refl, refl), tt);
}

abbrev serving : Server.WebSocketServer sender
serving = record { subscriptions = λ key. none; alive = λ h. true; world = 1 }

send_book-rows_example :
    (frame : Bytes) × (send_book sender 3 book serving ≡ (ok tt, serving))
    × (on_message reader frame [] ≡ (ok tt, [] ++ printed reader (entry 0) (entry 1) asks bids))
unfolding beq
send_book-rows_example =
    send_book-rows reader (entry 0) (entry 1) sender stored_codec 3 book serving (txt "book")
      (record { rest = []; out = 0 }) (record { rest = []; out = 0 }) book asks bids [] refl
      (omega arith) (omega arith) (omega arith) (omega arith) refl refl (omega arith)
      (λ z. omega arith) refl shown
