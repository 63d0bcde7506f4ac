-- ===== src/Samples.antt =====
-- Concrete libraries and a scripted world, at which the tests evaluate the definitions.
pub mod Trees
pub mod Kinds
pub mod Streams
pub mod Codec
use deribit_trading_system.Base.{
  ℕ, suc, ◌+◌, Bool, true, false, List, [], ◌∷◌, Option, none, some, replicate,
}
use deribit_trading_system.Text.{Bytes, txt}
use deribit_trading_system.Curl.{Curl, Settings}
use deribit_trading_system.Token.{Clock, TokenManager}
use deribit_trading_system.Orders.{Env}
use Trees.{Tree, plain_numbers, tree_rapid, tree_nlohmann, tree_size}
use Streams.{stored}

-- The replies to come, the clock, and the next fresh address.
pub record Script : Type 0 where
  pub replies : List (Bool × List Bytes)
  pub time : ℕ
  pub next : ℕ

abbrev answer : List (Bool × List Bytes) → Script → Bool × List Bytes × Script
answer [] w = (false, [], w)
answer ((good, pieces) ∷ rest) w = (good, pieces, record w { replies = rest })

abbrev pub script_curl : Curl
script_curl = record {
  World = Script;
  global_init = λ w. (true, w);
  easy_init = λ w. (some w.next, record w { next = w.next + 1 });
  easy_cleanup = λ h w. w;
  global_cleanup = λ w. w;
  perform = λ s w. answer w.replies w;
}

abbrev pub script_clock : Clock script_curl
script_clock = record { now = λ w. (w.time, record w { time = w.time + 1 }); minute = 60 }

abbrev pub sample_env : Env
sample_env = record {
  numbers = plain_numbers;
  rapid = tree_rapid;
  nlohmann = tree_nlohmann;
  curl = script_curl;
  clock = script_clock;
  zlib = stored;
  print_double = λ n. n;
  zero_double = txt "0.000000";
  new_node = λ w. (w.next, record w { next = w.next + 1 });
  damage = λ ptr orders. orders;
  outbuffer = replicate 8 0;
  rounds = λ s. 100;
  depth = λ v. suc (tree_size v);
}
