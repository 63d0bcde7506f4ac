-- ===== src/Curl.antt =====
-- libcurl as the sources use it: a parameter. The options that they set on an easy handle are kept
-- as the list of those calls, the last call first, and handed to each transfer.
pub mod Callback
mod Tests
use deribit_trading_system.Base.{
  ℕ, zero, suc, ◌*◌, ◌%◌, ◌^◌, Bool, List, [], ◌∷◌, ◌++◌, Option, none, some, length, take,
}
use deribit_trading_system.Text.{Bytes}

-- One constructor for each CURLOPT that the sources set, with its value.
pub data Setting : Type 0 where
  verbose tcp_nodelay timeout_ms connecttimeout_ms followlocation maxredirs : ℕ → Setting
  dns_cache_timeout pipewait ssl_verifypeer forbid_reuse http_version timeout : ℕ → Setting
  expect_100_timeout_ms headeropt header : ℕ → Setting
  url accept_encoding : Bytes → Setting
  httpheader : List Bytes → Setting
  writefunction writedata : Setting

abbrev pub Settings : Type 0
Settings = List Setting

-- A handle is the number of its pointer. `World` is what lies outside the program: the network,
-- the clock, and libcurl's own state. A transfer tells whether it returned CURLE_OK, and which
-- pieces of the reply it passed to the write callback on the way.
pub record Curl : Type 1 where
  pub World : Type 0
  pub global_init : World → Bool × World
  pub easy_init : World → Option ℕ × World
  pub easy_cleanup : ℕ → World → World
  pub global_cleanup : World → World
  pub perform : Settings → World → Bool × List Bytes × World

-- `WriteCallback` of utils.cpp: appends `size * nmemb` bytes and returns that product.
unfoldable pub write_callback : Bytes → ℕ → ℕ → Bytes → ℕ × Bytes
write_callback contents size nmemb userp =
    let total_size = (size * nmemb) % 2 ^ 64 in (total_size, userp ++ take total_size contents)

-- libcurl calls it with size 1.
unfoldable pub deliver : List Bytes → Bytes → Bytes
unfolding write_callback
deliver [] response = response
deliver (piece ∷ pieces) response =
    deliver pieces (write_callback piece 1 (length piece) response).1
