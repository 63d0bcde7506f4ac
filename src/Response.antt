-- ===== src/Response.antt =====
-- What `placeOrder`, `cancelOrderRequest`, `modifyOrder` and `getOrderBookData` of
-- order_management.cpp do with the bytes of a reply before they are parsed: the header is cut off
-- (the handles are set up with CURLOPT_HEADER), and a gzipped body is recognised.
pub mod Body
mod Tests
use deribit_trading_system.Base.{
  ℕ, ◌+◌, ◌%◌, ◌^◌, Bool, false, ◌&&◌, List, [], ◌∷◌, Option, none, some, ltb, ◌==◌, length,
}
use deribit_trading_system.Base.Outcome.{Outcome, ok}
use deribit_trading_system.Text.{Bytes, find, position, substr}

-- "\r\n\r\n"
abbrev pub separator : Bytes
separator = 13 ∷ 10 ∷ 13 ∷ 10 ∷ []

-- `readBuffer.substr(readBuffer.find("\r\n\r\n") + 4)`, with the sum of `size_t`.
unfoldable pub extract_body : Bytes → Outcome Bytes
extract_body reply = substr reply ((position (find reply separator) + 4) % 2 ^ 64)

strip_at : Bytes → Option ℕ → Outcome Bytes
strip_at reply none = ok reply
strip_at reply (some i) = substr reply ((i + 4) % 2 ^ 64)

-- The order book tests for `npos` first.
unfoldable pub strip_headers : Bytes → Outcome Bytes
unfolding strip_at
strip_headers reply = strip_at reply (find reply separator)

-- `body.size() > 2 && body[0] == '\x1f' && body[1] == '\x8b'`
unfoldable pub is_gzip : Bytes → Bool
is_gzip (a ∷ b ∷ c ∷ rest) = a == 0x1f && b == 0x8b
is_gzip _ = false
