-- ===== src/Compression.antt =====
-- `compressString` of websocket_server.cpp and `decompressString` of websocket_client.cpp: the order
-- book goes from the server to its clients in the zlib format.
pub mod Roundtrip
mod Tests
use deribit_trading_system.Base.{ℕ, ◌%◌, ◌^◌, [], none, some, take, length}
use deribit_trading_system.Base.Outcome.{Outcome, throws, runtime_error}
use deribit_trading_system.Text.{Bytes}
use deribit_trading_system.Gzip.{Zlib, pump, finish}

-- `avail_in` has 32 bits, and `str.size()` is cut to them.
unfoldable pub avail_in : Bytes → Bytes
avail_in str = take (length str % 2 ^ 32) str

-- `deflateInit`, `deflate` with Z_FINISH and `deflateEnd` take the places of the calls for inflating.
unfoldable pub compress_string : Zlib → ℕ → Bytes → Bytes → Outcome Bytes
compress_string deflater fuel outbuffer str = elim deflater.init [
  | none ↦ throws runtime_error
  | some zs ↦ finish deflater (pump deflater fuel (deflater.feed zs (avail_in str)) outbuffer [])
]

-- `inflateInit` starts the stream.
unfoldable pub decompress_string : Zlib → ℕ → Bytes → Bytes → Outcome Bytes
decompress_string inflater fuel outbuffer str = elim inflater.init [
  | none ↦ throws runtime_error
  | some zs ↦ finish inflater (pump inflater fuel (inflater.feed zs (avail_in str)) outbuffer [])
]
