-- ===== src/Compression/Tests.antt =====
-- `compressString` and `decompressString` over streams that are stored as they are.
use deribit_trading_system.Base.{◌+◌, ◌≡◌, refl, [], length, replicate, arith}
use deribit_trading_system.Base.Outcome.{ok}
use deribit_trading_system.Text.{Bytes, txt}
use deribit_trading_system.Samples.Streams.{stored}
use deribit_trading_system.Compression.{compress_string, decompress_string}
use deribit_trading_system.Compression.Roundtrip.{compress_string-decompress_string}
use deribit_trading_system.Samples.Codec.{stored_codec}

abbrev book : Bytes
book = txt "an order book"

compress_string-decompress_string_example :
    (z : Bytes) × (compress_string stored 30 (replicate 4 0) book ≡ ok z)
    × (decompress_string stored (length z + 1) (replicate 8 0) z ≡ ok book)
compress_string-decompress_string_example =
    compress_string-decompress_string stored stored stored_codec 30 (λ z. length z + 1)
      (replicate 4 0) (replicate 8 0) book (record { rest = []; out = 0 })
      (record { rest = []; out = 0 }) (omega arith) (omega arith) (omega arith) (omega arith) refl
      refl (omega arith) (λ z. omega arith)
