-- ===== src/Gzip/Tests.antt =====
-- `decompressGzip` of order_management.cpp over a zlib of stored streams, with a buffer of 8 bytes.
use deribit_trading_system.Base.{◌≡◌, ◌⊎◌, refl, [], replicate, arith}
use deribit_trading_system.Base.Outcome.{ok, throws, runtime_error}
use deribit_trading_system.Text.{Bytes, txt}
use deribit_trading_system.Gzip.{Code, z_stream_end, z_other, pump, decompress_gzip}
use deribit_trading_system.Gzip.Loop.{Inflates, decompress_gzip-Inflates}
use deribit_trading_system.Samples.Streams.{stored, stored_lawful}

abbrev buffer : Bytes
buffer = replicate 8 0

abbrev input : Bytes
input = txt "a stored stream of bytes"

decompress_gzip_runs : decompress_gzip stored 30 buffer input ≡ ok input
unfolding decompress_gzip pump
decompress_gzip_runs = refl

decompress_gzip-Inflates_example :
    (ret : Code) × (all : Bytes) × Inflates stored 8 ret (record { rest = input; out = 0 }) all
    × (((ret ≡ z_stream_end) × (decompress_gzip stored 30 buffer input ≡ ok all))
        ⊎ ((ret ≡ z_other) × (decompress_gzip stored 30 buffer input ≡ throws runtime_error)))
decompress_gzip-Inflates_example =
    decompress_gzip-Inflates stored stored_lawful 30 buffer input (record { rest = []; out = 0 })
      (omega arith) refl (omega arith)
