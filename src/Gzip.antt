-- ===== src/Gzip.antt =====
-- `OrderAPI::decompressGzip` of order_management.cpp over zlib, which is a parameter.
pub mod Loop
mod Tests
use deribit_trading_system.Base.{
  ℕ, zero, suc, ◌+◌, ◌-◌, ◌≤◌, ◌<◌, ◌≡◌, List, [], ◌++◌, Option, none, some, ltb, if◌then◌else◌,
  length, take, drop,
}
use deribit_trading_system.Base.Outcome.{Outcome, ok, throws, hangs, runtime_error}
use deribit_trading_system.Text.{Bytes}

-- Z_OK, Z_STREAM_END, and every other code.
pub data Code : Type 0 where
  z_ok z_stream_end z_other : Code

-- `z_stream` with `inflateInit2` (`none` unless it returns Z_OK), the assignment of `next_in` and
-- `avail_in`, and a call of `inflate` with so many bytes of room: its code and what it wrote.
pub record Zlib : Type 1 where
  pub Stream : Type 0
  pub init : Option Stream
  pub feed : Stream → Bytes → Stream
  pub inflate : Stream → ℕ → Code × Bytes × Stream
  pub total_out : Stream → ℕ

-- What zlib.h says: `inflate` writes no more than it has room for and counts what it writes in
-- `total_out`; Z_OK means that it made progress, of which a finite input admits only so much.
pub record IsLawful (z : Zlib) : Type 0 where
  pub pending : z.Stream → ℕ
  pub starts : (s : z.Stream) (input : Bytes) → z.init ≡ some s → z.total_out (z.feed s input) ≡ 0
  pub bounded : (s : z.Stream) (room : ℕ) → length (z.inflate s room).1 ≤ room
  pub counted :
      (s : z.Stream) (room : ℕ)
      → z.total_out (z.inflate s room).2 ≡ z.total_out s + length (z.inflate s room).1
  pub progress :
      (s : z.Stream) (room : ℕ)
      → 0 < room
      → (z.inflate s room).0 ≡ z_ok
      → pending (z.inflate s room).2 < pending s

-- `inflate` writes at `next_out`, the start of `outbuffer`.
abbrev pub overwrite : Bytes → Bytes → Bytes
overwrite written outbuffer = written ++ drop (length written) outbuffer

abbrev pub append_new : Bytes → Bytes → ℕ → Bytes
append_new outstring outbuffer total =
    if ltb (length outstring) total
    then outstring ++ take (total - length outstring) outbuffer
    else outstring

module _ (z : Zlib) where
  open z use {Stream, init, feed, inflate, total_out}

  -- The `do` loop, with its last `ret` and `outstring`.
  unfoldable pub pump : ℕ → Stream → Bytes → Bytes → Outcome (Code × Bytes)
  pump zero zs outbuffer outstring = hangs
  pump (suc fuel) zs outbuffer outstring =
      let (ret, written, zs') = inflate zs (length outbuffer) in
      let outbuffer' = overwrite written outbuffer in
      let outstring' = append_new outstring outbuffer' (total_out zs') in
      elim ret [
        | z_ok ↦ pump fuel zs' outbuffer' outstring'
        | z_stream_end ↦ ok (z_stream_end, outstring')
        | z_other ↦ ok (z_other, outstring')
      ]

  pub finish : Outcome (Code × Bytes) → Outcome Bytes
  finish (ok (z_stream_end, outstring)) = ok outstring
  finish (ok (_, outstring)) = throws runtime_error
  finish (throws e) = throws e
  finish _ = hangs

  -- `outbuffer` starts with what was on the stack.
  unfoldable pub decompress_gzip : ℕ → Bytes → Bytes → Outcome Bytes
  unfolding finish
  decompress_gzip fuel outbuffer str = elim init [
    | none ↦ throws runtime_error
    | some zs ↦ finish (pump fuel (feed zs str) outbuffer [])
  ]
