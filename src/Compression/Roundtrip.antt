-- ===== src/Compression/Roundtrip.antt =====
-- `compressString` of websocket_server.cpp and `decompressString` of websocket_client.cpp, one after
-- the other.
use native.Mathlib.Nat.{mod-eq_of_lt}
use deribit_trading_system.Base.{
  ℕ, ◌^◌, ◌<◌, ◌≤◌, ◌≡◌, ◌≢◌, inl, inr, refl, subst, ap, ◌∙◌, [], ◌∷◌, some, length, take, arith,
}
use deribit_trading_system.Base.Outcome.{ok}
use deribit_trading_system.Text.{Bytes}
use deribit_trading_system.Gzip.{Code, z_ok, z_stream_end, z_other, Zlib, IsLawful, decompress_gzip}
use deribit_trading_system.Gzip.Loop.{Inflates, decompress_gzip-Inflates}
use deribit_trading_system.Compression.{avail_in, compress_string, decompress_string}

-- What zlib.h says of the two: `deflate` with Z_FINISH and room ends at the end of the stream and
-- writes no more than `deflateBound`, and inflating all that it wrote, with room, gives back the input.
pub record IsCodec (deflater inflater : Zlib) : Type 0 where
  pub deflates : IsLawful deflater
  pub inflates : IsLawful inflater
  pub ends :
      (zs : deflater.Stream) (str z : Bytes) (room : ℕ) (ret : Code)
      → 0 < room
      → deflater.init ≡ some zs
      → Inflates deflater room ret (deflater.feed zs str) z
      → ret ≢ z_other
  pub bound : ℕ → ℕ
  pub bounded :
      (zs : deflater.Stream) (str z : Bytes) (room : ℕ)
      → 0 < room
      → deflater.init ≡ some zs
      → Inflates deflater room z_stream_end (deflater.feed zs str) z
      → length z ≤ bound (length str)
  pub inverse :
      (zs : deflater.Stream) (zs' : inflater.Stream) (str z out : Bytes) (room room' : ℕ)
      (ret : Code)
      → 0 < room
      → 0 < room'
      → deflater.init ≡ some zs
      → inflater.init ≡ some zs'
      → Inflates deflater room z_stream_end (deflater.feed zs str) z
      → Inflates inflater room' ret (inflater.feed zs' z) out
      → ret ≢ z_ok
      → (ret ≡ z_stream_end) × (out ≡ str)

module _ (deflater inflater : Zlib) (codec : IsCodec deflater inflater) where
  ended :
      {room : ℕ} {ret : Code} {s : deflater.Stream} {z : Bytes}
      → Inflates deflater room ret s z
      → ret ≡ z_stream_end
      → Inflates deflater room z_stream_end s z
  ended {room} {ret} {s} {z} calls e = subst (λ r. Inflates deflater room r s z) e calls

  take-length : (s : Bytes) → take (length s) s ≡ s
  take-length [] = refl
  take-length (c ∷ s) = ap (◌∷◌ c) (take-length s)

  avail_in_small : (s : Bytes) → length s < 2 ^ 32 → avail_in s ≡ s
  unfolding avail_in
  avail_in_small s h = rw (mod-eq_of_lt h) (take-length s)

  -- When both streams start, `compressString` returns a text that `decompressString` turns back into
  -- the original, whatever the sizes of the two buffers, with fuel above the pending work, where the
  -- text and the bound on what it is compressed to are below 2^32.
  pub compress_string-decompress_string :
      (fuel : ℕ) (fuel' : Bytes → ℕ) (outbuffer outbuffer' str : Bytes) (zs : deflater.Stream)
      (zs' : inflater.Stream)
      → length str < 2 ^ 32
      → codec.bound (length str) < 2 ^ 32
      → 0 < length outbuffer
      → 0 < length outbuffer'
      → deflater.init ≡ some zs
      → inflater.init ≡ some zs'
      → codec.deflates.pending (deflater.feed zs str) < fuel
      → ((z : Bytes) → codec.inflates.pending (inflater.feed zs' z) < fuel' z)
      → (z : Bytes) × (compress_string deflater fuel outbuffer str ≡ ok z)
        × (decompress_string inflater (fuel' z) outbuffer' z ≡ ok str)
  unfolding compress_string decompress_string decompress_gzip
  compress_string-decompress_string fuel fuel' b b' str zs zs' small packed room room' start start'
        enough enough' =
      let (ret, z, calls, result) =
        decompress_gzip-Inflates deflater codec.deflates fuel b str zs room start enough in
      elim result [
        | inr (e, eq) ↦ absurd (codec.ends zs str z (length b) ret room start calls e)
        | inl (e, eq) ↦
            let (ret', out, calls', result') =
              decompress_gzip-Inflates inflater codec.inflates (fuel' z) b' z zs' room' start'
                (enough' z) in
            let fits = codec.bounded zs str z (length b) room start (ended calls e) in
            let all = ap (decompress_gzip inflater (fuel' z) b') (avail_in_small z (omega arith)) in
            (
              z,
              ap (decompress_gzip deflater fuel b) (avail_in_small str small) ∙ eq,
              elim result' [
                | inl (e', eq') ↦
                    all
                    ∙ eq'
                    ∙ ap ok
                        (codec.inverse zs zs' str z out (length b) (length b') ret' room room' start
                          start' (ended calls e) calls' (λ k. cc)).1
                | inr (e', eq') ↦
                    let (e'', o) =
                      codec.inverse zs zs' str z out (length b) (length b') ret' room room' start
                        start' (ended calls e) calls' (λ k. cc) in
                    cc
              ],
            )
      ]
