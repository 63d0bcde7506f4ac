-- ===== src/Samples/Codec.antt =====
-- The stored streams as a pair for `compressString` and `decompressString`.
use deribit_trading_system.Base.{
  ℕ, suc, zero, ◌≡◌, ◌≢◌, refl, ap, ◌∙◌, [], ◌∷◌, ◌++◌, take, drop, arith,
}
use deribit_trading_system.Text.{Bytes}
use deribit_trading_system.Gzip.{Code, z_ok, z_stream_end, z_other}
use deribit_trading_system.Gzip.Loop.{Inflates, last, more}
use deribit_trading_system.Samples.Streams.{stored, Stored, give, stored_lawful}
use deribit_trading_system.Compression.Roundtrip.{IsCodec}

take-drop : (n : ℕ) (s : Bytes) → take n s ++ drop n s ≡ s
take-drop zero s = refl
take-drop (suc n) [] = refl
take-drop (suc n) (c ∷ s) = ap (◌∷◌ c) (take-drop n s)

give_ends :
    (s : Stored) (room : ℕ) (ret : Code)
    → (give s room).0 ≡ ret
    → ret ≢ z_ok
    → (ret ≡ z_stream_end) × ((give s room).1 ≡ s.rest)
give_ends s room ret e ne = ground arith

give_more :
    (s : Stored) (room : ℕ)
    → (give s room).0 ≡ z_ok
    → (give s room).1 ++ (give s room).2.rest ≡ s.rest
give_more s room e = ground (arith, take-drop room s.rest)

pub stored_all :
    (room : ℕ) (ret : Code) (s : Stored) (z : Bytes)
    → ret ≢ z_ok
    → Inflates stored room ret s z
    → (ret ≡ z_stream_end) × (z ≡ s.rest)
stored_all room ret s z ne (last _ e) = give_ends s room ret e ne
stored_all room ret s z ne (more _ rest e calls) =
    let (done, all) = stored_all room ret (give s room).2 rest ne calls in
    (done, ap (λ r. (give s room).1 ++ r) all ∙ give_more s room e)

pub never_other :
    (s : Stored) (z : Bytes) (room : ℕ) (ret : Code) → Inflates stored room ret s z → ret ≢ z_other
never_other s z room ret calls e = let (done, all) = stored_all room ret s z (λ k. cc) calls in cc

pub end_ne : z_stream_end ≢ z_ok
end_ne e = cc

abbrev pub stored_codec : IsCodec stored stored
stored_codec = record {
  deflates = stored_lawful;
  inflates = stored_lawful;
  ends = λ zs str z room ret some_room start calls. never_other _ z room ret calls;
  bound = λ n. n;
  bounded = λ zs str z room some_room start calls.
      let (d, all) = stored_all room z_stream_end _ z end_ne calls in rw all (omega arith);
  inverse = λ zs zs' str z out room room' ret some_room some_room' start start' calls calls' ne.
      let (d, all) = stored_all room z_stream_end _ z end_ne calls in
      let (d', all') = stored_all room' ret _ out ne calls' in (d', all' ∙ all);
}
