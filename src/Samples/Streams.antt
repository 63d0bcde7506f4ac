-- ===== src/Samples/Streams.antt =====
-- A zlib whose streams are stored: what comes in goes out, as far as there is room.
use deribit_trading_system.Base.{
  ℕ, zero, suc, ◌+◌, ◌-◌, ◌≤◌, ◌<◌, ◌≡◌, [], ◌∷◌, Option, some, ltb, if◌then◌else◌, length, take,
  drop, arith,
}
use deribit_trading_system.Text.{Bytes}
use deribit_trading_system.Gzip.{Code, z_ok, z_stream_end, Zlib, IsLawful}

pub record Stored : Type 0 where
  pub rest : Bytes
  pub out : ℕ

abbrev pub give : Stored → ℕ → Code × Bytes × Stored
give s room =
    if ltb room (length s.rest)
    then (
      z_ok,
      take room s.rest,
      record { rest = drop room s.rest; out = s.out + length (take room s.rest) },
    )
    else (z_stream_end, s.rest, record { rest = []; out = s.out + length s.rest })

abbrev pub stored : Zlib
stored = record {
  Stream = Stored;
  init = some (record { rest = []; out = 0 });
  feed = λ s input. record s { rest = input };
  inflate = give;
  total_out = λ s. s.out;
}

length-take-le : (n : ℕ) (s : Bytes) → length (take n s) ≤ n
length-take-le zero s = omega arith
length-take-le (suc n) [] = omega arith
length-take-le (suc n) (c ∷ s) = omega (arith, length-take-le n s)

length-drop-le : (n : ℕ) (s : Bytes) → length (drop n s) ≤ length s - n
length-drop-le zero s = omega arith
length-drop-le (suc n) [] = omega arith
length-drop-le (suc n) (c ∷ s) = omega (arith, length-drop-le n s)

pub stored-bounded : (s : Stored) (room : ℕ) → length (give s room).1 ≤ room
stored-bounded s room = ground (arith, length-take-le room s.rest)

pub stored-counted : (s : Stored) (room : ℕ) → (give s room).2.out ≡ s.out + length (give s room).1
stored-counted s room = ground arith

pub stored-progress :
    (s : Stored) (room : ℕ)
    → 0 < room
    → (give s room).0 ≡ z_ok
    → length (give s room).2.rest < length s.rest
stored-progress s room h e = ground (arith, length-drop-le room s.rest)

pub stored-starts :
    (s : Stored) (input : Bytes)
    → ◌≡◌ {A = Option Stored} (some (record { rest = []; out = 0 })) (some s)
    → s.out ≡ 0
stored-starts s input e = ground arith

abbrev pub stored_lawful : IsLawful stored
stored_lawful = record {
  pending = λ s. length s.rest;
  starts = stored-starts;
  bounded = stored-bounded;
  counted = stored-counted;
  progress = stored-progress;
}
