-- ===== src/Probe/Digits.antt =====
-- What `DEC` and `HEX` of CMakeCXXCompilerId.cpp write, read back.
use deribit_trading_system.Base.{ℕ, ◌+◌, ◌-◌, ◌*◌, ◌/◌, ◌%◌, ◌^◌, ◌≤◌, ◌≡◌, [], ◌∷◌, All, arith}
use deribit_trading_system.Text.{Bytes}
use deribit_trading_system.Probe.{dec, hex}

-- The number that digits behind one another stand for, in a base.
pub read : ℕ → ℕ → Bytes → ℕ
read base acc [] = acc
read base acc (c ∷ s) = read base (acc * base + (c - 48)) s

-- Every character is '0' and one of that many more.
abbrev pub IsWithin : ℕ → Bytes → Type 0
IsWithin last = All (λ c. (48 ≤ c) × (c ≤ 48 + last))

behind_zero : (x : ℕ) → 48 + x - 48 ≡ x
behind_zero x = omega arith

-- Eight digits, by pairs and fours.
module _ where
  dec_pairs :
      (d7 d6 d5 d4 d3 d2 d1 d0 : ℕ)
      → read 10 0 (
          (48 + d7)
          ∷ (48 + d6)
          ∷ (48 + d5)
          ∷ (48 + d4)
          ∷ (48 + d3)
          ∷ (48 + d2)
          ∷ (48 + d1)
          ∷ (48 + d0)
          ∷ [])
        ≡ ((d7 * 10 + d6) * 100 + (d5 * 10 + d4)) * 10000 + ((d3 * 10 + d2) * 100 + (d1 * 10 + d0))
  unfolding read
  dec_pairs d7 d6 d5 d4 d3 d2 d1 d0 =
      rw
        (
          behind_zero d7,
          behind_zero d6,
          behind_zero d5,
          behind_zero d4,
          behind_zero d3,
          behind_zero d2,
          behind_zero d1,
          behind_zero d0,
        )
        (omega arith)

  dec_four :
      (q : ℕ)
      → (q / 1000 % 10 * 10 + q / 100 % 10) * 100 + (q / 10 % 10 * 10 + q / 1 % 10) ≡ q % 10000
  dec_four q = omega arith

  dec_upper :
      (n : ℕ)
      → (n / 10000000 % 10 * 10 + n / 1000000 % 10) * 100 + (n / 100000 % 10 * 10 + n / 10000 % 10)
        ≡ n / 10000 % 10000
  dec_upper n = omega arith

  dec_eight : (n : ℕ) → n / 10000 % 10000 * 10000 + n % 10000 ≡ n % 100000000
  dec_eight n = omega arith

  hex_pairs :
      (d7 d6 d5 d4 d3 d2 d1 d0 : ℕ)
      → read 16 0 (
          (48 + d7)
          ∷ (48 + d6)
          ∷ (48 + d5)
          ∷ (48 + d4)
          ∷ (48 + d3)
          ∷ (48 + d2)
          ∷ (48 + d1)
          ∷ (48 + d0)
          ∷ [])
        ≡ ((d7 * 16 + d6) * 256 + (d5 * 16 + d4)) * 65536 + ((d3 * 16 + d2) * 256 + (d1 * 16 + d0))
  unfolding read
  hex_pairs d7 d6 d5 d4 d3 d2 d1 d0 =
      rw
        (
          behind_zero d7,
          behind_zero d6,
          behind_zero d5,
          behind_zero d4,
          behind_zero d3,
          behind_zero d2,
          behind_zero d1,
          behind_zero d0,
        )
        (omega arith)

  hex_four :
      (q : ℕ)
      → (q / 4096 % 16 * 16 + q / 256 % 16) * 256 + (q / 16 % 16 * 16 + q / 1 % 16) ≡ q % 65536
  hex_four q = omega arith

  hex_upper :
      (n : ℕ)
      → (n / 268435456 % 16 * 16 + n / 16777216 % 16) * 256
          + (n / 1048576 % 16 * 16 + n / 65536 % 16)
        ≡ n / 65536 % 65536
  hex_upper n = omega arith

  hex_eight : (n : ℕ) → n / 65536 % 65536 * 65536 + n % 65536 ≡ n % 4294967296
  hex_eight n = omega arith

within_10 : (q : ℕ) → (48 ≤ 48 + q % 10) × (48 + q % 10 ≤ 57)
within_10 q = omega arith

within_16 : (q : ℕ) → (48 ≤ 48 + q % 16) × (48 + q % 16 ≤ 63)
within_16 q = omega arith

-- `DEC` writes decimal digits, and they are the number without what is above its eighth digit.
pub dec-read : (n : ℕ) → (read 10 0 (dec n) ≡ n % 10 ^ 8) × IsWithin 9 (dec n)
unfolding dec
dec-read n = (
  rw (dec_pairs _ _ _ _ _ _ _ _, dec_upper n, dec_four n, dec_eight n),
  (
    within_10 _,
    (
      within_10 _,
      (within_10 _, (within_10 _, (within_10 _, (within_10 _, (within_10 _, (within_10 _, _)))))),
    ),
  ),
)

-- `HEX` writes eight characters that stand for the lower 32 bits. They are the sixteen from '0' on, so
-- the digits above nine are none of the usual ones.
pub hex-read : (n : ℕ) → (read 16 0 (hex n) ≡ n % 2 ^ 32) × IsWithin 15 (hex n)
unfolding hex
hex-read n = (
  rw (hex_pairs _ _ _ _ _ _ _ _, hex_upper n, hex_four n, hex_eight n),
  (
    within_16 _,
    (
      within_16 _,
      (within_16 _, (within_16 _, (within_16 _, (within_16 _, (within_16 _, (within_16 _, _)))))),
    ),
  ),
)
