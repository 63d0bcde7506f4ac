-- ===== src/Probe/Reading.antt =====
-- The version in the text that CMakeCXXCompilerId.cpp leaves in its object file, read back as CMake
-- does: numbers between full stops.
use mathlib.Core.List.{append-nil}
use deribit_trading_system.Base.{ℕ, ◌%◌, ◌^◌, ◌≡◌, refl, List, [], ◌∷◌, ◌++◌, map, arith}
use deribit_trading_system.Text.{Bytes, txt}
use deribit_trading_system.Orders.Url.{split_on, split_on-piece, split_on-last, IsFree}
use deribit_trading_system.Probe.{Part, absent, text, error, Identity, dec}
use deribit_trading_system.Probe.Digits.{read, dec-read, IsWithin}
use deribit_trading_system.Probe.Info.{dotted, numbered, info, info_version, is_there}

-- The numbers between full stops.
pub read_version : Bytes → List ℕ
read_version s = map (read 10 0) (split_on 46 s)

abbrev pub numeral : ℕ → Part
numeral n = text (dec n)

abbrev below_limit : ℕ → ℕ
below_limit n = n % 10 ^ 8

abbrev tail : List ℕ → Bytes
tail [] = []
tail (n ∷ ns) = 46 ∷ (dec n ++ tail ns)

IsWithin-IsFree : (s : Bytes) → IsWithin 9 s → IsFree 46 s
IsWithin-IsFree [] h = _
IsWithin-IsFree (c ∷ s) h = (omega arith, IsWithin-IsFree s h.1)

dotted-numerals :
    (ns : List ℕ) (rest : List Part) → dotted (map numeral ns ++ (absent ∷ rest)) ≡ text (tail ns)
unfolding dotted
dotted-numerals [] rest = refl
dotted-numerals (n ∷ ns) rest = rw (dotted-numerals ns rest) refl

dotted-absent : (ps : List Part) → dotted ps ≡ dotted (ps ++ (absent ∷ []))
unfolding dotted
dotted-absent [] = refl
dotted-absent (absent ∷ ps) = refl
dotted-absent (text s ∷ ps) = rw (dotted-absent ps) refl
dotted-absent (error ∷ ps) = refl

tail-read : (n : ℕ) (ns : List ℕ) → read_version (dec n ++ tail ns) ≡ map below_limit (n ∷ ns)
unfolding read_version
tail-read n [] = rw (
  append-nil (dec n),
  split_on-last 46 (dec n) (IsWithin-IsFree (dec n) (dec-read n).1),
  (dec-read n).0,
)
tail-read n (m ∷ ns) = rw (
  split_on-piece 46 (dec n) (dec m ++ tail ns) (IsWithin-IsFree (dec n) (dec-read n).1),
  (dec-read n).0,
  ← tail-read m ns,
)

-- A version of which the first numbers are defined, and behind them one is not, is written as these
-- numbers, and reading it gives them back, each without what is above its eighth digit.
pub info_version-read :
    (i : Identity) (n : ℕ) (ns : List ℕ) (rest : List Part)
    → i.version ≡ absent
    → i.major ≡ numeral n
    → i.minor ∷ i.patch ∷ i.tweak ∷ absent ∷ [] ≡ map numeral ns ++ (absent ∷ rest)
    → (s : Bytes) × (info_version i ≡ info (txt "compiler_version") (text s))
      × (read_version s ≡ map below_limit (n ∷ ns))
unfolding info_version numbered is_there
info_version-read i n ns rest hv hm hs = (
  dec n ++ tail ns,
  rw (hv, hm, dotted-absent (i.minor ∷ i.patch ∷ i.tweak ∷ []), hs, dotted-numerals ns rest) refl,
  tail-read n ns,
)
