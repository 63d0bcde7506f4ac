-- ===== src/Text.antt =====
-- `std::string` as the list of its bytes, with the members that the sources call.
pub mod Search
use Prim.Native.Char.{code}
use Prim.Native.String.{String}
use deribit_trading_system.Base.{
  ℕ, zero, suc, ◌+◌, ◌-◌, ◌^◌, Bool, true, false, ◌&&◌, List, [], ◌∷◌, Option, none, some, ltb,
  ◌==◌, if◌then◌else◌, length, drop,
}
use deribit_trading_system.Base.Outcome.{Outcome, ok, throws, out_of_range}
use mathlib.Core.Option

abbrev pub Bytes : Type 0
Bytes = List ℕ

-- A literal.
abbrev pub txt : String → Bytes
txt String.[] = []
txt (String.◌∷◌ c s) = code c ∷ txt s

abbrev pub is_empty : Bytes → Bool
is_empty [] = true
is_empty (c ∷ s) = false

-- `operator==`
unfoldable pub beq : Bytes → Bytes → Bool
beq [] [] = true
beq [] (d ∷ t) = false
beq (c ∷ s) [] = false
beq (c ∷ s) (d ∷ t) = c == d && beq s t

unfoldable pub starts_with : Bytes → Bytes → Bool
starts_with s [] = true
starts_with [] (d ∷ t) = false
starts_with (c ∷ s) (d ∷ t) = c == d && starts_with s t

-- `find`: the first position at which the text occurs.
unfoldable pub find : Bytes → Bytes → Option ℕ
unfolding starts_with
find [] t = if starts_with [] t then some 0 else none
find (c ∷ s) t = if starts_with (c ∷ s) t then some 0 else Option.map suc (find s t)

abbrev pub npos : ℕ
npos = 2 ^ 64 - 1

-- The `size_t` that `find` returns.
abbrev pub position : Option ℕ → ℕ
position none = npos
position (some i) = i

-- `substr(pos)`
unfoldable pub substr : Bytes → ℕ → Outcome Bytes
substr s pos = if ltb (length s) pos then throws out_of_range else ok (drop pos s)

-- What a C function reads of `c_str()`, and what a string made from a `char*` holds.
unfoldable pub c_str : Bytes → Bytes
c_str [] = []
c_str (c ∷ s) = if c == 0 then [] else c ∷ c_str s
