-- ===== src/Response/Body.antt =====
-- What the header stripping of order_management.cpp returns, with and without a header block.
use mathlib.Core.List.{append_assoc}
use mathlib.Core.Option
use native.Mathlib.Nat.{mod-eq_of_lt}
use deribit_trading_system.Base.{
  ℕ, suc, ◌+◌, ◌%◌, ◌^◌, ◌<◌, ◌≡◌, ◌≢◌, refl, ap, ◌∙◌, List, [], ◌∷◌, ◌++◌, none, some, ltb,
  if◌then◌else◌, length, length-append, drop, All, arith,
}
use deribit_trading_system.Base.Outcome.{ok, throws, out_of_range}
use deribit_trading_system.Text.{Bytes, starts_with, find, substr}
use deribit_trading_system.Text.Search.{find-append, substr-append}
use deribit_trading_system.Response.{separator, extract_body, strip_headers}

-- A status or header line: some bytes, none of them a carriage return.
abbrev pub IsLine : Bytes → Type 0
IsLine [] = ⊥
IsLine (c ∷ l) = (c ≢ 13) × All (λ d. d ≢ 13) l

-- The lines of a header, joined by "\r\n".
unfoldable pub header : Bytes → List Bytes → Bytes
header l [] = l
header l (l' ∷ ls) = l ++ (13 ∷ 10 ∷ header l' ls)

line-All : (l : Bytes) → IsLine l → All (λ d. d ≢ 13) l
line-All [] h = absurd h
line-All (c ∷ l) h = h

find_here : (b : Bytes) → find (separator ++ b) separator ≡ some 0
unfolding find starts_with
find_here b = refl

find_new_line :
    (c : ℕ) (s : Bytes)
    → c ≢ 13
    → find (13 ∷ 10 ∷ c ∷ s) separator ≡ Option.map suc (Option.map suc (find (c ∷ s) separator))
unfolding find starts_with
find_new_line c s h = ground arith

find_next_line :
    (l : Bytes) (ls : List Bytes) (s : Bytes)
    → IsLine l
    → find (13 ∷ 10 ∷ (header l ls ++ s)) separator
      ≡ Option.map suc (Option.map suc (find (header l ls ++ s) separator))
unfolding header
find_next_line [] ls s h = absurd h
find_next_line (c ∷ l) [] s h = find_new_line c _ h.0
find_next_line (c ∷ l) (l' ∷ ls) s h = find_new_line c _ h.0

find-header :
    (l : Bytes) (ls : List Bytes) (b : Bytes)
    → All IsLine (l ∷ ls)
    → find (header l ls ++ (separator ++ b)) separator ≡ some (length (header l ls))
unfolding header
find-header l [] b h =
    find-append 13 l (separator ++ b) (10 ∷ 13 ∷ 10 ∷ []) (line-All l h.0)
    ∙ rw (find_here b) (ap some (omega arith))
find-header l (l' ∷ ls) b h =
    rw
      (
        append_assoc l _ _,
        find-append 13 l _ (10 ∷ 13 ∷ 10 ∷ []) (line-All l h.0),
        find_next_line l' ls (separator ++ b) h.1.0,
        find-header l' ls b h.1,
      )
      (ap some (omega (arith, length-append l (13 ∷ 10 ∷ header l' ls))))

-- From a reply with a status line and header lines exactly the body is kept.
pub body-header :
    (l : Bytes) (ls : List Bytes) (body : Bytes)
    → All IsLine (l ∷ ls)
    → length (header l ls ++ (separator ++ body)) < 2 ^ 64
    → (extract_body (header l ls ++ (separator ++ body)) ≡ ok body)
      × (strip_headers (header l ls ++ (separator ++ body)) ≡ ok body)
unfolding extract_body strip_headers
body-header l ls body h small =
    let h_len = length (header l ls) in
    let e : (h_len + 4) % 2 ^ 64 ≡ h_len + 4 =
      mod-eq_of_lt (omega (arith, length-append (header l ls) (separator ++ body))) in
    let cut = substr-append 4 (header l ls) (separator ++ body) (omega arith) in
    rw (find-header l ls body h, e) (cut, cut)

-- A reply with no blank line loses its first three bytes, or makes `substr` throw if it is shorter.
-- The order book keeps it whole.
pub body_unseparated :
    (reply : Bytes)
    → find reply separator ≡ none
    → (extract_body reply
        ≡ (if ltb (length reply) 3 then throws out_of_range else ok (drop 3 reply)))
      × (strip_headers reply ≡ ok reply)
unfolding extract_body strip_headers substr
body_unseparated reply e = (rw e refl, rw e refl)
