-- ===== src/Orders/Url.antt =====
-- The addresses that `placeOrder`, `cancelOrderRequest` and `modifyOrder` of order_management.cpp
-- build, read back as a server does.
use mathlib.Core.List.{append_assoc}
use deribit_trading_system.Base.{
  ℕ, ◌≡◌, ◌≢◌, refl, List, [], ◌∷◌, ◌++◌, ◌==◌, if◌then◌else◌, map, All, arith,
}
use deribit_trading_system.Text.{Bytes, txt, beq}
use deribit_trading_system.Orders.{Env}
use deribit_trading_system.Orders.Place.{place_url}
use deribit_trading_system.Orders.Cancel.{cancel_url}
use deribit_trading_system.Orders.Modify.{modify_url}

-- What stands before the first such byte, and after it.
pub cut : ℕ → Bytes → Bytes × Bytes
cut c [] = ([], [])
cut c (d ∷ s) = let (a, b) = cut c s in if d == c then ([], s) else (d ∷ a, b)

abbrev on_head : ℕ → List Bytes → List Bytes
on_head d [] = (d ∷ []) ∷ []
on_head d (s ∷ ss) = (d ∷ s) ∷ ss

-- The pieces between such bytes.
pub split_on : ℕ → Bytes → List Bytes
split_on c [] = [] ∷ []
split_on c (d ∷ s) = let rest = split_on c s in if d == c then [] ∷ rest else on_head d rest

-- The parameters of an address: after "?", between "&", each a name and a value about "=".
pub query : Bytes → List (Bytes × Bytes)
unfolding cut split_on
query url = map (cut 61) (split_on 38 (cut 63 url).1)

-- No such byte in it.
abbrev pub IsFree : ℕ → Bytes → Type 0
IsFree c = All (λ d. d ≢ c)

-- No "&" in it.
abbrev pub IsPlain : Bytes → Type 0
IsPlain = IsFree 38

pub split_on-piece :
    (c : ℕ) (a r : Bytes) → IsFree c a → split_on c (a ++ (c ∷ r)) ≡ a ∷ split_on c r
unfolding split_on
split_on-piece c [] r h = ground arith
split_on-piece c (x ∷ a) r h = ground (arith, split_on-piece c a r h.1)

pub split_on-last : (c : ℕ) (a : Bytes) → IsFree c a → split_on c a ≡ a ∷ []
unfolding split_on
split_on-last c [] h = refl
split_on-last c (x ∷ a) h = ground (arith, split_on-last c a h.1)

IsPlain-append : (a b : Bytes) → IsPlain a → IsPlain b → IsPlain (a ++ b)
IsPlain-append [] b h k = k
IsPlain-append (c ∷ a) b h k = (h.0, IsPlain-append a b h.1 k)

module _ (e : Env) where
  open e use {numbers, print_double}

  abbrev named : Bytes → Bytes → Bytes
  named name value = name ++ (61 ∷ value)

  -- A market order asks for an amount of an instrument, with its label and type; a limit order adds
  -- its price. Values with no "&" in them come through as they are.
  pub place_url-query :
      (instrument : Bytes) (quantity price : numbers.Double) (label : Bytes)
      → IsPlain instrument
      → IsPlain label
      → IsPlain (print_double quantity)
      → IsPlain (print_double price)
      → (query (place_url e instrument quantity price label (txt "market"))
          ≡ (txt "amount", print_double quantity)
            ∷ (txt "instrument_name", instrument)
            ∷ (txt "label", label)
            ∷ (txt "type", txt "market")
            ∷ [])
        × (query (place_url e instrument quantity price label (txt "limit"))
            ≡ (txt "amount", print_double quantity)
              ∷ (txt "instrument_name", instrument)
              ∷ (txt "label", label)
              ∷ (txt "type", txt "limit")
              ∷ (txt "price", print_double price)
              ∷ [])
  unfolding query place_url beq
  place_url-query i q p l hi hl hq hp = (market, limit)
    where
      amount : IsPlain (txt "amount=" ++ print_double q)
      amount = IsPlain-append (txt "amount=") _ (omega arith) hq

      instrument : IsPlain (txt "instrument_name=" ++ i)
      instrument = IsPlain-append (txt "instrument_name=") _ (omega arith) hi

      label : IsPlain (txt "label=" ++ l)
      label = IsPlain-append (txt "label=") _ (omega arith) hl

      market :
          query (place_url e i q p l (txt "market"))
          ≡ (txt "amount", print_double q)
            ∷ (txt "instrument_name", i)
            ∷ (txt "label", l)
            ∷ (txt "type", txt "market")
            ∷ []
      market = rw (
        split_on-piece 38 (txt "amount=" ++ print_double q) _ amount,
        split_on-piece 38 (txt "instrument_name=" ++ i) _ instrument,
        split_on-piece 38 (txt "label=" ++ l) _ label,
      )

      price : IsPlain (txt "price=" ++ print_double p)
      price = IsPlain-append (txt "price=") _ (omega arith) hp

      limit :
          query (place_url e i q p l (txt "limit"))
          ≡ (txt "amount", print_double q)
            ∷ (txt "instrument_name", i)
            ∷ (txt "label", l)
            ∷ (txt "type", txt "limit")
            ∷ (txt "price", print_double p)
            ∷ []
      limit = simp append_assoc (
          rw (
            split_on-piece 38 (txt "amount=" ++ print_double q) _ amount,
            split_on-piece 38 (txt "instrument_name=" ++ i) _ instrument,
            split_on-piece 38 (txt "label=" ++ l) _ label,
            split_on-last 38 (txt "price=" ++ print_double p) price,
          ))

  -- A cancellation names the order; a modification its new price and amount too.
  pub modify_url-query :
      (order_id : Bytes) (new_price amount : numbers.Double)
      → IsPlain order_id
      → IsPlain (print_double new_price)
      → IsPlain (print_double amount)
      → (query (cancel_url e order_id) ≡ (txt "order_id", order_id) ∷ [])
        × (query (modify_url e order_id new_price amount)
            ≡ (txt "order_id", order_id)
              ∷ (txt "price", print_double new_price)
              ∷ (txt "amount", print_double amount)
              ∷ [])
  unfolding query cancel_url modify_url
  modify_url-query o p a ho hp ha = (
    rw (
        split_on-last 38 (txt "order_id=" ++ o)
          (IsPlain-append (txt "order_id=") o (omega arith) ho)),
    rw (
      split_on-piece 38 (txt "order_id=" ++ o) _
          (IsPlain-append (txt "order_id=") o (omega arith) ho),
      split_on-piece 38 (txt "price=" ++ print_double p) _
          (IsPlain-append (txt "price=") _ (omega arith) hp),
      split_on-last 38 (txt "amount=" ++ print_double a)
          (IsPlain-append (txt "amount=") _ (omega arith) ha),
    ),
  )
