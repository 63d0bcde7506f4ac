-- ===== src/Base/Outcome.antt =====
-- What a call can end with: a value; a C++ exception; the end of the process, by a failed assertion
-- of the JSON library (its documented precondition was not met) or by an exception that no frame of
-- its thread catches; or more rounds of a loop than the fuel of the model.
use mathlib.Core.Path.{◌≡◌, refl}

pub data Exception : Type 0 where
  out_of_range runtime_error parse_error type_error connection_error : Exception

pub data Outcome {ℓ} (A : Type ℓ) : Type ℓ where
  ok : A → Outcome A
  throws : Exception → Outcome A
  aborts : Outcome A
  hangs : Outcome A

-- The rest runs on a value only.
abbrev pub and_then {ℓ κ} : {A : Type ℓ} {B : Type κ} → Outcome A → (A → Outcome B) → Outcome B
and_then (ok a) f = f a
and_then (throws e) f = throws e
and_then aborts f = aborts
and_then hangs f = hangs

pub and_then-eq-ok {ℓ κ} :
    {A : Type ℓ} {B : Type κ} (m : Outcome A) (f : A → Outcome B) {b : B}
    → and_then m f ≡ ok b
    → (a : A) × (m ≡ ok a) × (f a ≡ ok b)
and_then-eq-ok (ok a) f h = (a, refl, h)
and_then-eq-ok (throws e) f h = cc
and_then-eq-ok aborts f h = cc
and_then-eq-ok hangs f h = cc

-- A method reads and writes the state of its object; what it wrote stays when it throws.
abbrev pub M {ℓ κ} : Type ℓ → Type κ → Type (ℓ ⊔ κ)
M S A = S → Outcome A × S

module _ {ℓ κ} {S : Type ℓ} {A : Type κ} where
  abbrev pub pure : A → M S A
  pure a s = (ok a, s)

  abbrev pub raise : Outcome A → M S A
  raise o s = (o, s)

infixl 5 ◌>>=◌ ◌>>◌
abbrev pub ◌>>=◌ {ℓ κ μ} : {S : Type ℓ} {A : Type κ} {B : Type μ} → M S A → (A → M S B) → M S B
◌>>=◌ m f s =
    let (o, s') = m s in
    elim o [
      | ok a ↦ f a s'
      | throws e ↦ (throws e, s')
      | aborts ↦ (aborts, s')
      | hangs ↦ (hangs, s')
    ]

abbrev pub ◌>>◌ {ℓ κ} : {S : Type ℓ} {B : Type κ} → M S (Unit {0}) → M S B → M S B
m >> k = m >>= λ _. k

-- To prove something of a bind: on the value of the first part, and on its failures.
pub bind-Post {ℓ κ μ ν} :
    {S : Type ℓ} {A : Type κ} {B : Type μ} (P : Outcome B × S → Type ν) (m : M S A) (f : A → M S B)
    (s : S)
    → ((a : A) → (m s).0 ≡ ok a → P (f a (m s).1))
    → ((x : Exception) → P (throws x, (m s).1))
    → P (aborts, (m s).1)
    → P (hangs, (m s).1)
    → P ((m >>= f) s)
bind-Post {A} {B} P m f s good thrown aborted hung = go (m s).0 refl
  where
    go :
        (o : Outcome A)
        → (m s).0 ≡ o
        → P (elim o [
          | ok a ↦ f a (m s).1
          | throws e ↦ (throws e, (m s).1)
          | aborts ↦ (aborts, (m s).1)
          | hangs ↦ (hangs, (m s).1)
        ])
    go (ok a) e = good a e
    go (throws x) e = thrown x
    go aborts e = aborted
    go hangs e = hung

-- To compute a bind whose first part is known to return.
pub bind_ok {ℓ κ μ} :
    {S : Type ℓ} {A : Type κ} {B : Type μ} (m : M S A) (f : A → M S B) (s : S) (a : A)
    → (m s).0 ≡ ok a
    → (m >>= f) s ≡ f a (m s).1
bind_ok m f s a e = rw (e, ◌>>=◌)
