-- ===== src/Base/Times.antt =====
-- How often a number occurs in a list.
use mathlib.Core.List.{
  Mem, Nodup, Nodup-cons, Nodup-nil, mem-cons, mem-cons_self, mem-cons_of_mem, not-mem-nil,
}
use mathlib.Core.Logic.Or
use native.Mathlib.Bridge.{le_prop}
use native.Mathlib.Decide.{ℕ_discrete}
use Prim.Native.Nat.{ℕ, ◌+◌, ◌≤◌, ◌<◌}
use mathlib.Core.Path.{◌≡◌, refl, subst}
use mathlib.Core.Logic.{◌≢◌}
use mathlib.Core.Bool.{Bool, true, false}
use mathlib.Core.List.{List, [], ◌∷◌, ◌++◌}
use native.Mathlib.Omega.{arith}
use deribit_trading_system.Base.Tests.{◌==◌}

abbrev pub one : Bool → ℕ
one true = 1
one false = 0

abbrev pub times : ℕ → List ℕ → ℕ
times h [] = 0
times h (x ∷ xs) = one (x == h) + times h xs

times-Mem : (h : ℕ) (xs : List ℕ) → Mem h xs → 0 < times h xs
times-Mem h [] m = absurd (not-mem-nil m)
times-Mem h (x ∷ xs) m =
    Or.elim le_prop (mem-cons.0 m) (λ e. ground arith) (λ i. omega (arith, times-Mem h xs i))

not-Mem-times : (h : ℕ) (xs : List ℕ) → ¬ Mem h xs → times h xs ≡ 0
not-Mem-times h [] n = refl
not-Mem-times h (x ∷ xs) n =
    let ne : x ≢ h = λ e. n (subst (λ y. Mem y (x ∷ xs)) e mem-cons_self) in
    let rest : times h xs ≡ 0 = not-Mem-times h xs (λ m. n (mem-cons_of_mem x m)) in ground arith

pub times-Nodup : (xs : List ℕ) → ((h : ℕ) → times h xs ≤ 1) → Nodup xs
times-Nodup [] p = Nodup-nil
times-Nodup (x ∷ xs) p = Nodup-cons.1 (
  (λ m. absurd (ground (arith, p x, times-Mem x xs m))),
  times-Nodup xs (λ h. omega (arith, p h)),
)

pub Nodup-times : (xs : List ℕ) → Nodup xs → (h : ℕ) → times h xs ≤ 1
Nodup-times [] n h = omega arith
Nodup-times (x ∷ xs) n h =
    let (out, rest) = Nodup-cons.0 n in
    elim (ℕ_discrete x h) [
      | yes e ↦ let none_left : times x xs ≡ 0 = not-Mem-times x xs out in rw (← e) (ground arith)
      | no ne ↦ ground (arith, Nodup-times xs rest h)
    ]

pub times-append : (h : ℕ) (xs ys : List ℕ) → times h (xs ++ ys) ≡ times h xs + times h ys
times-append h [] ys = omega arith
times-append h (x ∷ xs) ys = omega (arith, times-append h xs ys)
