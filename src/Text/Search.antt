-- ===== src/Text/Search.antt =====
-- Laws of the `std::string` members.
use mathlib.Core.Option
use deribit_trading_system.Base.{
  ℕ, suc, ◌+◌, ◌≡◌, ◌≢◌, ◌↔◌, refl, ap, ◌∙◌, true, [], ◌∷◌, ◌++◌, Option, none, some, length,
  length-append, drop, ◌≤◌, All, arith,
}
use deribit_trading_system.Base.Outcome.{ok}
use deribit_trading_system.Text.{Bytes, beq, starts_with, find, substr}

pub beq_refl : (s : Bytes) → beq s s ≡ true
unfolding beq
beq_refl [] = refl
beq_refl (c ∷ s) = ground (arith, beq_refl s)

pub eq_of_beq : (s t : Bytes) → beq s t ≡ true → s ≡ t
unfolding beq
eq_of_beq [] [] h = refl
eq_of_beq [] (d ∷ t) h = cc
eq_of_beq (c ∷ s) [] h = cc
eq_of_beq (c ∷ s) (d ∷ t) h = ground (arith, eq_of_beq s t)

pub beq_iff : (s t : Bytes) → (beq s t ≡ true) ↔ (s ≡ t)
beq_iff s t = (eq_of_beq s t, λ e. rw e (beq_refl t))

pub starts_with-append : (s t : Bytes) → starts_with (t ++ s) t ≡ true
unfolding starts_with
starts_with-append s [] = refl
starts_with-append s (d ∷ t) = ground (arith, starts_with-append s t)

shift_zero : (o : Option ℕ) → o ≡ Option.map (λ i. 0 + i) o
shift_zero none = refl
shift_zero (some i) = ap some (omega arith)

shift_suc :
    (n : ℕ) (o : Option ℕ)
    → Option.map suc (Option.map (λ i. n + i) o) ≡ Option.map (λ i. suc n + i) o
shift_suc n none = refl
shift_suc n (some i) = ap some (omega arith)

-- A byte that does not begin the text is passed over.
pub find-skip :
    (c d : ℕ) (s t : Bytes) → c ≢ d → find (c ∷ s) (d ∷ t) ≡ Option.map suc (find s (d ∷ t))
unfolding find
find-skip c d s t h = ground arith

-- So is a run of such bytes.
pub find-append :
    (d : ℕ) (r s t : Bytes)
    → All (λ c. c ≢ d) r
    → find (r ++ s) (d ∷ t) ≡ Option.map (λ i. length r + i) (find s (d ∷ t))
find-append d [] s t h = shift_zero (find s (d ∷ t))
find-append d (c ∷ r) s t h =
    rw (find-skip c d (r ++ s) t h.0, find-append d r s t h.1)
      (shift_suc (length r) (find s (d ∷ t)))

drop-append : (n : ℕ) (r s : Bytes) → drop (length r + n) (r ++ s) ≡ drop n s
drop-append n [] s = ap (λ k. drop k s) (omega arith)
drop-append n (c ∷ r) s =
    let e : suc (length r) + n ≡ suc (length r + n) = omega arith in
    ap (λ k. drop k (c ∷ (r ++ s))) e ∙ drop-append n r s

pub substr-append :
    (n : ℕ) (r s : Bytes) → n ≤ length s → substr (r ++ s) (length r + n) ≡ ok (drop n s)
unfolding substr
substr-append n r s h = ground (arith, length-append r s, drop-append n r s)
