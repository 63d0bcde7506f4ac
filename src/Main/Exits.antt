-- ===== src/Main/Exits.antt =====
-- When `main` of main.cpp returns 1.
use mathlib.Core.Bool.{true≢false}
use deribit_trading_system.Base.{
  ap, ◌≡◌, ◌⊎◌, inl, inr, refl, true, false, [], ◌∷◌, Option, none, some, Bool-cases,
}
use deribit_trading_system.Base.Outcome.{Outcome, ok, throws, aborts, hangs}
use deribit_trading_system.Text.{Bytes, is_empty}
use deribit_trading_system.Token.{TokenManager, Session}
use deribit_trading_system.Orders.{Env, Api}
use deribit_trading_system.Main.{Report, Layout, leave, trade, with_token, login, run_main}

module _ (e : Env) (twice : e.numbers.Double → e.numbers.Double) (l : Layout e twice)
    (quantity price : e.numbers.Double) where
  open e use {curl, clock, nlohmann}

  leave_not_one : (r : Outcome (Report e twice) × Api e) → (leave e twice r).0 ≡ ok 1 → true ≡ false
  unfolding leave
  leave_not_one (ok report, a) h = cc
  leave_not_one (throws x, a) h = cc
  leave_not_one (aborts, a) h = cc
  leave_not_one (hangs, a) h = cc

  trade_not_one :
      (tokens : TokenManager) (w : curl.World)
      → (trade e twice l quantity price tokens w).0 ≡ ok 1
      → true ≡ false
  unfolding trade
  trade_not_one tokens w h = leave_not_one _ h

  empty_token : (token : Bytes) → is_empty token ≡ true → token ≡ []
  empty_token [] h = refl
  empty_token (c ∷ t) h = cc

  with_token_one :
      (r : Outcome Bytes × Session nlohmann curl clock)
      → (with_token e twice l quantity price r).0 ≡ ok 1
      → r.0 ≡ ok []
  unfolding with_token
  with_token_one (ok token, s) h = elim (Bool-cases (is_empty token)) [
    | inl b ↦ ap ok (empty_token token b)
    | inr b ↦ absurd (true≢false (trade_not_one s.tokens s.world (rw b at h)))
  ]
  with_token_one (throws x, s) h = cc
  with_token_one (aborts, s) h = cc
  with_token_one (hangs, s) h = cc

  -- `main` returns 1 only where an environment variable is missing, or libcurl's initialisation
  -- fails, or the token manager gets no token.
  pub run_main_one :
      (id secret : Option Bytes) (w : curl.World)
      → (run_main e twice l quantity price id secret w).0 ≡ ok 1
      → (id ≡ none)
        ⊎ (secret ≡ none)
        ⊎ ((curl.global_init w).0 ≡ false)
        ⊎ ((i : Bytes) × (s : Bytes) × (id ≡ some i)
            × (secret ≡ some s)
            × ((login e twice i s (curl.global_init w).1).0 ≡ ok []))
  unfolding run_main
  run_main_one none secret w h = inl refl
  run_main_one (some i) none w h = inr (inl refl)
  run_main_one (some i) (some s) w h = elim (Bool-cases (curl.global_init w).0) [
    | inl b ↦ inr (
        inr (
          inr (
            i,
            s,
            refl,
            refl,
            with_token_one (login e twice i s (curl.global_init w).1) (rw (b, run_main) at h),
          )))
    | inr b ↦ inr (inr (inl b))
  ]
