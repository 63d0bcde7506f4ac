-- ===== src/AsyncBatch/Turns.antt =====
-- How the threads of `performBatchAsyncCurlRequest` in order_management.cpp go on with their turns.
use native.Mathlib.Decide.{ℕ_discrete}
use deribit_trading_system.Base.{
  ℕ, zero, suc, ◌+◌, ◌-◌, ◌≤◌, ◌<◌, ◌≡◌, ◌≢◌, refl, ap, ◌∙◌, Bool, true, false, List, [], ◌∷◌,
  Option, none, some, ◌&&◌, map, get_elem?, set, length, Option-cases, arith, inl, inr,
}
use deribit_trading_system.Text.{Bytes}
use deribit_trading_system.Curl.{Curl}
use deribit_trading_system.Connection.{Manager, get_curl_handle}
use deribit_trading_system.Http.{Net, attempt}
use deribit_trading_system.AsyncBatch.{
  Request, queued, attempting, releasing, pushing, appending, finished, Batch, turn, taken, tried,
  moved, step, run, launch, all_successful,
}
use deribit_trading_system.Base.Times.{times}
use deribit_trading_system.AsyncBatch.Shares.{run-Shared}

-- The turns that a request may still take.
abbrev rank : Request → ℕ
rank (queued u) = 7
rank (attempting k left response) = left + 4
rank (releasing k good response) = 3
rank (pushing good response) = 2
rank (appending good response seen) = 1
rank (finished good response) = 0

abbrev rank_at : ℕ → List Request → ℕ
rank_at i [] = 0
rank_at zero (r ∷ rs) = rank r
rank_at (suc i) (r ∷ rs) = rank_at i rs

rank_at-some :
    (rs : List Request) (i : ℕ) (r : Request) → get_elem? rs i ≡ some r → rank_at i rs ≡ rank r
rank_at-some [] i r e = cc
rank_at-some (x ∷ rs) zero r e = ap rank (cc)
rank_at-some (x ∷ rs) (suc i) r e = rank_at-some rs i r e

rank_at-set_self :
    (rs : List Request) (i : ℕ) (q r : Request)
    → get_elem? rs i ≡ some q
    → rank_at i (set rs i r) ≡ rank r
rank_at-set_self [] i q r e = cc
rank_at-set_self (x ∷ rs) zero q r e = refl
rank_at-set_self (x ∷ rs) (suc i) q r e = rank_at-set_self rs i q r e

rank_at-set_ne :
    (rs : List Request) (i j : ℕ) (r : Request) → i ≢ j → rank_at j (set rs i r) ≡ rank_at j rs
rank_at-set_ne [] i j r ne = refl
rank_at-set_ne (x ∷ rs) zero zero r ne = absurd (ne refl)
rank_at-set_ne (x ∷ rs) zero (suc j) r ne = refl
rank_at-set_ne (x ∷ rs) (suc i) zero r ne = refl
rank_at-set_ne (x ∷ rs) (suc i) (suc j) r ne = rank_at-set_ne rs i j r (λ e. ne (ap suc e))

rank_at-none : (rs : List Request) (i : ℕ) → get_elem? rs i ≡ none → rank_at i rs ≡ 0
rank_at-none [] i e = refl
rank_at-none (x ∷ rs) zero e = cc
rank_at-none (x ∷ rs) (suc i) e = rank_at-none rs i e

rank_finished :
    (rs : List Request)
    → ((j : ℕ) → j < length rs → rank_at j rs ≡ 0)
    → (all : Bool) × (all_successful rs ≡ some all)
rank_finished [] h = (true, refl)
rank_finished (finished good response ∷ rs) h =
    let (all, e) = rank_finished rs (λ j lt. h (suc j) (omega arith)) in
    (good && all, rw (e, all_successful) refl)
rank_finished (queued u ∷ rs) h = absurd (omega (arith, h 0 (omega arith)))
rank_finished (attempting k left response ∷ rs) h = absurd (omega (arith, h 0 (omega arith)))
rank_finished (releasing k good response ∷ rs) h = absurd (omega (arith, h 0 (omega arith)))
rank_finished (pushing good response ∷ rs) h = absurd (omega (arith, h 0 (omega arith)))
rank_finished (appending good response seen ∷ rs) h = absurd (omega (arith, h 0 (omega arith)))

rank_launched : (urls : List Bytes) (j : ℕ) → rank_at j (map queued urls) ≤ 7
rank_launched [] j = omega arith
rank_launched (u ∷ urls) zero = omega arith
rank_launched (u ∷ urls) (suc j) = rank_launched urls j

length-map-queued : (urls : List Bytes) → length (map queued urls) ≡ length urls
length-map-queued [] = refl
length-map-queued (u ∷ urls) = ap suc (length-map-queued urls)

module _ (c : Curl) (token : Bytes) where
  turn-rank :
      (q : Request) (n : Net c) (rs : List Bytes) → rank (turn c token q n rs).0 ≤ rank q - 1
  unfolding turn taken tried
  turn-rank (queued u) n rs = go (get_curl_handle n.manager)
    where
      go : (p : Option ℕ × Manager) → rank (taken c u token p n.world rs).0 ≤ 6
      go (none, m) = omega arith
      go (some k, m) = omega arith
  turn-rank (attempting k left response) n rs =
      let (good, response', w) = attempt c (n.manager.settings k) n.world response in
      go good response' w left
    where
      go :
          (good : Bool) (response' : Bytes) (w : c.World) (left : ℕ)
          → rank (tried c k left (good, response', w) n.manager rs).0 ≤ left + 4 - 1
      go true response' w left = omega arith
      go false response' w zero = omega arith
      go false response' w (suc left) = omega arith
  turn-rank (releasing k good response) n rs = omega arith
  turn-rank (pushing good response) n rs = omega arith
  turn-rank (appending good response seen) n rs = omega arith
  turn-rank (finished good response) n rs = omega arith

  step-rank_self :
      (i : ℕ) (b : Batch c) → rank_at i (step c token i b).requests ≤ rank_at i b.requests - 1
  unfolding step moved
  step-rank_self i b = elim (Option-cases (get_elem? b.requests i)) [
    | inl e ↦ rw (e, step) (omega (arith, rank_at-none b.requests i e))
    | inr (q, e) ↦
        rw (e, step)
          (omega (
            arith,
            turn-rank q b.net b.responses,
            rank_at-some b.requests i q e,
            rank_at-set_self b.requests i q (turn c token q b.net b.responses).0 e,
          ))
  ]

  step-rank_ne :
      (i j : ℕ) (b : Batch c) → i ≢ j → rank_at j (step c token i b).requests ≡ rank_at j b.requests
  unfolding step moved
  step-rank_ne i j b ne = elim (Option-cases (get_elem? b.requests i)) [
    | inl e ↦ rw (e, step) refl
    | inr (q, e) ↦ rw (e, step) (rank_at-set_ne b.requests i j _ ne)
  ]

  run-rank :
      (turns : List ℕ) (j : ℕ) (b : Batch c)
      → rank_at j (run c token turns b).requests ≤ rank_at j b.requests - times j turns
  unfolding run
  run-rank [] j b = omega arith
  run-rank (i ∷ turns) j b = elim (ℕ_discrete i j) [
    | yes e ↦ rw (← e) (ground (arith, run-rank turns i (step c token i b), step-rank_self i b))
    | no ne ↦ ground (arith, run-rank turns j (step c token i b), step-rank_ne i j b ne)
  ]

  -- Once each thread of a batch has had seven turns, in any order, all are finished, and
  -- `allSuccessful` has a value.
  pub run-all_successful :
      (urls : List Bytes) (n : Net c) (responses : List Bytes) (turns : List ℕ)
      → ((i : ℕ) → i < length urls → 7 ≤ times i turns)
      → let b = run c token turns (launch c urls n responses) in
        (all : Bool) × (all_successful b.requests ≡ some all)
  run-all_successful urls n responses turns enough =
      let b0 = launch c urls n responses in
      let b = run c token turns b0 in
      let s = run-Shared c token 0 turns b0 in
      let many : length b.requests ≡ length urls = s.as_many ∙ length-map-queued urls in
      rank_finished b.requests
        (λ j lt. omega (arith, run-rank turns j b0, rank_launched urls j, enough j (omega arith)))
