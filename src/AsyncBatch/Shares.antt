-- ===== src/AsyncBatch/Shares.antt =====
-- What the threads of `performBatchAsyncCurlRequest` in order_management.cpp share: the handles.
use deribit_trading_system.Base.{
  ℕ, zero, suc, ◌+◌, ◌≡◌, refl, ◌∙◌, Bool, true, false, List, [], ◌∷◌, some, ◌==◌, map, get_elem?,
  set, length, length-set, Option-cases, arith, inl, inr,
}
use deribit_trading_system.Base.Times.{one, times}
use deribit_trading_system.Text.{Bytes}
use deribit_trading_system.Curl.{Curl}
use deribit_trading_system.Connection.{Manager, release_curl_handle}
use deribit_trading_system.Connection.Handles.{get_curl_handle-some, get_curl_handle-none}
use deribit_trading_system.Http.{Net, prepare, attempt}
use deribit_trading_system.AsyncBatch.{
  Request, queued, attempting, releasing, pushing, appending, finished, Batch, turn, taken, tried,
  moved, step, run, launch,
}

-- A measure of the requests, added up.
abbrev pub total : (Request → ℕ) → List Request → ℕ
total f [] = 0
total f (r ∷ rs) = f r + total f rs

total-set :
    (f : Request → ℕ) (rs : List Request) (i : ℕ) (r r' : Request)
    → get_elem? rs i ≡ some r
    → total f (set rs i r') + f r ≡ total f rs + f r'
total-set f [] i r r' e = cc
total-set f (x ∷ rs) zero r r' e = let s : x ≡ r = cc in rw s (omega arith)
total-set f (x ∷ rs) (suc i) r r' e = omega (arith, total-set f rs i r r' e)

-- How often a request holds a handle.
abbrev pub holds : ℕ → Request → ℕ
holds h (attempting k left response) = one (k == h)
holds h (releasing k good response) = one (k == h)
holds h (queued u) = 0
holds h (pushing good response) = 0
holds h (appending good response seen) = 0
holds h (finished good response) = 0

pub total-queued :
    (f : Request → ℕ) (urls : List Bytes)
    → ((u : Bytes) → f (queued u) ≡ 0)
    → total f (map queued urls) ≡ 0
total-queued f [] z = refl
total-queued f (u ∷ urls) z = omega (arith, z u, total-queued f urls z)

module _ (c : Curl) (token : Bytes) where
  free-prepare :
      (m : Manager) (h : ℕ) (u : Bytes) → (prepare m h u token).free_handles ≡ m.free_handles
  unfolding prepare
  free-prepare m h u = refl

  -- A turn leaves each handle as often free or held as it was.
  abbrev IsFair : ℕ → Request → Net c → Request × Net c × List Bytes → Type 0
  IsFair h q n t =
      times h t.1.manager.free_handles + holds h t.0 ≡ times h n.manager.free_handles + holds h q

  turn-IsFair :
      (h : ℕ) (q : Request) (n : Net c) (rs : List Bytes) → IsFair h q n (turn c token q n rs)
  unfolding turn taken tried release_curl_handle
  turn-IsFair h (queued u) n rs = go n.manager.free_handles refl
    where
      go :
          (free : List ℕ)
          → n.manager.free_handles ≡ free
          → IsFair h (queued u) n (turn c token (queued u) n rs)
      go [] e = rw (get_curl_handle-none n.manager e, turn) (omega arith)
      go (k ∷ rest) e =
          rw (get_curl_handle-some n.manager k rest e, turn)
            (rw (free-prepare (record n.manager { free_handles = rest }) k u, e) (omega arith))
  turn-IsFair h (attempting k left response) n rs =
      let (good, response', w) = attempt c (n.manager.settings k) n.world response in
      go good response' w left
    where
      go :
          (good : Bool) (response' : Bytes) (w : c.World) (left : ℕ)
          → IsFair h
              (attempting k left response)
              n
              (tried c k left (good, response', w) n.manager rs)
      go true response' w left = refl
      go false response' w zero = refl
      go false response' w (suc left) = refl
  turn-IsFair h (releasing k good response) n rs = omega arith
  turn-IsFair h (pushing good response) n rs = refl
  turn-IsFair h (appending good response seen) n rs = refl
  turn-IsFair h (finished good response) n rs = refl

  -- The sum over all requests that no turn changes.
  pub record Shared (h : ℕ) (b b' : Batch c) : Type 0 where
    pub handles :
        times h b'.net.manager.free_handles + total (holds h) b'.requests
        ≡ times h b.net.manager.free_handles + total (holds h) b.requests
    pub as_many : length b'.requests ≡ length b.requests

  moved-Shared :
      (h : ℕ) (i : ℕ) (q : Request) (b : Batch c) (t : Request × Net c × List Bytes)
      → get_elem? b.requests i ≡ some q
      → IsFair h q b.net t
      → Shared h b (moved c i b.requests t)
  unfolding moved
  moved-Shared h i q b t e f = record {
    handles = omega (arith, f, total-set (holds h) b.requests i q t.0 e);
    as_many = length-set b.requests i t.0;
  }

  step-Shared : (h : ℕ) (i : ℕ) (b : Batch c) → Shared h b (step c token i b)
  unfolding step
  step-Shared h i b = elim (Option-cases (get_elem? b.requests i)) [
    | inl e ↦ rw (e, step) (record { handles = refl; as_many = refl })
    | inr (q, e) ↦ rw (e, step) (moved-Shared h i q b _ e (turn-IsFair h q b.net b.responses))
  ]

  pub run-Shared : (h : ℕ) (turns : List ℕ) (b : Batch c) → Shared h b (run c token turns b)
  unfolding run
  run-Shared h [] b = record { handles = refl; as_many = refl }
  run-Shared h (i ∷ turns) b =
      let s = step-Shared h i b in
      let t = run-Shared h turns (step c token i b) in
      record { handles = t.handles ∙ s.handles; as_many = t.as_many ∙ s.as_many }

  -- However the threads of a batch interleave, each handle is as often free or in the hands of a
  -- request as it was free at the start.
  pub run-launch :
      (urls : List Bytes) (n : Net c) (responses : List Bytes) (turns : List ℕ) (h : ℕ)
      → let b = run c token turns (launch c urls n responses) in
        times h b.net.manager.free_handles + total (holds h) b.requests
        ≡ times h n.manager.free_handles
  run-launch urls n responses turns h =
      let s = run-Shared h turns (launch c urls n responses) in
      omega (arith, s.handles, total-queued (holds h) urls (λ u. refl))
