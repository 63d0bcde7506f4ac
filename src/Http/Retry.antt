-- ===== src/Http/Retry.antt =====
-- Which attempts `performCurlRequest` makes, what it gathers, and what becomes of the handle.
use deribit_trading_system.Base.{
  ℕ, zero, suc, ◌≤◌, ◌<◌, ◌≡◌, ◌⊎◌, inl, inr, refl, sym, ap, ◌∙◌, Bool, true, false, List, [], ◌∷◌,
  Bool-cases, arith, subst,
}
use deribit_trading_system.Text.{Bytes, txt}
use deribit_trading_system.Curl.{
  Curl, Settings, httpheader, url, writefunction, writedata, accept_encoding, deliver,
}
use deribit_trading_system.Connection.{Manager, release_curl_handle}
use deribit_trading_system.Connection.Handles.{get_curl_handle-some, get_curl_handle-none}
use deribit_trading_system.Http.{
  Net, prepare, headers, attempt, retry, request_on, perform_curl_request, with_handle,
}

module _ (c : Curl) (s : Settings) where
  -- The world after so many transfers, and the pieces that those delivered.
  pub world_after : ℕ → c.World → c.World
  world_after zero w = w
  world_after (suc k) w = world_after k (c.perform s w).2

  pub gathered : ℕ → c.World → Bytes → Bytes
  gathered zero w response = response
  gathered (suc k) w response = gathered k (c.perform s w).2 (deliver (c.perform s w).1 response)

  abbrev pub succeeds : ℕ → c.World → Bool
  succeeds k w = (c.perform s (world_after k w)).0

  -- Attempt `k` is the last, and all before it failed.
  pub record Stops (left k : ℕ) (w : c.World) (response : Bytes) (r : Bool × Bytes × c.World)
      : Type 0 where
    pub within : k ≤ left
    pub failed_before : (j : ℕ) → j < k → succeeds j w ≡ false
    pub result : r.0 ≡ succeeds k w
    pub gave_up : (r.0 ≡ true) ⊎ (k ≡ left)
    pub response_is : r.1 ≡ gathered (suc k) w response
    pub world_is : r.2 ≡ world_after (suc k) w

  before_suc :
      (k : ℕ) (w : c.World)
      → (c.perform s w).0 ≡ false
      → ((j : ℕ) → j < k → succeeds j (c.perform s w).2 ≡ false)
      → (j : ℕ) → j < suc k
      → succeeds j w ≡ false
  unfolding world_after
  before_suc k w e h zero lt = e
  before_suc k w e h (suc j) lt = h j (omega arith)

  -- The loop stops at the first success or with the last attempt allowed.
  pub retry-Stops :
      (left : ℕ) (w : c.World) (response : Bytes)
      → (k : ℕ) × Stops left k w response (retry c left s w response)
  unfolding retry attempt world_after gathered
  retry-Stops zero w r = (
    0,
    record {
      within = omega arith;
      failed_before = λ j lt. absurd (omega arith);
      result = refl;
      gave_up = inr refl;
      response_is = refl;
      world_is = refl;
    },
  )
  retry-Stops (suc left) w r = elim (Bool-cases (c.perform s w).0) [
    | inl e ↦ (
      0,
      rw (e, retry)
          (record {
            within = omega arith;
            failed_before = λ j lt. absurd (omega arith);
            result = sym e;
            gave_up = inl refl;
            response_is = refl;
            world_is = refl;
          }),
    )
    | inr e ↦
        let (k, t) = retry-Stops left (c.perform s w).2 (deliver (c.perform s w).1 r) in
        (
          suc k,
          rw (e, retry)
              (record {
                within = omega (arith, t.within);
                failed_before = before_suc k w e t.failed_before;
                result = t.result;
                gave_up = elim t.gave_up [ inl good ↦ inl good | inr e' ↦ inr (ap suc e') ];
                response_is = t.response_is;
                world_is = t.world_is;
              }),
        )
  ]

-- The options of a handle when a request on it starts.
abbrev pub request_settings : Bytes → Bytes → Settings → Settings
request_settings u token s =
    accept_encoding (txt "gzip, deflate")
    ∷ writedata
    ∷ writefunction
    ∷ url u
    ∷ httpheader (headers token)
    ∷ s

pub prepare-settings :
    (m : Manager) (h : ℕ) (u token : Bytes)
    → (prepare m h u token).settings h ≡ request_settings u token (m.settings h)
unfolding prepare
prepare-settings m h u token = ground arith

module _ (c : Curl) (u token response : Bytes) where
  -- The handle is back on top, its options are those of the request, and the loop has stopped.
  record Completes (h : ℕ) (rest pool : List ℕ) (s : Settings) (w : c.World)
      (r : Bool × Bytes × Net c) : Type 0 where
    attempts : ℕ
    stops : Stops c (request_settings u token s) 2 attempts w response (r.0, r.1, r.2.world)
    free_is : r.2.manager.free_handles ≡ h ∷ rest
    pool_is : r.2.manager.curl_pool ≡ pool
    settings_is : r.2.manager.settings h ≡ request_settings u token s

  request_on-Completes :
      (h : ℕ) (n : Net c)
      → Completes h n.manager.free_handles n.manager.curl_pool
          (n.manager.settings h)
          n.world
          (request_on c h u token response n)
  unfolding request_on prepare release_curl_handle
  request_on-Completes h n =
      let m = prepare n.manager h u token in
      let p = prepare-settings n.manager h u token in
      let (k, t) = retry-Stops c (m.settings h) 2 n.world response in
      record {
        attempts = k;
        stops =
            subst (λ s. Stops c s 2 k n.world response (retry c 2 (m.settings h) n.world response))
              p t;
        free_is = refl;
        pool_is = refl;
        settings_is = p;
      }

  -- With a handle free, the request is the retry loop on the options of that handle, with this
  -- request's set over them, and the handle is back in its place afterwards, whatever the result.
  pub perform_curl_request-Stops :
      (n : Net c) (h : ℕ) (rest : List ℕ)
      → n.manager.free_handles ≡ h ∷ rest
      → let (good, response', n') = perform_curl_request c u token response n in
        let s = request_settings u token (n.manager.settings h) in
        (k : ℕ) × Stops c s 2 k n.world response (good, response', n'.world)
        × (n'.manager.free_handles ≡ n.manager.free_handles)
        × (n'.manager.curl_pool ≡ n.manager.curl_pool)
        × (n'.manager.settings h ≡ s)
  unfolding perform_curl_request
  perform_curl_request-Stops n h rest e =
      let n0 : Net c = record n { manager = record n.manager { free_handles = rest } } in
      let done =
        subst
          (λ p.
            Completes h rest n.manager.curl_pool (n.manager.settings h) n.world
              (with_handle c p u token response n.world))
          (sym (get_curl_handle-some n.manager h rest e)) (request_on-Completes h n0) in
      (done.attempts, done.stops, done.free_is ∙ sym e, done.pool_is, done.settings_is)

  -- With no handle free nothing is sent, and nothing changes.
  pub perform_curl_request_starved :
      (n : Net c)
      → n.manager.free_handles ≡ []
      → perform_curl_request c u token response n ≡ (false, response, n)
  unfolding perform_curl_request
  perform_curl_request_starved n e =
      ap (λ p. with_handle c p u token response n.world) (get_curl_handle-none n.manager e)
