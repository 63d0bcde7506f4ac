-- ===== src/Token/Cache.antt =====
-- When `TokenManager::getAccessToken` fetches a token, and what it keeps.
use deribit_trading_system.Base.{
  map, All, List, ◌∷◌, ◌+◌, ◌*◌, ◌≤◌, ◌<◌, ◌≡◌, ◌≢◌, ◌⊎◌, inl, inr, refl, ap, ◌∙◌, ◌||◌, [], ltb,
  Bool-cases, arith,
}
use deribit_trading_system.Base.Outcome.{Outcome, ok, throws, aborts, hangs}
use deribit_trading_system.Text.{Bytes, is_empty}
use deribit_trading_system.Curl.{Curl}
use deribit_trading_system.Json.{Numbers, Nlohmann}
use deribit_trading_system.Token.{Clock, Session, fetch_access_token, store, get_access_token}

module _ {n : Numbers} (j : Nlohmann n) (c : Curl) (clock : Clock c) where
  abbrev pub S : Type 0
  S = Session j c clock

  abbrev pub get : S → Outcome Bytes × S
  get = get_access_token j c clock

  -- A call that fetches: the clock has been read, and the token is too old or missing.
  abbrev pub fetches : S → Outcome Bytes × S
  fetches s = store j c clock s.tokens (fetch_access_token j c clock s.tokens (clock.now s.world).1)

  abbrev pub IsStale : S → Type 0
  IsStale s = (s.tokens.expiry_time < (clock.now s.world).0) ⊎ (s.tokens.access_token ≡ [])

  pub get_stale : (s : S) → IsStale s → get s ≡ fetches s
  unfolding get_access_token
  get_stale s h = ground arith

  -- A token that is there and has not expired is returned with no request.
  pub get_cached :
      (s : S)
      → (clock.now s.world).0 ≤ s.tokens.expiry_time
      → s.tokens.access_token ≢ []
      → get s ≡ (ok s.tokens.access_token, record s { world = (clock.now s.world).1 })
  unfolding get_access_token
  get_cached s h k = ground arith

  abbrev pub Settled : S → Outcome Bytes × S → Type 0
  Settled s (ok token, s') = s'.tokens.access_token ≡ token
  Settled s (o, s') = s'.tokens ≡ s.tokens

  store-Settled : (s : S) (r : Outcome Bytes × c.World) → Settled s (store j c clock s.tokens r)
  unfolding store
  store-Settled s (ok token, w) = refl
  store-Settled s (throws e, w) = refl
  store-Settled s (aborts, w) = refl
  store-Settled s (hangs, w) = refl

  -- A call that returns leaves the token that it returned; one that ends otherwise leaves the
  -- token and the time that it found.
  pub get-Settled : (s : S) → Settled s (get s)
  unfolding get_access_token
  get-Settled s =
      elim (Bool-cases
        (ltb s.tokens.expiry_time (clock.now s.world).0 || is_empty s.tokens.access_token)) [
          | inl e ↦ rw (e, get_access_token) (store-Settled s _)
          | inr e ↦ rw (e, get_access_token) refl
        ]

  -- A call that got no token leaves the next one to fetch again, however little time has passed.
  pub get_retries : (s : S) → (get s).0 ≡ ok [] → let s' = (get s).1 in get s' ≡ fetches s'
  get_retries s e = get_stale (get s).1 (inr (settled_empty (get s) (get-Settled s) e))
    where
      settled_empty :
          (r : Outcome Bytes × S) → Settled s r → r.0 ≡ ok [] → r.1.tokens.access_token ≡ []
      settled_empty (ok t, s') h e' = ground arith
      settled_empty (throws x, s') h e' = cc
      settled_empty (aborts, s') h e' = cc
      settled_empty (hangs, s') h e' = cc

  -- What further calls return, and the worlds that they leave, when each finds the world that whatever
  -- happened in between has left.
  pub answers : S → List c.World → List (Outcome Bytes × c.World)
  answers s [] = []
  answers s (w ∷ later) =
      let (o, s') = get (record s { world = w }) in (o, s'.world) ∷ answers s' later

  answers_cached :
      (s : S) (later : List c.World)
      → All (λ w. (clock.now w).0 ≤ s.tokens.expiry_time) later
      → s.tokens.access_token ≢ []
      → answers s later ≡ map (λ w. (ok s.tokens.access_token, (clock.now w).1)) later
  unfolding answers
  answers_cached s [] soon some_token = refl
  answers_cached s (w ∷ later) soon some_token =
      let after = record s { world = (clock.now w).1 } in
      rw (get_cached (record s { world = w }) soon.0 some_token) (
        ap (◌∷◌ (ok s.tokens.access_token, (clock.now w).1))
          (answers_cached after later soon.1 some_token))

  -- A token that was fetched is the answer of every later call, however many, whose clock reads no
  -- more than 59 minutes past the fetch, and none of them does more than read the clock.
  pub get_lasts :
      (s : S) (token : Bytes) (w : c.World) (later : List c.World)
      → IsStale s
      → fetch_access_token j c clock s.tokens (clock.now s.world).1 ≡ (ok token, w)
      → token ≢ []
      → All (λ w'. (clock.now w').0 ≤ (clock.now w).0 + 59 * clock.minute) later
      → ((get s).0 ≡ ok token)
        × (answers (get s).1 later ≡ map (λ w'. (ok token, (clock.now w').1)) later)
  unfolding store
  get_lasts s token w later stale fetched some_token soon =
      let e : get s ≡ store j c clock s.tokens (ok token, w) =
        get_stale s stale ∙ ap (store j c clock s.tokens) fetched in
      rw e (refl, answers_cached (store j c clock s.tokens (ok token, w)).1 later soon some_token)
