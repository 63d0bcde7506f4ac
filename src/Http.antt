-- ===== src/Http.antt =====
-- `OrderAPI::performCurlRequest` of order_management.cpp: one request on a pooled handle, tried up
-- to three times. `performAsyncCurlRequest` runs it in a task and waits for the result.
pub mod Retry
mod Tests
use deribit_trading_system.Base.{
  ℕ, zero, suc, ◌-◌, Bool, true, false, List, [], ◌∷◌, ◌++◌, Option, none, some,
}
use deribit_trading_system.Text.{Bytes, txt}
use deribit_trading_system.Curl.{
  Curl, Setting, Settings, httpheader, url, writefunction, writedata, accept_encoding, deliver,
}
use deribit_trading_system.Connection.{Manager, set_opt, get_curl_handle, release_curl_handle}

-- What every request shares: the handles, and the world outside.
pub record Net (c : Curl) : Type 0 where
  pub manager : Manager
  pub world : c.World

-- The header list that `curl_slist_append` builds.
abbrev pub headers : Bytes → List Bytes
headers token = (txt "Authorization: Bearer " ++ token) ∷ txt "Content-Type: application/json" ∷ []

-- The calls of `curl_easy_setopt` for a request.
unfoldable pub prepare : Manager → ℕ → Bytes → Bytes → Manager
unfolding set_opt
prepare m handle u token =
    let m1 = set_opt m handle (httpheader (headers token)) in
    let m2 = set_opt m1 handle (url u) in
    let m3 = set_opt m2 handle writefunction in
    let m4 = set_opt m3 handle writedata in
    set_opt m4 handle (accept_encoding (txt "gzip, deflate"))

abbrev pub max_retries : ℕ
max_retries = 3

module _ (c : Curl) where
  open c use {World, perform}

  -- One round of the `do` loop: whether CURLE_OK came back, and the response so far.
  unfoldable pub attempt : Settings → World → Bytes → Bool × Bytes × World
  attempt s w response = let (good, pieces, w') = perform s w in (good, deliver pieces response, w')

  -- The `do` loop, with the rounds that may still follow this one.
  unfoldable pub retry : ℕ → Settings → World → Bytes → Bool × Bytes × World
  unfolding attempt
  retry zero s w response = attempt s w response
  retry (suc left) s w response =
      let (good, response', w') = attempt s w response in
      elim good [ true ↦ (true, response', w') | false ↦ retry left s w' response' ]

  -- With the handle in hand. The handle goes back before the result is looked at.
  unfoldable pub request_on : ℕ → Bytes → Bytes → Bytes → Net c → Bool × Bytes × Net c
  unfolding prepare
  request_on handle u token response n =
      let m = prepare n.manager handle u token in
      let (good, response', w) = retry (max_retries - 1) (m.settings handle) n.world response in
      (good, response', record { manager = release_curl_handle m handle; world = w })

  with_handle : Option ℕ × Manager → Bytes → Bytes → Bytes → World → Bool × Bytes × Net c
  with_handle (none, m) u token response w = (false, response, record { manager = m; world = w })
  with_handle (some handle, m) u token response w =
      request_on handle u token response (record { manager = m; world = w })

  unfoldable pub perform_curl_request : Bytes → Bytes → Bytes → Net c → Bool × Bytes × Net c
  unfolding with_handle
  perform_curl_request u token response n =
      with_handle (get_curl_handle n.manager) u token response n.world

  -- The task is started and waited for.
  unfoldable pub perform_async_curl_request : Bytes → Bytes → Bytes → Net c → Bool × Bytes × Net c
  perform_async_curl_request u token response n = perform_curl_request u token response n
