-- ===== src/Connection.antt =====
-- `CurlConnectionManager` of CurlConnectionManager.h and .cpp: a pool of easy handles. The mutex
-- makes each call one step. The head of a list is the back of its vector.
pub mod Handles
mod Tests
use deribit_trading_system.Base.{
  ℕ, zero, suc, Bool, true, false, List, [], ◌∷◌, Option, none, some, ◌==◌, if◌then◌else◌,
}
use deribit_trading_system.Curl.{
  Setting, Settings, Curl, verbose, tcp_nodelay, timeout_ms, connecttimeout_ms, followlocation,
  maxredirs, dns_cache_timeout, pipewait, ssl_verifypeer, forbid_reuse, http_version, timeout,
  expect_100_timeout_ms, headeropt, header,
}
use deribit_trading_system.Pool.{MemoryPool}
use deribit_trading_system.Pool

-- `settings` is what has been set on each easy handle.
pub record Manager : Type 0 where
  pub pool_size : ℕ
  pub curl_pool : List ℕ
  pub free_handles : List ℕ
  pub buffer_pool : MemoryPool
  pub settings : ℕ → Settings

abbrev pub update : (ℕ → Settings) → ℕ → Settings → ℕ → Settings
update f h s h' = if h == h' then s else f h'

-- `curl_easy_setopt`
unfoldable pub set_opt : Manager → ℕ → Setting → Manager
set_opt m handle o = record m { settings = update m.settings handle (o ∷ m.settings handle) }

-- `curl_easy_reset`
unfoldable pub reset : Manager → ℕ → Manager
reset m handle = record m { settings = update m.settings handle [] }

set_opts : Manager → ℕ → List Setting → Manager
set_opts m handle [] = m
set_opts m handle (o ∷ os) = set_opts (set_opt m handle o) handle os

-- The calls of `setupCurlOptions`, in their order. CURL_HTTP_VERSION_2_0 is 3, CURLHEADER_UNIFIED 0.
abbrev pub setup : List Setting
setup =
    verbose 0
    ∷ tcp_nodelay 1
    ∷ timeout_ms 2000
    ∷ connecttimeout_ms 1000
    ∷ followlocation 1
    ∷ maxredirs 3
    ∷ dns_cache_timeout 3600
    ∷ pipewait 1
    ∷ ssl_verifypeer 1
    ∷ forbid_reuse 0
    ∷ http_version 3
    ∷ timeout 2
    ∷ expect_100_timeout_ms 500
    ∷ headeropt 0
    ∷ header 1
    ∷ []

unfoldable pub setup_curl_options : Manager → ℕ → Manager
unfolding set_opts reset set_opt
setup_curl_options m handle = set_opts (reset m handle) handle setup

module _ (c : Curl) where
  open c use {World, global_init, easy_init, easy_cleanup, global_cleanup}

  add_handle : Manager → Option ℕ → Manager
  add_handle m none = m
  add_handle m (some handle) =
      let m' = setup_curl_options m handle in
      record m' { curl_pool = handle ∷ m'.curl_pool; free_handles = handle ∷ m'.free_handles }

  -- `initializePool`, with the rounds that are left.
  unfoldable pub initialize_pool : ℕ → Manager → World → Manager × World
  unfolding add_handle
  initialize_pool zero m w = (m, w)
  initialize_pool (suc left) m w =
      let (handle, w') = easy_init w in initialize_pool left (add_handle m handle) w'

  -- The constructor. The buffer pool lies at the address that its allocation got.
  unfoldable pub init : ℕ → ℕ → World → Manager × World
  init pool_size memory w =
      let m : Manager = record {
        pool_size = pool_size;
        curl_pool = [];
        free_handles = [];
        buffer_pool = Pool.init memory 1024 100;
        settings = λ _. [];
      } in
      let (good, w') = global_init w in
      elim good [ true ↦ initialize_pool pool_size m w' | false ↦ (m, w') ]

  -- The loop of the destructor, from the front of the vector to its back.
  cleanup_handles : List ℕ → World → World
  cleanup_handles [] w = w
  cleanup_handles (handle ∷ older) w = easy_cleanup handle (cleanup_handles older w)

  -- The destructor.
  unfoldable pub destroy : Manager → World → World
  unfolding cleanup_handles
  destroy m w = global_cleanup (cleanup_handles m.curl_pool w)

take_back : Manager → List ℕ → Option ℕ × Manager
take_back m [] = (none, m)
take_back m (handle ∷ rest) = (some handle, record m { free_handles = rest })

unfoldable pub get_curl_handle : Manager → Option ℕ × Manager
unfolding take_back
get_curl_handle m = take_back m m.free_handles

unfoldable pub release_curl_handle : Manager → ℕ → Manager
release_curl_handle m handle = record m { free_handles = handle ∷ m.free_handles }
