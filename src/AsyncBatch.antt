-- ===== src/AsyncBatch.antt =====
-- `OrderAPI::performBatchAsyncCurlRequest` of order_management.cpp: one thread for each address, which
-- runs `performCurlRequest` and appends its response to a shared vector. A turn is a call that holds
-- the mutex of the handle pool, an attempt, or one of the two parts of the append, which nothing guards:
-- it sees the vector as it is, and then leaves what it saw with the response behind it.
pub mod Shares
pub mod Turns
mod Tests
use deribit_trading_system.Base.{
  ℕ, zero, suc, ◌-◌, Bool, true, false, List, [], ◌∷◌, ◌++◌, Option, none, some, ◌&&◌, map,
  get_elem?, set,
}
use deribit_trading_system.Text.{Bytes}
use deribit_trading_system.Curl.{Curl}
use deribit_trading_system.Connection.{Manager, get_curl_handle, release_curl_handle}
use deribit_trading_system.Http.{Net, prepare, attempt, max_retries}

-- Where the thread of a request stands.
pub data Request : Type 0 where
  queued : Bytes → Request
  attempting : ℕ → ℕ → Bytes → Request
  releasing : ℕ → Bool → Bytes → Request
  pushing : Bool → Bytes → Request
  appending : Bool → Bytes → List Bytes → Request
  finished : Bool → Bytes → Request

module _ (c : Curl) where
  pub record Batch : Type 0 where
    pub net : Net c
    pub requests : List Request
    pub responses : List Bytes

  abbrev Turned : Type 0
  Turned = Request × Net c × List Bytes

  -- With a handle, its options are set at once: no other thread uses it.
  taken : Bytes → Bytes → Option ℕ × Manager → c.World → List Bytes → Turned
  taken u token (none, m) w rs = (pushing false [], record { manager = m; world = w }, rs)
  taken u token (some handle, m) w rs = (
    attempting handle (max_retries - 1) [],
    record { manager = prepare m handle u token; world = w },
    rs,
  )

  -- After an attempt: released at a success or after the last, and retried otherwise.
  tried : ℕ → ℕ → Bool × Bytes × c.World → Manager → List Bytes → Turned
  tried handle left (true, response, w) m rs =
      (releasing handle true response, record { manager = m; world = w }, rs)
  tried handle zero (false, response, w) m rs =
      (releasing handle false response, record { manager = m; world = w }, rs)
  tried handle (suc left) (false, response, w) m rs =
      (attempting handle left response, record { manager = m; world = w }, rs)

  unfoldable pub turn : Bytes → Request → Net c → List Bytes → Turned
  unfolding taken tried
  turn token (queued u) n rs = taken u token (get_curl_handle n.manager) n.world rs
  turn token (attempting handle left response) n rs =
      tried handle left (attempt c (n.manager.settings handle) n.world response) n.manager rs
  turn token (releasing handle good response) n rs =
      (pushing good response, record n { manager = release_curl_handle n.manager handle }, rs)
  turn token (pushing good response) n rs = (appending good response rs, n, rs)
  turn token (appending good response seen) n rs =
      (finished good response, n, seen ++ (response ∷ []))
  turn token (finished good response) n rs = (finished good response, n, rs)

  moved : ℕ → List Request → Turned → Batch
  moved i requests (r, n, rs) = record { net = n; requests = set requests i r; responses = rs }

  -- Thread `i` takes a turn.
  unfoldable pub step : Bytes → ℕ → Batch → Batch
  unfolding moved
  step token i b = elim (get_elem? b.requests i) [
    | none ↦ b
    | some r ↦ moved i b.requests (turn token r b.net b.responses)
  ]

  unfoldable pub run : Bytes → List ℕ → Batch → Batch
  run token [] b = b
  run token (i ∷ turns) b = run token turns (step token i b)

  -- The futures that are launched.
  abbrev pub launch : List Bytes → Net c → List Bytes → Batch
  launch urls n responses = record { net = n; requests = map queued urls; responses = responses }

-- `allSuccessful`, once every future is ready.
abbrev pub all_successful : List Request → Option Bool
all_successful [] = some true
all_successful (finished good response ∷ rest) = elim (all_successful rest) [
  | none ↦ none
  | some all ↦ some (good && all)
]
all_successful (r ∷ rest) = none
