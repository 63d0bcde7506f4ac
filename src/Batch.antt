-- ===== src/Batch.antt =====
-- `OrderAPI::batchNetworkRequests` of order_management.cpp: many requests driven together by the multi
-- interface of libcurl.
pub mod Gathered
mod Tests
use deribit_trading_system.Base.{
  ℕ, zero, suc, Bool, true, false, List, [], ◌∷◌, ◌++◌, Option, none, some, if◌then◌else◌,
  get_elem?, set, length,
}
use deribit_trading_system.Base.Outcome.{Outcome, ok, hangs}
use deribit_trading_system.Text.{Bytes}
use deribit_trading_system.Curl.{
  Curl, Settings, httpheader, url, writefunction, writedata, write_callback,
}
use deribit_trading_system.Http.{headers}

-- An easy handle of a batch, null where none was given, with its options.
pub record Transfer : Type 0 where
  pub handle : Option ℕ
  pub settings : Settings

-- The multi interface. A call of `curl_multi_perform` tells whether it returned CURLM_OK, whether
-- transfers still run, and which pieces went to which transfer. `wild` is what comes of a piece that the
-- write callback gets for a response which is not there.
pub record Multi (c : Curl) : Type 0 where
  pub multi_init : c.World → c.World
  pub multi_perform : List Transfer → c.World → Bool × Bool × List (ℕ × Bytes) × c.World
  pub multi_remove : Option ℕ → c.World → c.World
  pub multi_cleanup : c.World → c.World
  pub wild : ℕ → Bytes → List Bytes → List Bytes

-- The options of a handle, the last one first.
abbrev pub batch_settings : Bytes → Bytes → Settings
batch_settings u token = writedata ∷ writefunction ∷ httpheader (headers token) ∷ url u ∷ []

-- The write callback on `responses[i]`, which nothing guards.
append_piece :
    (ℕ → Bytes → List Bytes → List Bytes) → Option Bytes → ℕ → Bytes → List Bytes → List Bytes
append_piece wild none i piece responses = wild i piece responses
append_piece wild (some response) i piece responses =
    set responses i (write_callback piece 1 (length piece) response).1

unfoldable pub deliver_all :
    (ℕ → Bytes → List Bytes → List Bytes) → List (ℕ × Bytes) → List Bytes → List Bytes
unfolding append_piece
deliver_all wild [] responses = responses
deliver_all wild ((i, piece) ∷ rest) responses =
    deliver_all wild rest (append_piece wild (get_elem? responses i) i piece responses)

module _ (c : Curl) (m : Multi c) where
  -- The first loop.
  unfoldable pub open_all : List Bytes → Bytes → c.World → List Transfer × c.World
  open_all [] token w = ([], w)
  open_all (u ∷ urls) token w =
      let (handle, w1) = c.easy_init w in
      let (rest, w2) = open_all urls token w1 in
      (record { handle = handle; settings = batch_settings u token } ∷ rest, w2)

  -- The `do` loop: it ends when nothing runs any more, or at an error, which is only printed.
  unfoldable pub drive : ℕ → List Transfer → List Bytes → c.World → Outcome (List Bytes) × c.World
  drive zero transfers responses w = (hangs, w)
  drive (suc fuel) transfers responses w =
      let (good, running, pieces, w') = m.multi_perform transfers w in
      let responses' = deliver_all m.wild pieces responses in
      elim good [
        | false ↦ (ok responses', w')
        | true ↦ elim running [
          | false ↦ (ok responses', w')
          | true ↦ drive fuel transfers responses' w'
        ]
      ]

  null_cleanup : Option ℕ → c.World → c.World
  null_cleanup none w = w
  null_cleanup (some handle) w = c.easy_cleanup handle w

  -- The loop that takes the handles out again.
  unfoldable pub close_all : List Transfer → c.World → c.World
  unfolding null_cleanup
  close_all [] w = w
  close_all (t ∷ transfers) w =
      close_all transfers (null_cleanup t.handle (m.multi_remove t.handle w))

  returned : List Transfer → Outcome (List Bytes) × c.World → Outcome (Bool × List Bytes) × c.World
  returned transfers (ok responses, w) =
      (ok (true, responses), m.multi_cleanup (close_all transfers w))
  returned transfers (o, w) = (hangs, w)

  unfoldable pub batch_network_requests :
      ℕ → List Bytes → Bytes → List Bytes → c.World → Outcome (Bool × List Bytes) × c.World
  unfolding returned
  batch_network_requests fuel urls token responses w =
      let (transfers, w') = open_all urls token (m.multi_init w) in
      returned transfers (drive fuel transfers responses w')
