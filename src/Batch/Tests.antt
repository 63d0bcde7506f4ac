-- ===== src/Batch/Tests.antt =====
-- `batchNetworkRequests` of order_management.cpp with two requests whose replies come in turns.
use mathlib.Core.Option
use deribit_trading_system.Base.{
  ℕ, zero, suc, ◌≡◌, refl, Bool, true, false, List, [], ◌∷◌, ◌++◌, some, get_elem?, arith, All, ltb,
  ◌&&◌, ◌^◌, length, if◌then◌else◌, Bool-cases, inl, inr,
}
use deribit_trading_system.Base.Outcome.{ok}
use deribit_trading_system.Text.{Bytes, txt}
use deribit_trading_system.Curl.{Curl, write_callback}
use deribit_trading_system.Batch.{Multi, deliver_all, open_all, drive, batch_network_requests}
use deribit_trading_system.Batch.Gathered.{
  IsLawful, IsDue, settles, Drives, pieces_of, batch_network_requests-Drives,
}

-- The world counts the rounds to come.
abbrev rounds : Curl
rounds = record {
  World = ℕ;
  global_init = λ w. (true, w);
  easy_init = λ w. (some w, w);
  easy_cleanup = λ h w. w;
  global_cleanup = λ w. w;
  perform = λ s w. (false, [], w);
}

abbrev answers : ℕ → Bool × Bool × List (ℕ × Bytes) × ℕ
answers zero = (true, false, (1, txt "z") ∷ [], 0)
answers (suc w) = (true, true, (0, txt "a") ∷ (1, txt "b") ∷ [], w)

-- libcurl delivers to the transfers that were added only.
abbrev for_some : ℕ → List (ℕ × Bytes) → List (ℕ × Bytes)
for_some n [] = []
for_some n ((i, piece) ∷ rest) =
    if ltb i n && ltb (length piece) (2 ^ 64) then (i, piece) ∷ for_some n rest else for_some n rest

abbrev multi : Multi rounds
multi = record {
  multi_init = λ w. w;
  multi_perform = λ ts w.
      let (good, running, pieces, w') = answers w in
      (good, running, for_some (length ts) pieces, w');
  multi_remove = λ h w. w;
  multi_cleanup = λ w. w;
  wild = λ i piece responses. [];
}

for_some-IsDue : (n : ℕ) (ds : List (ℕ × Bytes)) → All (IsDue n) (for_some n ds)
for_some-IsDue n [] = tt
for_some-IsDue n ((i, piece) ∷ rest) = elim (Bool-cases (ltb i n && ltb (length piece) (2 ^ 64))) [
  | inl t ↦ rw t (ground arith, for_some-IsDue n rest)
  | inr f ↦ rw f (for_some-IsDue n rest)
]

abbrev lawful : IsLawful rounds multi
lawful = record { due = λ ts w. for_some-IsDue (length ts) (answers w).2 }

abbrev urls : List Bytes
urls = txt "u" ∷ txt "v" ∷ []

two_responses :
    (batch_network_requests rounds multi 5 urls (txt "t") ([] ∷ [] ∷ []) 2).0
    ≡ ok (true, txt "aa" ∷ txt "bbz" ∷ [])
unfolding batch_network_requests open_all drive deliver_all write_callback
two_responses = refl

settled :
    let (ts, w') = open_all rounds multi urls (txt "t") 2 in settles rounds multi 5 ts w' ≡ true
unfolding open_all settles
settled = refl

batch_network_requests-Drives_example :
    (ds : List (ℕ × Bytes)) × (end : ℕ) × (responses' : List Bytes) × Drives rounds multi
      (open_all rounds multi urls (txt "t") 2).0
      (open_all rounds multi urls (txt "t") 2).1
      ds
      end
    × ((batch_network_requests rounds multi 5 urls (txt "t") ([] ∷ [] ∷ []) 2).0
        ≡ ok (true, responses'))
    × ((i : ℕ)
        → get_elem? responses' i
          ≡ Option.map (λ r. r ++ pieces_of i ds) (get_elem? ([] ∷ [] ∷ []) i))
batch_network_requests-Drives_example =
    batch_network_requests-Drives rounds multi lawful 5 urls (txt "t") ([] ∷ [] ∷ []) 2
      (omega arith) settled
