-- ===== src/Batch/Gathered.antt =====
-- What `batchNetworkRequests` of order_management.cpp leaves in the responses.
use mathlib.Core.List.{append-nil, append_assoc}
use mathlib.Core.Option
use native.Mathlib.Decide.{ℕ_discrete}
use deribit_trading_system.Base.{
  ℕ, zero, suc, ◌^◌, ◌<◌, ◌≤◌, Bool, length-set, ◌≡◌, ◌≢◌, ◌⊎◌, refl, sym, ap, ◌∙◌, true, false,
  List, [], ◌∷◌, ◌++◌, none, some, ◌==◌, ==_iff, if◌then◌else◌, Bool-cases, Option-cases, All,
  get_elem?, get_elem?-set_self, get_elem?-set_ne, set, length, arith, inl, inr,
}
use deribit_trading_system.Base.Outcome.{ok}
use deribit_trading_system.Text.{Bytes}
use deribit_trading_system.Curl.{Curl}
use deribit_trading_system.Curl.Callback.{write_callback_keeps}
use deribit_trading_system.Batch.{
  Transfer, Multi, append_piece, deliver_all, open_all, drive, returned, batch_network_requests,
}

-- The pieces that went to transfer `i`, in order.
abbrev pub pieces_of : ℕ → List (ℕ × Bytes) → Bytes
pieces_of i [] = []
pieces_of i ((j, piece) ∷ rest) = if j == i then piece ++ pieces_of i rest else pieces_of i rest

-- A piece for one of `n` transfers, below the size of the address space.
abbrev pub IsDue : ℕ → ℕ × Bytes → Type 0
IsDue n (i, piece) = (i < n) × (length piece < 2 ^ 64)

get_elem?-there : (rs : List Bytes) (j : ℕ) → j < length rs → get_elem? rs j ≢ none
get_elem?-there [] j h k = omega arith
get_elem?-there (x ∷ rs) zero h k = cc
get_elem?-there (x ∷ rs) (suc j) h k = get_elem?-there rs j (omega arith) k

in_range : (rs : List Bytes) (j : ℕ) (r : Bytes) → get_elem? rs j ≡ some r → j < length rs
in_range [] j r k = cc
in_range (x ∷ rs) zero r k = omega arith
in_range (x ∷ rs) (suc j) r k = omega (arith, in_range rs j r k)

module _ (wild : ℕ → Bytes → List Bytes → List Bytes) (n : ℕ) where
  -- Each response is what it was, with the pieces of its own transfer behind it.
  pub deliver_all-pieces_of :
      (ds : List (ℕ × Bytes)) (responses : List Bytes) (i : ℕ) (r : Bytes)
      → n ≤ length responses
      → All (IsDue n) ds
      → get_elem? responses i ≡ some r
      → get_elem? (deliver_all wild ds responses) i ≡ some (r ++ pieces_of i ds)
  unfolding deliver_all append_piece
  deliver_all-pieces_of [] responses i r l h e = e ∙ ap some (sym (append-nil r))
  deliver_all-pieces_of ((j, piece) ∷ rest) responses i r l h e = elim (ℕ_discrete j i) [
    | yes s ↦
        let here : get_elem? responses j ≡ some r = ap (get_elem? responses) s ∙ e in
        let same : (j == i) ≡ true = (==_iff j i).1 s in
        rw (here, same, deliver_all, ap (λ p. p.1) (write_callback_keeps piece r h.0.1))
          (deliver_all-pieces_of rest (set responses j (r ++ piece)) i (r ++ piece)
              (omega (arith, length-set responses j (r ++ piece))) h.1
              (ap (get_elem? (set responses j (r ++ piece))) (sym s)
                ∙ get_elem?-set_self responses j (r ++ piece) (in_range responses j r here))
            ∙ ap some (append_assoc r piece (pieces_of i rest)))
    | no ne ↦
        let other : (j == i) ≡ false = ground arith in
        elim (Option-cases (get_elem? responses j)) [
          | inl k ↦ absurd (get_elem?-there responses j (omega (arith, h.0.0)) k)
          | inr (q, k) ↦
              rw (k, other, deliver_all)
                (deliver_all-pieces_of rest _ i r (omega (arith, length-set responses j _)) h.1
                  (get_elem?-set_ne responses _ ne ∙ e))
        ]
  ]

  deliver_all-none :
      (ds : List (ℕ × Bytes)) (responses : List Bytes) (i : ℕ)
      → n ≤ length responses
      → All (IsDue n) ds
      → get_elem? responses i ≡ none
      → get_elem? (deliver_all wild ds responses) i ≡ none
  unfolding deliver_all append_piece
  deliver_all-none [] responses i l h e = e
  deliver_all-none ((j, piece) ∷ rest) responses i l h e =
      elim (Option-cases (get_elem? responses j)) [
        | inl k ↦ absurd (get_elem?-there responses j (omega (arith, h.0.0)) k)
        | inr (q, k) ↦
            let ne : j ≢ i = λ s. cc (e, k, ap (get_elem? responses) s) in
            rw (k, deliver_all)
              (deliver_all-none rest _ i (omega (arith, length-set responses j _)) h.1
                (get_elem?-set_ne responses _ ne ∙ e))
      ]

deliver_all-append :
    (wild : ℕ → Bytes → List Bytes → List Bytes) (ds es : List (ℕ × Bytes)) (responses : List Bytes)
    → deliver_all wild (ds ++ es) responses ≡ deliver_all wild es (deliver_all wild ds responses)
unfolding deliver_all
deliver_all-append wild [] es responses = refl
deliver_all-append wild ((i, piece) ∷ ds) es responses = deliver_all-append wild ds es _

All-append :
    (n : ℕ) (ds es : List (ℕ × Bytes))
    → All (IsDue n) ds
    → All (IsDue n) es
    → All (IsDue n) (ds ++ es)
All-append n [] es h h' = h'
All-append n (d ∷ ds) es h h' = (h.0, All-append n ds es h.1 h')

module _ (c : Curl) (m : Multi c) where
  -- What libcurl's documentation says: the write callback of a transfer that was added gets pieces
  -- below the size of the address space.
  pub record IsLawful : Type 0 where
    pub due : (ts : List Transfer) (w : c.World) → All (IsDue (length ts)) (m.multi_perform ts w).2

  -- Whether one of so many calls fails or finds that nothing runs any more: up to the other side.
  unfoldable pub settles : ℕ → List Transfer → c.World → Bool
  settles zero ts w = false
  settles (suc calls) ts w =
      let (good, running, pieces, w') = m.multi_perform ts w in
      let rest = settles calls ts w' in if good then (if running then rest else true) else true

  -- The pieces of the rounds up to one that fails or after which nothing runs.
  pub data Drives (ts : List Transfer) : c.World → List (ℕ × Bytes) → c.World → Type 0 where
    stops :
        (w : c.World)
        → ((m.multi_perform ts w).0 ≡ false) ⊎ ((m.multi_perform ts w).1 ≡ false)
        → Drives ts w (m.multi_perform ts w).2 (m.multi_perform ts w).3
    goes_on :
        (w end : c.World) (rest : List (ℕ × Bytes))
        → (m.multi_perform ts w).0 ≡ true
        → (m.multi_perform ts w).1 ≡ true
        → Drives ts (m.multi_perform ts w).3 rest end
        → Drives ts w ((m.multi_perform ts w).2 ++ rest) end

  open_all-length :
      (urls : List Bytes) (token : Bytes) (w : c.World)
      → length (open_all c m urls token w).0 ≡ length urls
  unfolding open_all
  open_all-length [] token w = refl
  open_all-length (u ∷ urls) token w = ap suc (open_all-length urls token (c.easy_init w).1)

  drive-Drives :
      (law : IsLawful) (fuel : ℕ) (ts : List Transfer) (responses : List Bytes) (w : c.World)
      → settles fuel ts w ≡ true
      → (ds : List (ℕ × Bytes)) × (end : c.World) × Drives ts w ds end
        × All (IsDue (length ts)) ds
        × (drive c m fuel ts responses w ≡ (ok (deliver_all m.wild ds responses), end))
  unfolding drive settles
  drive-Drives law zero ts responses w h = cc
  drive-Drives law (suc fuel) ts responses w h = elim (Bool-cases (m.multi_perform ts w).0) [
    | inr b ↦ (_, _, stops w (inl b), law.due ts w, rw (b, drive) refl)
    | inl b ↦ elim (Bool-cases (m.multi_perform ts w).1) [
      | inr b' ↦ (_, _, stops w (inr b'), law.due ts w, rw (b, drive) (rw b' refl))
      | inl b' ↦
          let pieces = (m.multi_perform ts w).2 in
          let (ds, end, rounds, small, e) =
            drive-Drives law fuel ts (deliver_all m.wild pieces responses) (m.multi_perform ts w).3
              (rw (b, b') at h) in
          (
            pieces ++ ds,
            end,
            goes_on w end ds b b' rounds,
            All-append (length ts) pieces ds (law.due ts w) small,
            rw (b, drive)
                (rw b' (
                  e ∙ ap (λ r. (ok r, end)) (sym (deliver_all-append m.wild pieces ds responses)))),
          )
    ]
  ]

  -- Where there is a response for each address, and some call of `curl_multi_perform` among as many as
  -- the fuel fails or finds that nothing runs any more, `batchNetworkRequests` stops at the first such
  -- call and returns true, also after an error, and each response is what it was, with the pieces of its
  -- own transfer behind it, in order.
  pub batch_network_requests-Drives :
      (law : IsLawful) (fuel : ℕ) (urls : List Bytes) (token : Bytes) (responses : List Bytes)
      (w : c.World)
      → length urls ≤ length responses
      → let (ts, w') = open_all c m urls token (m.multi_init w) in
        settles fuel ts w' ≡ true
        → (ds : List (ℕ × Bytes)) × (end : c.World) × (responses' : List Bytes) × Drives
            (open_all c m urls token (m.multi_init w)).0
            (open_all c m urls token (m.multi_init w)).1
            ds
            end
          × ((batch_network_requests c m fuel urls token responses w).0 ≡ ok (true, responses'))
          × ((i : ℕ)
              → get_elem? responses' i
                ≡ Option.map (λ r. r ++ pieces_of i ds) (get_elem? responses i))
  unfolding batch_network_requests returned
  batch_network_requests-Drives law fuel urls token responses w many h =
      let (ts, w') = open_all c m urls token (m.multi_init w) in
      let (ds, end, rounds, small, e) = drive-Drives law fuel ts responses w' h in
      let l : length ts ≤ length responses =
        omega (arith, open_all-length urls token (m.multi_init w)) in
      (
        ds,
        end,
        deliver_all m.wild ds responses,
        rounds,
        rw (e, batch_network_requests) refl,
        λ i. elim (Option-cases (get_elem? responses i)) [
          | inl k ↦ rw (k, deliver_all-none m.wild (length ts) ds responses i l small k) refl
          | inr (r, k) ↦
              rw (k, deliver_all-pieces_of m.wild (length ts) ds responses i r l small k) refl
        ],
      )
