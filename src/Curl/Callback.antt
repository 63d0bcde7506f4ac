-- ===== src/Curl/Callback.antt =====
-- What `WriteCallback` of utils.cpp has gathered after a transfer.
use mathlib.Core.List.{append-nil, append_assoc, flatten}
use deribit_trading_system.Base.{
  ◌*◌, ◌%◌, ◌^◌, ◌<◌, ◌≡◌, sym, ap, ◌∙◌, List, [], ◌∷◌, ◌++◌, length, take, take_all, All, arith,
}
use deribit_trading_system.Text.{Bytes}
use deribit_trading_system.Curl.{write_callback, deliver}

take-length : (s : Bytes) → take (length s) s ≡ s
take-length s = ap (take (length s)) (sym (append-nil s)) ∙ take_all s []

-- The callback keeps every byte, in order, and reports to libcurl that it took them all.
pub write_callback_keeps :
    (piece userp : Bytes)
    → length piece < 2 ^ 64
    → write_callback piece 1 (length piece) userp ≡ (length piece, userp ++ piece)
unfolding write_callback
write_callback_keeps piece userp h =
    let e : (1 * length piece) % 2 ^ 64 ≡ length piece = omega arith in rw (e, take-length piece)

-- The pieces that a transfer delivers, each below 2 ^ 64 bytes, come to stand behind the response, in
-- order and whole.
pub deliver-flatten :
    (pieces : List Bytes) (response : Bytes)
    → All (λ p. length p < 2 ^ 64) pieces
    → deliver pieces response ≡ response ++ flatten pieces
unfolding deliver flatten
deliver-flatten [] r h = sym (append-nil r)
deliver-flatten (p ∷ ps) r h =
    ap (λ t. deliver ps t.1) (write_callback_keeps p r h.0)
    ∙ deliver-flatten ps (r ++ p) h.1
    ∙ append_assoc r p (flatten ps)
