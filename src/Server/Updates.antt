-- ===== src/Server/Updates.antt =====
-- When the update loop of `WebSocketServer` in websocket_server.cpp ends.
use deribit_trading_system.Base.{ℕ, suc, ◌≡◌, false, List, if◌then◌else◌, ◌==◌}
use deribit_trading_system.Base.Outcome.{Outcome, M, pure, ◌>>=◌}
use deribit_trading_system.Text.{Bytes}
use deribit_trading_system.Server.{
  Env, Subscriptions, Shared, count, on_close, WebSocketServer, send_order_book_updates, send_book,
  Json, stamped,
}

-- The connection is closed by `on_close`, and then gone.
abbrev pub close : ℕ → Shared → Shared
close hdl (subscriptions, alive) =
    (on_close (suc hdl) subscriptions, λ h. if h == hdl then false else alive h)

-- No entry is there that was made for a connection which was gone already.
abbrev pub HasNoGone : Subscriptions → Type 0
HasNoGone subscriptions = count 0 subscriptions ≡ false

-- No thread makes such an entry.
abbrev pub Spares : (Shared → Shared) → Type 0
Spares others = (sh : Shared) → HasNoGone sh.0 → HasNoGone (others sh).0

-- Closing comes last before a test, and what other threads did before it made no such entry.
pub record IsClosing (hdl : ℕ) (others : Shared → Shared) : Type 0 where
  pub earlier : Shared → Shared
  pub closes : (sh : Shared) → others sh ≡ close hdl (earlier sh)
  pub spares : Spares earlier

module _ (e : Env) (hdl : ℕ) (symbol : Bytes) where
  abbrev loop : List (Shared → Shared) → WebSocketServer e → Outcome (Unit {0}) × WebSocketServer e
  loop schedule = send_order_book_updates e schedule hdl symbol

  module _ (s : WebSocketServer e) where
    -- An update looks at the world only.
    abbrev Leaves : {A : Type 0} → Outcome A × WebSocketServer e → Type 0
    Leaves p = p.1.subscriptions ≡ s.subscriptions

    stamp_and_send : (book : Json e) → M (WebSocketServer e) (Unit {0})
    stamp_and_send book = if e.empty book then pure tt else (stamped e book >>= send_book e hdl)
