-- ===== src/Server/Handles.antt =====
-- The keys of the subscriptions of websocket_server.cpp: `connection_hdl_hash` and
-- `connection_hdl_equal`. A handle does not own its connection, which may be gone.
use deribit_trading_system.Base.{
  ℕ, suc, ◌≡◌, refl, ap, Bool, true, false, ◌==◌, if◌then◌else◌, arith,
}

-- `hdl.lock().get()`: the address of the connection, which is not 0, or null where it is gone.
abbrev pub lock : (ℕ → Bool) → ℕ → ℕ
lock alive hdl = if alive hdl then suc hdl else 0

-- Over `std::hash`, which is a parameter.
unfoldable pub connection_hdl_hash : (ℕ → ℕ) → (ℕ → Bool) → ℕ → ℕ
connection_hdl_hash hash alive hdl = hash (lock alive hdl)

unfoldable pub connection_hdl_equal : (ℕ → Bool) → ℕ → ℕ → Bool
connection_hdl_equal alive a b = lock alive a == lock alive b

-- Equal keys hash alike, as the map needs it.
pub connection_hdl_equal-hash :
    (hash : ℕ → ℕ) (alive : ℕ → Bool) (a b : ℕ)
    → connection_hdl_equal alive a b ≡ true
    → connection_hdl_hash hash alive a ≡ connection_hdl_hash hash alive b
unfolding connection_hdl_hash connection_hdl_equal
connection_hdl_equal-hash hash alive a b e =
    let q : lock alive a ≡ lock alive b = ground arith in ap hash q

-- The handle of an open connection is the key of that connection only.
pub connection_hdl_equal_open :
    (alive : ℕ → Bool) (a b : ℕ) → alive a ≡ true → connection_hdl_equal alive a b ≡ (a == b)
unfolding connection_hdl_equal
connection_hdl_equal_open alive a b h = ground arith

-- Two handles of connections that are gone are one key.
pub connection_hdl_equal_gone :
    (alive : ℕ → Bool) (a b : ℕ)
    → alive a ≡ false
    → alive b ≡ false
    → connection_hdl_equal alive a b ≡ true
unfolding connection_hdl_equal
connection_hdl_equal_gone alive a b h k = rw (h, k) refl
