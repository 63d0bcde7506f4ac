-- ===== src/Orders/Storage.antt =====
-- Where `OrderAPI` of order_management.cpp builds its orders, as long as none is cancelled.
use mathlib.Core.List.{Nodup}
use deribit_trading_system.Base.{ℕ, ◌+◌, ◌≤◌, ap, Bool, List, ◌++◌, map, All, arith}
use deribit_trading_system.Base.Times.{times, times-append, times-Nodup, Nodup-times}
use deribit_trading_system.Base.Outcome.{Outcome}
use deribit_trading_system.Text.{Bytes}
use deribit_trading_system.Connection.{Manager}
use deribit_trading_system.Token.{TokenManager}
use deribit_trading_system.Pool
use deribit_trading_system.Pool.Blocks.{Fits, init-Nodup}
use deribit_trading_system.Orders.{Env, init}
use deribit_trading_system.Orders.Calls.{Call, after}
use deribit_trading_system.Orders.Changes.{
  Books, books, Cancels, Change, refused, stopped, untracked, unknown, recorded, unconverted,
  forgotten,
}
use deribit_trading_system.Orders.History.{after_keeps}

module _ (e : Env) where
  abbrev pub KeepsOrders : Call e → Type 0
  KeepsOrders c = (id : Bytes) → ¬ Cancels e c id

  -- The addresses of the orders that were built.
  abbrev pub addresses : Books e → List ℕ
  addresses b = map (λ p. p.0) b.placed

  -- Every address is in use or free no more often than the pool had it at first.
  IsApart : List ℕ → Books e → Type 0
  IsApart free b = (h : ℕ) → times h (addresses b) + times h b.order_pool.free_blocks ≤ times h free

  Change-IsApart :
      (free : List ℕ) (c : Call e) (o : Outcome Bool) (b b' : Books e)
      → KeepsOrders c
      → Change e c o b b'
      → IsApart free b
      → IsApart free b'
  unfolding IsApart
  Change-IsApart free c o b b' n (refused d) s = s
  Change-IsApart free c o b b' n (stopped q d t) s = s
  Change-IsApart free c o b b' n (untracked id d k h) s = s
  Change-IsApart free c o b b' n (unknown id d k h) s = s
  Change-IsApart free c o b b' n (recorded id ptr rest x w d k h) s =
      λ i. omega (arith, s i, ap (times i) h)
  Change-IsApart free c o b b' n (unconverted q id ptr rest d t k h) s =
      λ i. omega (arith, s i, ap (times i) h)
  Change-IsApart free c o b b' n (forgotten id entry d k h) s = absurd (n id k)

  -- As long as no call cancels, and the pool fits the address space, no two orders are built in one
  -- block, and none in a block that is still free.
  pub after-Nodup :
      (manager : Manager) (tokens : TokenManager) (memory json_size : ℕ) (w : e.curl.World)
      (calls : List (Call e))
      → Fits memory json_size 100
      → All KeepsOrders calls
      → let b = books e (after e calls (init e manager tokens memory json_size w)) in
        Nodup (addresses b ++ b.order_pool.free_blocks)
  unfolding init IsApart
  after-Nodup manager tokens memory json_size w calls f h =
      let a = init e manager tokens memory json_size w in
      let b = books e (after e calls a) in
      let free = (Pool.init memory json_size 100).free_blocks in
      let apart : IsApart free b =
        after_keeps e (IsApart free) KeepsOrders (Change-IsApart free) calls a h
          (λ i. omega arith) in
      times-Nodup (addresses b ++ b.order_pool.free_blocks) λ i. omega (
        arith,
        times-append i (addresses b) b.order_pool.free_blocks,
        apart i,
        Nodup-times free (init-Nodup memory json_size 100 f) i,
      )
