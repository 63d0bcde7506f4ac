-- ===== src/Pool/Clients.antt =====
-- Callers that give back only blocks that they hold: how utils.h means `MemoryPool` to be used.
use mathlib.Core.List.{Perm, Nodup, append-nil}
use mathlib.Core.List.Perm
use deribit_trading_system.Base.{
  ℕ, ◌+◌, ◌≡◌, refl, inl, inr, List, [], ◌∷◌, ◌++◌, Option, none, some, get_elem?, length,
  Option-cases,
}
use deribit_trading_system.Loans.{
  Shelf, Step, lend, starve, regain, idle, everything, Step-perm, Perm-total, remove_at, split_at,
}
use deribit_trading_system.Pool.{MemoryPool, init, take_back, allocate, deallocate}
use deribit_trading_system.Pool.Blocks.{Fits, init-Packed, init-Nodup}

pub record Callers : Type 0 where
  pub pool : MemoryPool
  pub lent : List ℕ

-- A call of `allocate`, or of `deallocate` with the block at an index of `lent`.
pub data Request : Type 0 where
  takes : Request
  gives_back : ℕ → Request

keep : List ℕ → Option ℕ × MemoryPool → Callers
keep lent (none, p) = record { pool = p; lent = lent }
keep lent (some a, p) = record { pool = p; lent = a ∷ lent }

hand_in : Callers → ℕ → Option ℕ → Callers
hand_in c i none = c
hand_in c i (some a) = record { pool = deallocate c.pool a; lent = remove_at i c.lent }

unfoldable pub step : Callers → Request → Callers
unfolding keep hand_in
step c takes = keep c.lent (allocate c.pool)
step c (gives_back i) = hand_in c i (get_elem? c.lent i)

unfoldable pub run : Callers → List Request → Callers
run c [] = c
run c (r ∷ rs) = run (step c r) rs

abbrev pub fresh : ℕ → ℕ → ℕ → Callers
fresh m s n = record { pool = init m s n; lent = [] }

abbrev pub shelf : Callers → Shelf ℕ
shelf c = record { free = c.pool.free_blocks; lent = c.lent }

take_back_refines :
    (p : MemoryPool) (lent free : List ℕ)
    → p.free_blocks ≡ free
    → Step (record { free = p.free_blocks; lent = lent }) (shelf (keep lent (take_back p free)))
unfolding keep take_back
take_back_refines p lent [] e = starve e refl
take_back_refines p lent (a ∷ rest) e = lend a e refl

-- `allocate` and `deallocate` lend and regain, whatever the callers do.
pub step_refines : (c : Callers) (r : Request) → Step (shelf c) (shelf (step c r))
unfolding step allocate deallocate
step_refines c takes = take_back_refines c.pool c.lent c.pool.free_blocks refl
step_refines c (gives_back i) = elim (Option-cases (get_elem? c.lent i)) [
  | inl e ↦ rw (e, step) (idle refl)
  | inr (a, e) ↦
      rw (e, step) (let (xs, ys, p, q) = split_at i c.lent a e in regain a xs ys p q refl)
]

run-perm :
    (c : Callers) (rs : List Request) → Perm (everything (shelf c)) (everything (shelf (run c rs)))
unfolding run
run-perm c [] = Perm.refl _
run-perm c (r ∷ rs) = Perm.trans (Step-perm (step_refines c r)) (run-perm (step c r) rs)

-- After any requests to a fresh pool no block is lent twice, or free while it is lent, and the free
-- and the lent blocks add up to `block_count`.
pub run-exclusive :
    (memory block_size block_count : ℕ) (rs : List Request)
    → Fits memory block_size block_count
    → let c = run (fresh memory block_size block_count) rs in
      Nodup (c.pool.free_blocks ++ c.lent)
      × (length c.pool.free_blocks + length c.lent ≡ block_count)
run-exclusive m s n rs f =
    (Perm.nodup p start, Perm-total n (shelf (fresh m s n)) (shelf (run (fresh m s n) rs)) p total)
  where
    p : Perm (everything (shelf (fresh m s n))) (everything (shelf (run (fresh m s n) rs)))
    p = run-perm (fresh m s n) rs

    start : Nodup (everything (shelf (fresh m s n)))
    start = rw append-nil (init-Nodup m s n f)

    total : length (everything (shelf (fresh m s n))) ≡ n
    total = rw append-nil (init-Packed m s n f).0
