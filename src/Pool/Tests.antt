-- ===== src/Pool/Tests.antt =====
-- `MemoryPool` of utils.cpp at a pool of three blocks.
use deribit_trading_system.Base.{◌+◌, ◌≡◌, refl, List, [], ◌∷◌, ◌++◌, some, length, arith}
use mathlib.Core.List.{Nodup}
use deribit_trading_system.Pool.{init, allocate}
use deribit_trading_system.Pool.Blocks.{Fits, Packed, init-Packed}
use deribit_trading_system.Pool.Clients.{Request, takes, gives_back, run, fresh, run-exclusive}

init_runs : (init 4096 16 3).free_blocks ≡ 4128 ∷ 4112 ∷ 4096 ∷ []
unfolding init
init_runs = refl

allocate_runs : (allocate (init 4096 16 3)).0 ≡ some 4128
unfolding init allocate
allocate_runs = refl

fits : Fits 4096 16 3
fits = omega arith

abbrev requests : List Request
requests = takes ∷ takes ∷ gives_back 1 ∷ takes ∷ []

run-exclusive_example :
    Nodup
      ((run (fresh 4096 16 3) requests).pool.free_blocks ++ (run (fresh 4096 16 3) requests).lent)
    × (length (run (fresh 4096 16 3) requests).pool.free_blocks
          + length (run (fresh 4096 16 3) requests).lent
        ≡ 3)
run-exclusive_example = run-exclusive 4096 16 3 requests fits

init-Packed_example :
    (length (init 4096 16 3).free_blocks ≡ 3) × Packed 4096 16 4144 (init 4096 16 3).free_blocks
init-Packed_example = init-Packed 4096 16 3 fits
