-- ===== src/Pool.antt =====
-- `MemoryPool` of utils.h and utils.cpp: blocks of one allocation, handed out last in first out.
-- The base address is what `new char[]` returned. Pointers are 64-bit numbers. The mutex makes each
-- call one step. The head of `free_blocks` is the back of the vector.
pub mod Blocks
pub mod Clients
mod Tests
use deribit_trading_system.Base.{
  ℕ, zero, suc, ◌+◌, ◌*◌, ◌%◌, ◌^◌, List, [], ◌∷◌, Option, none, some,
}

pub record MemoryPool : Type 0 where
  pub block_size : ℕ
  pub block_count : ℕ
  pub free_blocks : List ℕ
  pub memory : ℕ

-- `memory + i * blockSize`
abbrev pub block : ℕ → ℕ → ℕ → ℕ
block memory block_size i = (memory + i * block_size) % 2 ^ 64

-- The constructor's loop, with the rounds that are left.
pub fill : ℕ → ℕ → ℕ → ℕ → List ℕ → List ℕ
fill memory block_size zero i free = free
fill memory block_size (suc left) i free =
    fill memory block_size left (i + 1) (block memory block_size i ∷ free)

unfoldable pub init : ℕ → ℕ → ℕ → MemoryPool
unfolding fill
init memory block_size block_count = record {
  block_size = block_size;
  block_count = block_count;
  free_blocks = fill memory block_size block_count 0 [];
  memory = memory;
}

take_back : MemoryPool → List ℕ → Option ℕ × MemoryPool
take_back p [] = (none, p)
take_back p (ptr ∷ rest) = (some ptr, record p { free_blocks = rest })

unfoldable pub allocate : MemoryPool → Option ℕ × MemoryPool
unfolding take_back
allocate p = take_back p p.free_blocks

unfoldable pub deallocate : MemoryPool → ℕ → MemoryPool
deallocate p ptr = record p { free_blocks = ptr ∷ p.free_blocks }
