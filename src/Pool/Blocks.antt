-- ===== src/Pool/Blocks.antt =====
-- Which addresses a fresh `MemoryPool` of utils.cpp holds.
use mathlib.Core.List.{Mem, Nodup, Nodup-cons, Nodup-nil, mem-cons, not-mem-nil}
use mathlib.Core.Logic.Or
use native.Mathlib.Bridge.{le_prop}
use native.Mathlib.Nat.{mod-eq_of_lt, add-zero}
use deribit_trading_system.Base.{
  ℕ, zero, suc, ◌+◌, ◌*◌, ◌^◌, ◌≤◌, ◌<◌, ◌≡◌, ap, none, some, List, [], ◌∷◌, length, arith,
}
use deribit_trading_system.Pool.{MemoryPool, block, fill, init, take_back, allocate}

-- The allocation lies inside the address space, and blocks are not empty.
pub record Fits (memory block_size block_count : ℕ) : Type 0 where
  pub sized : 0 < block_size
  pub inside : memory + block_count * block_size < 2 ^ 64

-- Blocks of `size` bytes below `top` and from `base` on, highest first, no two overlapping.
abbrev pub Packed : ℕ → ℕ → ℕ → List ℕ → Type 0
Packed base size top [] = Unit
Packed base size top (a ∷ rest) = (a + size ≤ top) × (base ≤ a) × Packed base size a rest

block-below : (m s i n : ℕ) → Fits m s n → i < n → block m s i ≡ m + i * s
block-below m s i n f h = mod-eq_of_lt (grind arith)

fill-length : (m s n i : ℕ) (free : List ℕ) → length (fill m s n i free) ≡ n + length free
unfolding fill
fill-length m s zero i free = omega arith
fill-length m s (suc n) i free = omega (arith, fill-length m s n (i + 1) (block m s i ∷ free))

fill-Packed :
    (m s k n i : ℕ) (free : List ℕ)
    → Fits m s k
    → i + n ≡ k
    → Packed m s (m + i * s) free
    → Packed m s (m + k * s) (fill m s n i free)
unfolding fill
fill-Packed m s k zero i free f e b = rw (← e, add-zero) b
fill-Packed m s k (suc n) i free f e b =
    fill-Packed m s k n (i + 1) _ f (omega arith)
      (rw (block-below m s i k f (omega arith)) (grind arith, omega arith, b))

-- A fresh pool holds `block_count` blocks of the allocation, and no two of them overlap.
pub init-Packed :
    (memory block_size block_count : ℕ)
    → Fits memory block_size block_count
    → let free = (init memory block_size block_count).free_blocks in
      (length free ≡ block_count)
      × Packed memory block_size (memory + block_count * block_size) free
unfolding init
init-Packed m s n f =
    (omega (arith, fill-length m s n 0 []), fill-Packed m s n n 0 [] f (omega arith) tt)

Packed-lt :
    (m s top : ℕ) (free : List ℕ) → 0 < s → Packed m s top free → {a : ℕ} → Mem a free → a < top
Packed-lt m s top [] h p i = absurd (not-mem-nil i)
Packed-lt m s top (b ∷ rest) h p i =
    Or.elim le_prop (mem-cons.0 i) (λ e. rw e (omega arith))
      (λ j. omega (arith, Packed-lt m s b rest h p.2 j))

pub Packed-Nodup : (m s top : ℕ) (free : List ℕ) → 0 < s → Packed m s top free → Nodup free
Packed-Nodup m s top [] h p = Nodup-nil
Packed-Nodup m s top (a ∷ rest) h p =
    Nodup-cons.1
      ((λ i. absurd (omega (arith, Packed-lt m s a rest h p.2 i))), Packed-Nodup m s a rest h p.2)

pub init-Nodup : (m s n : ℕ) → Fits m s n → Nodup (init m s n).free_blocks
init-Nodup m s n f = Packed-Nodup m s _ _ f.sized (init-Packed m s n f).1

-- What `allocate` does with a list of free blocks.
pub allocate-some :
    (p : MemoryPool) (ptr : ℕ) (rest : List ℕ)
    → p.free_blocks ≡ ptr ∷ rest
    → allocate p ≡ (some ptr, record p { free_blocks = rest })
unfolding allocate take_back
allocate-some p ptr rest e = ap (take_back p) e

pub allocate-none : (p : MemoryPool) → p.free_blocks ≡ [] → allocate p ≡ (none, p)
unfolding allocate take_back
allocate-none p e = ap (take_back p) e
