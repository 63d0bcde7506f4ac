-- ===== src/WaitFree.antt =====
-- `WaitFreeQueue` of wait_free_queue.h: a ring of slots for one producer and one consumer.
pub mod Refine
pub mod Bounded
pub mod Threads
pub mod Schedules
mod Tests
use deribit_trading_system.Base.{
  ℕ, ◌+◌, ◌%◌, ◌^◌, Bool, true, false, List, Option, none, some, ◌==◌, if◌then◌else◌, get_elem?,
  set, replicate,
}

pub record WaitFreeQueue {ℓ} (T : Type ℓ) : Type ℓ where
  pub buffer : List T
  pub capacity : ℕ
  pub head : ℕ
  pub tail : ℕ

-- The result of `dequeue`. A read outside the buffer has no defined result.
pub data Taken {ℓ} (T : Type ℓ) : Type ℓ where
  nothing : Taken T
  taken : T → Taken T
  undefined : Taken T

-- `(i + 1) % capacity_`, with the sum of `size_t`.
unfoldable pub next : ℕ → ℕ → ℕ
next capacity i = (i + 1) % 2 ^ 64 % capacity

module _ {ℓ} {T : Type ℓ} where
  -- `resize` fills the buffer with value-initialised elements.
  unfoldable pub init : T → ℕ → WaitFreeQueue T
  init initial capacity = record {
    buffer = replicate capacity initial;
    capacity = capacity;
    head = 0;
    tail = 0;
  }

  unfoldable pub is_full : WaitFreeQueue T → Bool
  is_full q = next q.capacity q.tail == q.head

  unfoldable pub is_drained : WaitFreeQueue T → Bool
  is_drained q = q.head == q.tail

  -- The three accesses that follow the tests, one by one.
  unfoldable pub write_slot : T → WaitFreeQueue T → WaitFreeQueue T
  write_slot item q = record q { buffer = set q.buffer q.tail item }

  unfoldable pub publish : WaitFreeQueue T → WaitFreeQueue T
  publish q = record q { tail = next q.capacity q.tail }

  unfoldable pub advance : WaitFreeQueue T → WaitFreeQueue T
  advance q = record q { head = next q.capacity q.head }

  unfoldable pub enqueue : T → WaitFreeQueue T → Bool × WaitFreeQueue T
  enqueue item q = if is_full q then (false, q) else (true, publish (write_slot item q))

  read_slot : Option T → WaitFreeQueue T → Taken T × WaitFreeQueue T
  read_slot none q = (undefined, q)
  read_slot (some item) q = (taken item, advance q)

  unfoldable pub dequeue : WaitFreeQueue T → Taken T × WaitFreeQueue T
  unfolding read_slot
  dequeue q = if is_drained q then (nothing, q) else read_slot (get_elem? q.buffer q.head) q
