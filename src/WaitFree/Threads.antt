-- ===== src/WaitFree/Threads.antt =====
-- One producer and one consumer of a `WaitFreeQueue` of wait_free_queue.h, interleaved between the
-- accesses of `enqueue` and `dequeue` to shared memory. With one thread on each side, the release
-- stores and acquire loads order them as one sequence.
use deribit_trading_system.Base.{
  ℕ, List, [], ◌∷◌, ◌++◌, Option, none, some, if◌then◌else◌, get_elem?,
}
use deribit_trading_system.WaitFree.{
  WaitFreeQueue, init, is_full, is_drained, write_slot, publish, advance,
}

-- Where the producer stands in `enqueue`: before it, past the test, past the write.
pub data Producer {ℓ} (T : Type ℓ) : Type ℓ where
  ready : Producer T
  checked : T → Producer T
  written : T → Producer T

-- Where the consumer stands in `dequeue`: before it, past the test, past the read.
pub data Consumer {ℓ} (T : Type ℓ) : Type ℓ where
  waiting : Consumer T
  nonempty : Consumer T
  holding : T → Consumer T
  out_of_bounds : Consumer T

-- What the producer has published and the consumer has finished taking is kept beside the queue.
pub record Pair {ℓ} (T : Type ℓ) : Type ℓ where
  pub queue : WaitFreeQueue T
  pub producer : Producer T
  pub consumer : Consumer T
  pub sent : List T
  pub received : List T

-- Whose turn it is. The producer starts on the given item if it is ready.
pub data Turn {ℓ} (T : Type ℓ) : Type ℓ where
  produce : T → Turn T
  consume : Turn T

module _ {ℓ} {T : Type ℓ} where
  unfoldable pub produce_from : Producer T → T → Pair T → Pair T
  produce_from ready x s = record s { producer = if is_full s.queue then ready else checked x }
  produce_from (checked y) x s = record s { queue = write_slot y s.queue; producer = written y }
  produce_from (written y) x s = record s {
    queue = publish s.queue;
    producer = ready;
    sent = s.sent ++ (y ∷ []);
  }

  unfoldable pub look : Option T → Consumer T
  look none = out_of_bounds
  look (some v) = holding v

  unfoldable pub consume_from : Consumer T → Pair T → Pair T
  unfolding look
  consume_from waiting s = record s { consumer = if is_drained s.queue then waiting else nonempty }
  consume_from nonempty s = record s { consumer = look (get_elem? s.queue.buffer s.queue.head) }
  consume_from (holding v) s = record s {
    queue = advance s.queue;
    consumer = waiting;
    received = s.received ++ (v ∷ []);
  }
  consume_from out_of_bounds s = s

  unfoldable pub step : Turn T → Pair T → Pair T
  unfolding produce_from consume_from
  step (produce x) s = produce_from s.producer x s
  step consume s = consume_from s.consumer s

  unfoldable pub run : List (Turn T) → Pair T → Pair T
  run [] s = s
  run (t ∷ ts) s = run ts (step t s)

  abbrev pub start : T → ℕ → Pair T
  start initial capacity = record {
    queue = init initial capacity;
    producer = ready;
    consumer = waiting;
    sent = [];
    received = [];
  }
