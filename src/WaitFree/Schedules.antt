-- ===== src/WaitFree/Schedules.antt =====
-- A producer and a consumer of a `WaitFreeQueue` of wait_free_queue.h over their turns.
use mathlib.Core.List.{append_assoc}
use mathlib.Core.Bool.{true≢false}
use deribit_trading_system.Base.{
  subst, ℕ, ◌+◌, ◌^◌, ◌<◌, ◌≡◌, ◌≢◌, inl, inr, refl, sym, ap, ◌∙◌, true, false, List, [], ◌∷◌, ◌++◌,
  some, get_elem?, length, Bool-cases, arith,
}
use deribit_trading_system.WaitFree.{
  WaitFreeQueue, is_full, is_drained, write_slot, publish, advance, enqueue,
}
use deribit_trading_system.WaitFree.Refine.{
  Holds, init-Holds, is_full-eq, is_drained_nil, write_slot-Holds, write_slot_there, publish-Holds,
  advance-Holds, slot_zero,
}
use deribit_trading_system.WaitFree.Threads.{
  Producer, ready, checked, written, Consumer, waiting, nonempty, holding, out_of_bounds, Pair,
  Turn, produce, consume, produce_from, look, consume_from, step, run, start,
}

module _ {ℓ} {T : Type ℓ} where
  -- What the threads know of the items in the queue, from where they stand.
  abbrev ProducerKnows : Producer T → WaitFreeQueue T → List T → Type ℓ
  ProducerKnows ready q xs = Unit
  ProducerKnows (checked y) q xs = (length xs + 1 < q.capacity) × Unit {ℓ}
  ProducerKnows (written y) q xs =
      (length xs + 1 < q.capacity) × (get_elem? q.buffer q.tail ≡ some y)

  abbrev ConsumerKnows : Consumer T → List T → Type ℓ
  ConsumerKnows waiting xs = Unit
  ConsumerKnows nonempty xs = (x : T) × (rest : List T) × (xs ≡ x ∷ rest)
  ConsumerKnows (holding v) xs = (rest : List T) × (xs ≡ v ∷ rest)
  ConsumerKnows out_of_bounds xs = (true ≡ false) × Unit {ℓ}

  record IsSound (s : Pair T) : Type ℓ where
    pending : List T
    history : s.sent ≡ s.received ++ pending
    holds : Holds s.queue pending
    producer_knows : ProducerKnows s.producer s.queue pending
    consumer_knows : ConsumerKnows s.consumer pending

  consumer_more :
      (c : Consumer T) (xs : List T) (y : T) → ConsumerKnows c xs → ConsumerKnows c (xs ++ (y ∷ []))
  consumer_more waiting xs y k = tt
  consumer_more nonempty xs y (x, rest, e) = (x, rest ++ (y ∷ []), ap (λ l. l ++ (y ∷ [])) e)
  consumer_more (holding v) xs y (rest, e) = (rest ++ (y ∷ []), ap (λ l. l ++ (y ∷ [])) e)
  consumer_more out_of_bounds xs y k = k

  producer_less :
      (p : Producer T) (q : WaitFreeQueue T) (v : T) (rest : List T)
      → ProducerKnows p q (v ∷ rest)
      → ProducerKnows p (advance q) rest
  unfolding advance
  producer_less ready q v rest k = tt
  producer_less (checked y) q v rest k = (omega (arith, k.0), tt)
  producer_less (written y) q v rest k = (omega (arith, k.0), k.1)

  at_producer :
      (s : Pair T) (p : Producer T) (h : IsSound s)
      → ProducerKnows p s.queue h.pending
      → IsSound (record s { producer = p })
  at_producer s p h k = record {
    pending = h.pending;
    history = h.history;
    holds = h.holds;
    producer_knows = k;
    consumer_knows = h.consumer_knows;
  }

  at_consumer :
      (s : Pair T) (c : Consumer T) (h : IsSound s)
      → ConsumerKnows c h.pending
      → IsSound (record s { consumer = c })
  at_consumer s c h k = record {
    pending = h.pending;
    history = h.history;
    holds = h.holds;
    producer_knows = h.producer_knows;
    consumer_knows = k;
  }

  has_room :
      (s : Pair T) (h : IsSound s)
      → is_full s.queue ≡ false
      → length h.pending + 1 < s.queue.capacity
  has_room s h f =
      let room = h.holds.room in
      let e = sym (is_full-eq s.queue h.pending h.holds) ∙ f in ground arith

  produce_from-IsSound :
      (p : Producer T) (x : T) (s : Pair T)
      → s.producer ≡ p
      → IsSound s
      → IsSound (produce_from p x s)
  unfolding produce_from write_slot publish
  produce_from-IsSound ready x s e h = elim (Bool-cases (is_full s.queue)) [
    | inl f ↦ at_producer s _ h (rw f tt)
    | inr f ↦ at_producer s _ h (rw f (has_room s h f, tt))
  ]
  produce_from-IsSound (checked y) x s e h =
      let k = subst (λ p. ProducerKnows p s.queue h.pending) e h.producer_knows in
      record {
        pending = h.pending;
        history = h.history;
        holds = write_slot-Holds s.queue h.pending y h.holds;
        producer_knows = (k.0, write_slot_there s.queue h.pending y h.holds);
        consumer_knows = h.consumer_knows;
      }
  produce_from-IsSound (written y) x s e h =
      let k = subst (λ p. ProducerKnows p s.queue h.pending) e h.producer_knows in
      record {
        pending = h.pending ++ (y ∷ []);
        history = ap (λ l. l ++ (y ∷ [])) h.history ∙ append_assoc s.received h.pending (y ∷ []);
        holds = publish-Holds s.queue h.pending y h.holds k.0 k.1;
        producer_knows = tt;
        consumer_knows = consumer_more s.consumer h.pending y h.consumer_knows;
      }

  some_pending :
      (s : Pair T) (xs : List T)
      → Holds s.queue xs
      → is_drained s.queue ≡ false
      → (x : T) × (rest : List T) × (xs ≡ x ∷ rest)
  some_pending s [] h d = absurd (true≢false (sym (is_drained_nil s.queue h) ∙ d))
  some_pending s (x ∷ rest) h d = (x, rest, refl)

  first_there :
      (s : Pair T) (x : T) (rest : List T)
      → Holds s.queue (x ∷ rest)
      → get_elem? s.queue.buffer s.queue.head ≡ some x
  first_there s x rest h =
      rw (← slot_zero s.queue.capacity s.queue.head h.head_in) (h.items 0 x refl)

  consume_from-IsSound :
      (c : Consumer T) (s : Pair T) → s.consumer ≡ c → IsSound s → IsSound (consume_from c s)
  unfolding consume_from look advance
  consume_from-IsSound waiting s e h = elim (Bool-cases (is_drained s.queue)) [
    | inl d ↦ at_consumer s _ h (rw d tt)
    | inr d ↦ at_consumer s _ h (rw d (some_pending s h.pending h.holds d))
  ]
  consume_from-IsSound nonempty s e h =
      let (x, rest, k) = subst (λ c. ConsumerKnows c h.pending) e h.consumer_knows in
      let there = first_there s x rest (subst (Holds s.queue) k h.holds) in
      at_consumer s _ h (rw there (rest, k))
  consume_from-IsSound (holding v) s e h =
      let (rest, k) = subst (λ c. ConsumerKnows c h.pending) e h.consumer_knows in
      record {
        pending = rest;
        history = h.history ∙ ap (◌++◌ s.received) k ∙ sym (append_assoc s.received (v ∷ []) rest);
        holds = advance-Holds s.queue v rest (subst (Holds s.queue) k h.holds);
        producer_knows =
            producer_less s.producer s.queue v rest
              (subst (ProducerKnows s.producer s.queue) k h.producer_knows);
        consumer_knows = tt;
      }
  consume_from-IsSound out_of_bounds s e h = h

  step-IsSound : (t : Turn T) (s : Pair T) → IsSound s → IsSound (step t s)
  unfolding step
  step-IsSound (produce x) s h = produce_from-IsSound s.producer x s refl h
  step-IsSound consume s h = consume_from-IsSound s.consumer s refl h

  run-IsSound : (ts : List (Turn T)) (s : Pair T) → IsSound s → IsSound (run ts s)
  unfolding run
  run-IsSound [] s h = h
  run-IsSound (t ∷ ts) s h = run-IsSound ts (step t s) (step-IsSound t s h)

  start-IsSound :
      (initial : T) (capacity : ℕ)
      → 0 < capacity
      → capacity < 2 ^ 64
      → IsSound (start initial capacity)
  start-IsSound initial c room small = record {
    pending = [];
    history = refl;
    holds = init-Holds initial c room small;
    producer_knows = tt;
    consumer_knows = tt;
  }

  -- However a producer and a consumer of a fresh queue interleave, what the producer has published
  -- is what the consumer has taken, followed by fewer than `capacity` items that wait in the queue,
  -- in order; and the consumer never reads outside the buffer.
  pub run-fifo :
      (initial : T) (capacity : ℕ) (ts : List (Turn T))
      → 0 < capacity
      → capacity < 2 ^ 64
      → let s = run ts (start initial capacity) in
        (xs : List T) × (s.sent ≡ s.received ++ xs)
        × Holds s.queue xs
        × (s.consumer ≢ out_of_bounds)
  run-fifo initial c ts room small =
      let h = run-IsSound ts (start initial c) (start-IsSound initial c room small) in
      (
        h.pending,
        h.history,
        h.holds,
        λ e. absurd (true≢false (subst (λ c. ConsumerKnows c h.pending) e h.consumer_knows).0),
      )

  -- A producer that is ready and runs alone for three turns has done what `enqueue` does.
  pub run_alone-enqueue :
      (x : T) (s : Pair T)
      → s.producer ≡ ready
      → (run (produce x ∷ produce x ∷ produce x ∷ []) s).queue ≡ (enqueue x s.queue).1
  unfolding run step produce_from enqueue
  run_alone-enqueue x s e = elim (Bool-cases (is_full s.queue)) [
    | inl f ↦ rw (e, produce_from) (rw (f, produce_from) (rw (f, produce_from) refl))
    | inr f ↦ rw (e, produce_from) (rw (f, produce_from) refl)
  ]
