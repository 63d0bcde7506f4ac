-- ===== src/WaitFree/Refine.antt =====
-- Which items a `WaitFreeQueue` of wait_free_queue.h holds, before and after its operations.
use native.Mathlib.Nat.{mod-eq_of_lt, mod_self}
use native.Mathlib.Decide.{dec_lt}
use deribit_trading_system.Base.{
  ℕ, zero, suc, ◌+◌, ◌-◌, ◌^◌, ◌<◌, ◌≡◌, ◌≢◌, ◌⊎◌, inl, inr, refl, ap, ◌∙◌, true, false, List, [],
  ◌∷◌, ◌++◌, some, ◌==◌, ltb, if◌then◌else◌, get_elem?, length, replicate, length-set,
  length-append, get_elem?-set_self, get_elem?-set_ne, arith,
}
use deribit_trading_system.WaitFree.{
  WaitFreeQueue, next, init, is_full, is_drained, write_slot, publish, advance, enqueue, dequeue,
  nothing, taken, read_slot,
}

-- Slot `k` after `head`, round the ring.
abbrev pub slot : ℕ → ℕ → ℕ → ℕ
slot capacity head k = if ltb (head + k) capacity then head + k else (head + k) - capacity

pub next-slot :
    (capacity i : ℕ) → i < capacity → capacity < 2 ^ 64 → next capacity i ≡ slot capacity i 1
unfolding next
next-slot c i h small = elim (dec_lt (i + 1) c) [
  | yes p ↦ rw (mod-eq_of_lt {n = i + 1} {m = 2 ^ 64} (omega arith), mod-eq_of_lt p) (ground arith)
  | no p ↦
      let e : i + 1 ≡ c = omega arith in
      rw (mod-eq_of_lt {n = i + 1} {m = 2 ^ 64} (omega arith), e, mod_self c) (ground arith)
]

slot_ne : (c h k n : ℕ) → h < c → n < c → k < n → slot c h n ≢ slot c h k
slot_ne c h k n hc nc kn = ground arith

slot-slot : (c h k : ℕ) → h < c → suc k < c → slot c (slot c h 1) k ≡ slot c h (suc k)
slot-slot c h k hc kc = ground arith

pub slot_zero : (c h : ℕ) → h < c → slot c h 0 ≡ h
slot_zero c h hc = ground arith

module _ {ℓ} {T : Type ℓ} where
  -- The queue holds the items `xs`, in this order.
  pub record Holds (q : WaitFreeQueue T) (xs : List T) : Type ℓ where
    pub small : q.capacity < 2 ^ 64
    pub sized : length q.buffer ≡ q.capacity
    pub head_in : q.head < q.capacity
    pub room : length xs < q.capacity
    pub tail_is : q.tail ≡ slot q.capacity q.head (length xs)
    pub items :
        (k : ℕ) (x : T)
        → get_elem? xs k ≡ some x
        → get_elem? q.buffer (slot q.capacity q.head k) ≡ some x

  get_elem?-append_cases :
      (xs : List T) (y x : T) (k : ℕ)
      → get_elem? (xs ++ (y ∷ [])) k ≡ some x
      → (get_elem? xs k ≡ some x × (k < length xs)) ⊎ ((k ≡ length xs) × (y ≡ x))
  get_elem?-append_cases [] y x zero h = inr (refl, cc)
  get_elem?-append_cases [] y x (suc k) h = cc
  get_elem?-append_cases (z ∷ xs) y x zero h = inl (h, omega arith)
  get_elem?-append_cases (z ∷ xs) y x (suc k) h = elim (get_elem?-append_cases xs y x k h) [
    | inl (e, lt) ↦ inl (e, omega arith)
    | inr (e, e') ↦ inr (ap suc e, e')
  ]

  get_elem?-lt : (xs : List T) (k : ℕ) (x : T) → get_elem? xs k ≡ some x → k < length xs
  get_elem?-lt [] k x h = cc
  get_elem?-lt (y ∷ xs) zero x h = omega arith
  get_elem?-lt (y ∷ xs) (suc k) x h = omega (arith, get_elem?-lt xs k x h)

  tail_lt : (q : WaitFreeQueue T) (xs : List T) → Holds q xs → q.tail < q.capacity
  tail_lt q xs h = let c = h.head_in in let n = h.room in let e = h.tail_is in rw e (ground arith)

  pub is_full-eq :
      (q : WaitFreeQueue T) (xs : List T) → Holds q xs → is_full q ≡ (length xs + 1 == q.capacity)
  unfolding is_full
  is_full-eq q xs h =
      let c = h.head_in in
      let n = h.room in
      let e = h.tail_is in
      rw (next-slot q.capacity q.tail (tail_lt q xs h) h.small, e) (ground arith)

  pub is_drained_nil : (q : WaitFreeQueue T) → Holds q [] → is_drained q ≡ true
  unfolding is_drained
  is_drained_nil q h = let c = h.head_in in let e = h.tail_is in rw e (ground arith)

  pub is_drained_cons :
      (q : WaitFreeQueue T) (x : T) (xs : List T) → Holds q (x ∷ xs) → is_drained q ≡ false
  unfolding is_drained
  is_drained_cons q x xs h =
      let c = h.head_in in let n = h.room in let e = h.tail_is in rw e (ground arith)

  pub init-Holds :
      (initial : T) (capacity : ℕ)
      → 0 < capacity
      → capacity < 2 ^ 64
      → Holds (init initial capacity) []
  unfolding init
  init-Holds initial c h small = record {
    small = small;
    sized = length-replicate c;
    head_in = h;
    room = h;
    tail_is = ground arith;
    items = λ k x e. cc;
  }
    where
      length-replicate : (n : ℕ) → length (replicate n initial) ≡ n
      length-replicate zero = refl
      length-replicate (suc n) = ap suc (length-replicate n)

  -- A write behind the items leaves them alone.
  pub write_slot-Holds :
      (q : WaitFreeQueue T) (xs : List T) (x : T) → Holds q xs → Holds (write_slot x q) xs
  unfolding write_slot
  write_slot-Holds q xs x h = record {
    small = h.small;
    sized = length-set q.buffer q.tail x ∙ h.sized;
    head_in = h.head_in;
    room = h.room;
    tail_is = h.tail_is;
    items = λ k y e.
        let ne = slot_ne q.capacity q.head k (length xs) h.head_in h.room (get_elem?-lt xs k y e) in
        get_elem?-set_ne q.buffer x (rw h.tail_is ne) ∙ h.items k y e;
  }

  pub write_slot_there :
      (q : WaitFreeQueue T) (xs : List T) (x : T)
      → Holds q xs
      → get_elem? (write_slot x q).buffer q.tail ≡ some x
  unfolding write_slot
  write_slot_there q xs x h =
      get_elem?-set_self q.buffer q.tail x (omega (arith, tail_lt q xs h, h.sized))

  pub publish-Holds :
      (q : WaitFreeQueue T) (xs : List T) (x : T)
      → Holds q xs
      → length xs + 1 < q.capacity
      → get_elem? q.buffer q.tail ≡ some x
      → Holds (publish q) (xs ++ (x ∷ []))
  unfolding publish
  publish-Holds q xs x h more there = record {
    small = h.small;
    sized = h.sized;
    head_in = h.head_in;
    room = omega (arith, length-append xs (x ∷ []));
    tail_is =
        let c = h.head_in in
        let n = h.room in
        let e = h.tail_is in
        rw (next-slot q.capacity q.tail (tail_lt q xs h) h.small, length-append xs (x ∷ []), e)
          (ground arith);
    items = λ k y e. elim (get_elem?-append_cases xs x y k e) [
      | inl (e', lt) ↦ h.items k y e'
      | inr (ek, ey) ↦ rw (ek, ← h.tail_is, ← ey) there
    ];
  }

  pub advance-Holds :
      (q : WaitFreeQueue T) (x : T) (xs : List T) → Holds q (x ∷ xs) → Holds (advance q) xs
  unfolding advance
  advance-Holds q x xs h =
      let c = h.head_in in
      let n = h.room in
      let e = h.tail_is in
      let moved = next-slot q.capacity q.head c h.small in
      record {
        small = h.small;
        sized = h.sized;
        head_in = rw moved (ground arith);
        room = omega arith;
        tail_is = rw (moved, e) (ground arith);
        items = λ k y e'.
            let s : slot q.capacity (slot q.capacity q.head 1) k ≡ slot q.capacity q.head (suc k) =
              slot-slot q.capacity q.head k c (omega (arith, get_elem?-lt xs k y e')) in
            rw (moved, s) (h.items (suc k) y e');
      }

  -- `enqueue` on a queue that holds `capacity - 1` items returns false and changes nothing; on any
  -- other it returns true and puts the item behind the others.
  pub enqueue-Holds :
      (q : WaitFreeQueue T) (xs : List T) (x : T)
      → Holds q xs
      → ((length xs + 1 ≡ q.capacity) × (enqueue x q ≡ (false, q)))
        ⊎ ((length xs + 1 < q.capacity)
            × ((enqueue x q).0 ≡ true)
            × Holds (enqueue x q).1 (xs ++ (x ∷ [])))
  unfolding enqueue write_slot
  enqueue-Holds q xs x h = elim (dec_lt (length xs + 1) q.capacity) [
    | yes p ↦
        let e : is_full q ≡ false = is_full-eq q xs h ∙ ground arith in
        let done =
          publish-Holds (write_slot x q) xs x (write_slot-Holds q xs x h) p
            (write_slot_there q xs x h) in
        inr (p, rw e refl, rw e done)
    | no p ↦
        let r = h.room in
        let e : is_full q ≡ true = is_full-eq q xs h ∙ ground arith in inl (omega arith, rw e refl)
  ]

  -- `dequeue` on an empty queue returns false and changes nothing.
  pub dequeue_nil : (q : WaitFreeQueue T) → Holds q [] → dequeue q ≡ (nothing, q)
  unfolding dequeue
  dequeue_nil q h = rw (is_drained_nil q h) refl

  -- `dequeue` on a queue with items takes the first and keeps the rest in order.
  pub dequeue-Holds :
      (q : WaitFreeQueue T) (x : T) (xs : List T)
      → Holds q (x ∷ xs)
      → ((dequeue q).0 ≡ taken x) × Holds (dequeue q).1 xs
  unfolding dequeue read_slot
  dequeue-Holds q x xs h =
      let e : get_elem? q.buffer q.head ≡ some x =
        rw (← slot_zero q.capacity q.head h.head_in) (h.items 0 x refl) in
      rw (is_drained_cons q x xs h, e) (refl, advance-Holds q x xs h)
