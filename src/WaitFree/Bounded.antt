-- ===== src/WaitFree/Bounded.antt =====
-- `WaitFreeQueue` of wait_free_queue.h against a bounded list, over series of calls.
use deribit_trading_system.Base.{
  ℕ, ◌+◌, ◌<◌, ◌^◌, ◌≡◌, inl, inr, refl, ap, ◌∙◌, Bool, true, false, List, [], ◌∷◌, ◌++◌, ltb,
  if◌then◌else◌, length, arith,
}
use deribit_trading_system.WaitFree.{
  WaitFreeQueue, Taken, init, write_slot, publish, advance, enqueue, dequeue, nothing, taken,
  read_slot,
}
use deribit_trading_system.WaitFree.Refine.{
  Holds, init-Holds, enqueue-Holds, dequeue-Holds, dequeue_nil,
}

pub data Call {ℓ} (T : Type ℓ) : Type ℓ where
  put : T → Call T
  get : Call T

pub data Reply {ℓ} (T : Type ℓ) : Type ℓ where
  told : Bool → Reply T
  given : Taken T → Reply T

module _ {ℓ} {T : Type ℓ} where
  -- What a series of calls returns.
  pub replies : List (Call T) → WaitFreeQueue T → List (Reply T)
  replies [] q = []
  replies (put x ∷ calls) q = let (b, q') = enqueue x q in told b ∷ replies calls q'
  replies (get ∷ calls) q = let (t, q') = dequeue q in given t ∷ replies calls q'

  -- A list of fewer than `capacity` items in its place.
  pub expected : ℕ → List (Call T) → List T → List (Reply T)
  expected capacity [] xs = []
  expected capacity (put x ∷ calls) xs =
      if ltb (length xs + 1) capacity
      then told true ∷ expected capacity calls (xs ++ (x ∷ []))
      else told false ∷ expected capacity calls xs
  expected capacity (get ∷ calls) [] = given nothing ∷ expected capacity calls []
  expected capacity (get ∷ calls) (x ∷ xs) = given (taken x) ∷ expected capacity calls xs

  enqueue-capacity : (x : T) (q : WaitFreeQueue T) → (enqueue x q).1.capacity ≡ q.capacity
  unfolding enqueue publish write_slot
  enqueue-capacity x q = ground arith

  dequeue-capacity :
      (x : T) (q : WaitFreeQueue T) → (dequeue q).0 ≡ taken x → (dequeue q).1.capacity ≡ q.capacity
  unfolding dequeue advance read_slot
  dequeue-capacity x q e = ground arith

  Holds-replies :
      (calls : List (Call T)) (q : WaitFreeQueue T) (xs : List T)
      → Holds q xs
      → replies calls q ≡ expected q.capacity calls xs
  unfolding replies expected
  Holds-replies [] q xs h = refl
  Holds-replies (put x ∷ calls) q xs h = elim (enqueue-Holds q xs x h) [
    | inl (e, e') ↦
        let t : ltb (length xs + 1) q.capacity ≡ false = ground arith in
        rw (e', t) (ap (◌∷◌ (told false)) (Holds-replies calls q xs h))
    | inr (e, e', h') ↦
        let t : ltb (length xs + 1) q.capacity ≡ true = ground arith in
        let rest =
          Holds-replies calls (enqueue x q).1 (xs ++ (x ∷ [])) h'
          ∙ ap (λ c. expected c calls (xs ++ (x ∷ []))) (enqueue-capacity x q) in
        rw (e', t) (ap (◌∷◌ (told true)) rest)
  ]
  Holds-replies (get ∷ calls) q [] h =
      rw (dequeue_nil q h) (ap (◌∷◌ (given nothing)) (Holds-replies calls q [] h))
  Holds-replies (get ∷ calls) q (x ∷ xs) h =
      let (e, h') = dequeue-Holds q x xs h in
      let rest =
        Holds-replies calls (dequeue q).1 xs h'
        ∙ ap (λ c. expected c calls xs) (dequeue-capacity x q e) in
      rw e (ap (◌∷◌ (given (taken x))) rest)

  -- Any series of calls on a fresh queue, of a capacity above 0 and below 2^64, returns what a list
  -- in its place returns that takes in at most `capacity - 1` items and gives them out in order.
  pub init-replies :
      (initial : T) (capacity : ℕ) (calls : List (Call T))
      → 0 < capacity
      → capacity < 2 ^ 64
      → replies calls (init initial capacity) ≡ expected capacity calls []
  unfolding init
  init-replies initial capacity calls above below =
      Holds-replies calls (init initial capacity) [] (init-Holds initial capacity above below)
