-- ===== src/Workers/Served.antt =====
-- Which workers of `ThreadPool` of utils.cpp are awake while something is queued.
use mathlib.Core.Bool.{true≢false}
use deribit_trading_system.Base.{
  ℕ, zero, suc, ◌<◌, ◌≡◌, ◌≢◌, ◌⊎◌, inl, inr, refl, sym, ◌∙◌, false, List, [], ◌∷◌, some, get_elem?,
  length, get_elem?-set_self, arith,
}
use deribit_trading_system.Workers.{
  Worker, idle, falling, asleep, running, exited, ThreadPool, set_worker, enqueue_task,
  worker_section, Step, enqueues, notifies_one, notifies_nobody, looks, waits, wakes_up, finishes,
  stops, notifies_all, Reaches, starts, goes_on,
}
use deribit_trading_system.Workers.Sound.{IsSound, Reaches-IsSound}

module _ {ℓ} {T : Type ℓ} where
  -- Some worker runs a task or is about to look for one.
  abbrev pub IsAwake : ThreadPool T → Type ℓ
  IsAwake p =
      (i : ℕ) × ((get_elem? p.workers i ≡ some idle)
        ⊎ ((task : T) × (get_elem? p.workers i ≡ some (running task))))

  abbrev IsServed : ThreadPool T → Type ℓ
  IsServed p = p.stop ≡ false → p.tasks ≢ [] → (0 < p.waking) ⊎ IsAwake p

  pub in_range :
      (ws : List (Worker T)) (i : ℕ) (w : Worker T) → get_elem? ws i ≡ some w → i < length ws
  in_range [] i w h = cc
  in_range (x ∷ ws) zero w h = omega arith
  in_range (x ∷ ws) (suc i) w h = omega (arith, in_range ws i w h)

  pub set_awake :
      (i : ℕ) (w : Worker T) (p : ThreadPool T)
      → get_elem? p.workers i ≡ some w
      → get_elem? (set_worker i idle p).workers i ≡ some idle
  unfolding set_worker
  set_awake i w p e = get_elem?-set_self p.workers i idle (in_range p.workers i w e)

  -- A pool with workers, none of them asleep, has one awake while something is queued.
  pub nobody_asleep :
      (n : ℕ) (p : ThreadPool T) (ws : List (Worker T))
      → p.workers ≡ ws
      → 0 < length ws
      → IsSound n p
      → ((i : ℕ) → get_elem? p.workers i ≢ some asleep)
      → p.stop ≡ false
      → p.tasks ≢ []
      → IsAwake p
  nobody_asleep n p [] e z h a s q = absurd (omega arith)
  nobody_asleep n p (idle ∷ ws) e z h a s q = (0, inl (rw e refl))
  nobody_asleep n p (running t ∷ ws) e z h a s q = (0, inr (t, rw e refl))
  nobody_asleep n p (falling ∷ ws) e z h a s q = absurd (q (h.nothing_queued 0 (rw e refl)))
  nobody_asleep n p (asleep ∷ ws) e z h a s q = absurd (a 0 (rw e refl))
  nobody_asleep n p (exited ∷ ws) e z h a s q =
      absurd (true≢false (sym (h.stopped 0 (rw e refl)) ∙ s))

  section-IsServed :
      (i : ℕ) (tasks : List T) (p : ThreadPool T)
      → p.tasks ≡ tasks
      → get_elem? p.workers i ≡ some idle
      → IsServed (worker_section i tasks p)
  unfolding set_worker
  section-IsServed i [] p q e s ne = absurd (ne q)
  section-IsServed i (task ∷ rest) p q e s ne =
      inr
        (i, inr (task, get_elem?-set_self p.workers i (running task) (in_range p.workers i idle e)))

  Step-IsServed : (n : ℕ) (p q : ThreadPool T) → 0 < n → Step p q → IsSound n p → IsServed q
  unfolding enqueue_task set_worker
  Step-IsServed n p q z (enqueues task u) h s ne = inl (omega arith)
  Step-IsServed n p q z (notifies_one i left e a) h s ne = inr (i, inl (set_awake i asleep p a))
  Step-IsServed n p q z (notifies_nobody left e a) h s ne =
      inr (nobody_asleep n p p.workers refl (omega (arith, h.threads)) h a s ne)
  Step-IsServed n p q z (looks i e u) h s ne = section-IsServed i p.tasks p refl e s ne
  Step-IsServed n p q z (waits i e) h s ne = absurd (ne (h.nothing_queued i e))
  Step-IsServed n p q z (wakes_up i e) h s ne = inr (i, inl (set_awake i asleep p e))
  Step-IsServed n p q z (finishes i task e) h s ne = inr (i, inl (set_awake i (running task) p e))
  Step-IsServed n p q z stops h s ne = absurd (true≢false s)
  Step-IsServed n p q z (notifies_all e) h s ne = absurd (true≢false (sym e ∙ s))

  -- In a pool with threads that has not been stopped, while a task is queued some worker is awake or
  -- a call of `notify_one` is still to come: no task waits with all workers asleep for good.
  pub Reaches-served :
      (n : ℕ) (p : ThreadPool T)
      → 0 < n
      → Reaches n p
      → p.stop ≡ false
      → p.tasks ≢ []
      → (0 < p.waking) ⊎ IsAwake p
  Reaches-served n p z starts s ne = absurd (ne refl)
  Reaches-served n _ z (goes_on p q r t) s ne = Step-IsServed n p q z t (Reaches-IsSound n p r) s ne
