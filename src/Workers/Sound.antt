-- ===== src/Workers/Sound.antt =====
-- What holds in every state of `ThreadPool` of utils.cpp.
use mathlib.Core.Bool.{true≢false}
use mathlib.Core.List.{append_assoc}
use deribit_trading_system.Base.{
  ℕ, zero, suc, ◌≡◌, ◌≢◌, ◌⊎◌, inl, inr, refl, sym, ap, ◌∙◌, true, false, List, [], ◌∷◌, ◌++◌, some,
  if◌then◌else◌, map, get_elem?, set, replicate, length, length-set, Bool-cases,
}
use deribit_trading_system.Workers.{
  Worker, idle, falling, asleep, running, exited, ThreadPool, start, set_worker, enqueue_task,
  worker_section, wake, IsUnlocked, Step, enqueues, notifies_one, notifies_nobody, looks, waits,
  wakes_up, finishes, stops, notifies_all, Reaches, starts, goes_on,
}

module _ {ℓ} {T : Type ℓ} where
  pub get_elem?-set_cases :
      (xs : List (Worker T)) (i j : ℕ) (v x : Worker T)
      → get_elem? (set xs i v) j ≡ some x
      → (v ≡ x) ⊎ (get_elem? xs j ≡ some x)
  get_elem?-set_cases [] i j v x h = inr h
  get_elem?-set_cases (y ∷ ys) zero zero v x h = inl cc
  get_elem?-set_cases (y ∷ ys) zero (suc j) v x h = inr h
  get_elem?-set_cases (y ∷ ys) (suc i) zero v x h = inr h
  get_elem?-set_cases (y ∷ ys) (suc i) (suc j) v x h = get_elem?-set_cases ys i j v x h

  -- A sleeper's mutex is held only while nothing is queued, and workers leave only after the stop.
  pub record IsSound (n : ℕ) (p : ThreadPool T) : Type ℓ where
    pub threads : length p.workers ≡ n
    pub history : p.submitted ≡ p.started ++ p.tasks
    pub nothing_queued : (i : ℕ) → get_elem? p.workers i ≡ some falling → p.tasks ≡ []
    pub stopped : (i : ℕ) → get_elem? p.workers i ≡ some exited → p.stop ≡ true

  set_worker-IsSound :
      (n i : ℕ) (w : Worker T) (p : ThreadPool T)
      → w ≢ falling
      → w ≢ exited
      → IsSound n p
      → IsSound n (set_worker i w p)
  unfolding set_worker
  set_worker-IsSound n i w p f x h = record {
    threads = length-set p.workers i w ∙ h.threads;
    history = h.history;
    nothing_queued = λ j e. elim (get_elem?-set_cases p.workers i j w falling e) [
      | inl e' ↦ absurd (f e')
      | inr e' ↦ h.nothing_queued j e'
    ];
    stopped = λ j e. elim (get_elem?-set_cases p.workers i j w exited e) [
      | inl e' ↦ absurd (x e')
      | inr e' ↦ h.stopped j e'
    ];
  }

  get_elem?-map :
      (ws : List (Worker T)) (i : ℕ) (x : Worker T)
      → get_elem? (map wake ws) i ≡ some x
      → (w : Worker T) × (get_elem? ws i ≡ some w) × (wake w ≡ x)
  get_elem?-map [] i x h = cc
  get_elem?-map (w ∷ ws) zero x h = (w, refl, cc)
  get_elem?-map (w ∷ ws) (suc i) x h = get_elem?-map ws i x h

  length-map-wake : (ws : List (Worker T)) → length (map wake ws) ≡ length ws
  length-map-wake [] = refl
  length-map-wake (w ∷ ws) = ap suc (length-map-wake ws)

  wake_falling : (w : Worker T) → wake w ≡ falling → w ≡ falling
  wake_falling falling e = refl
  wake_falling idle e = e
  wake_falling asleep e = cc
  wake_falling (running t) e = e
  wake_falling exited e = e

  notify_all-IsSound :
      (n : ℕ) (p : ThreadPool T)
      → p.stop ≡ true
      → IsSound n p
      → IsSound n (record p { workers = map wake p.workers; notified = true })
  notify_all-IsSound n p s h = record {
    threads = length-map-wake p.workers ∙ h.threads;
    history = h.history;
    nothing_queued = λ i e.
        let (w, e', f) = get_elem?-map p.workers i falling e in
        h.nothing_queued i (e' ∙ ap some (wake_falling w f));
    stopped = λ i e. s;
  }

  enqueue_task-IsSound :
      (n : ℕ) (task : T) (p : ThreadPool T)
      → IsUnlocked p
      → IsSound n p
      → IsSound n (enqueue_task task p)
  unfolding enqueue_task
  enqueue_task-IsSound n task p u h = record {
    threads = h.threads;
    history = ap (λ l. l ++ (task ∷ [])) h.history ∙ append_assoc p.started p.tasks (task ∷ []);
    nothing_queued = λ i e. absurd (u i e);
    stopped = h.stopped;
  }

  worker_section-IsSound :
      (n i : ℕ) (tasks : List T) (p : ThreadPool T)
      → p.tasks ≡ tasks
      → IsUnlocked p
      → IsSound n p
      → IsSound n (worker_section i tasks p)
  unfolding set_worker
  worker_section-IsSound n i [] p q u h = record {
    threads = length-set p.workers i _ ∙ h.threads;
    history = h.history;
    nothing_queued = λ j e. q;
    stopped = λ j e. elim (Bool-cases p.stop) [
      | inl s ↦ s
      | inr s ↦ elim (get_elem?-set_cases p.workers i j _ exited e) [
        | inl e' ↦ absurd (true≢false (waiting s e'))
        | inr e' ↦ h.stopped j e'
      ]
    ];
  }
    where
      waiting :
          p.stop ≡ false
          → if◌then◌else◌ {A = Worker T} p.stop exited falling ≡ exited
          → true ≡ false
      waiting s e = cc
  worker_section-IsSound n i (task ∷ rest) p q u h = record {
    threads = length-set p.workers i _ ∙ h.threads;
    history = h.history ∙ ap (◌++◌ p.started) q ∙ sym (append_assoc p.started (task ∷ []) rest);
    nothing_queued = λ j e. elim (get_elem?-set_cases p.workers i j (running task) falling e) [
      | inl e' ↦ cc
      | inr e' ↦ absurd (u j e')
    ];
    stopped = λ j e. elim (get_elem?-set_cases p.workers i j (running task) exited e) [
      | inl e' ↦ cc
      | inr e' ↦ h.stopped j e'
    ];
  }

  notify_one-IsSound :
      (n left : ℕ) (p : ThreadPool T) → IsSound n p → IsSound n (record p { waking = left })
  notify_one-IsSound n left p h = record {
    threads = h.threads;
    history = h.history;
    nothing_queued = h.nothing_queued;
    stopped = h.stopped;
  }

  Step-IsSound : (n : ℕ) (p q : ThreadPool T) → Step p q → IsSound n p → IsSound n q
  Step-IsSound n p q (enqueues task u) h = enqueue_task-IsSound n task p u h
  Step-IsSound n p q (notifies_one i left e a) h =
      notify_one-IsSound n left (set_worker i idle p)
        (set_worker-IsSound n i idle p (λ e. cc) (λ e. cc) h)
  Step-IsSound n p q (notifies_nobody left e a) h = notify_one-IsSound n left p h
  Step-IsSound n p q (looks i e u) h = worker_section-IsSound n i p.tasks p refl u h
  Step-IsSound n p q (waits i e) h = set_worker-IsSound n i asleep p (λ e. cc) (λ e. cc) h
  Step-IsSound n p q (wakes_up i e) h = set_worker-IsSound n i idle p (λ e. cc) (λ e. cc) h
  Step-IsSound n p q (finishes i task e) h =
      let h' = set_worker-IsSound n i idle p (λ e. cc) (λ e. cc) h in
      record {
        threads = h'.threads;
        history = h'.history;
        nothing_queued = h'.nothing_queued;
        stopped = h'.stopped;
      }
  Step-IsSound n p q stops h = record {
    threads = h.threads;
    history = h.history;
    nothing_queued = h.nothing_queued;
    stopped = λ i e. refl;
  }
  Step-IsSound n p q (notifies_all s) h = notify_all-IsSound n p s h

  start-IsSound : (n : ℕ) → IsSound n (start n)
  start-IsSound n = record {
    threads = all_there n;
    history = refl;
    nothing_queued = λ i e. refl;
    stopped = λ i e. absurd (true≢false (all_idle n i e));
  }
    where
      all_there : (n : ℕ) → length {A = Worker T} (replicate n idle) ≡ n
      all_there zero = refl
      all_there (suc n) = ap suc (all_there n)

      all_idle :
          (n i : ℕ) → get_elem? {A = Worker T} (replicate n idle) i ≡ some exited → true ≡ false
      all_idle zero i e = cc
      all_idle (suc n) zero e = cc
      all_idle (suc n) (suc i) e = all_idle n i e

  pub Reaches-IsSound : (n : ℕ) (p : ThreadPool T) → Reaches n p → IsSound n p
  Reaches-IsSound n p starts = start-IsSound n
  Reaches-IsSound n _ (goes_on p q r s) = Step-IsSound n p q s (Reaches-IsSound n p r)
