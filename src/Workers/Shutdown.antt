-- ===== src/Workers/Shutdown.antt =====
-- The destructor of `ThreadPool` of utils.cpp, and workers that its notification misses.
use deribit_trading_system.Base.{
  ℕ, zero, suc, ◌≡◌, ◌≢◌, refl, sym, ap, ◌∙◌, true, List, [], ◌∷◌, some, get_elem?, set,
  get_elem?-set_ne, get_elem?-set_self, map,
}
use deribit_trading_system.Workers.{
  Worker, idle, falling, asleep, running, ThreadPool, set_worker, worker_section, Step, wake,
  enqueues, notifies_one, notifies_nobody, looks, waits, wakes_up, finishes, stops, notifies_all,
  Reaches, goes_on,
}
use deribit_trading_system.Workers.Drained.{Works, rests, moves, is_own}
use deribit_trading_system.Workers.Served.{in_range}

module _ {ℓ} {T : Type ℓ} where
  -- A worker that sleeps where no notification is to come.
  record IsMissed (i : ℕ) (p : ThreadPool T) : Type ℓ where
    sleeping : get_elem? p.workers i ≡ some asleep
    silent : p.waking ≡ 0

  some-inj : {a b : Worker T} → some a ≡ some b → a ≡ b
  some-inj e = cc

  set-IsMissed :
      (i j : ℕ) (v w : Worker T) (p : ThreadPool T)
      → get_elem? p.workers j ≡ some v
      → v ≢ asleep
      → IsMissed i p
      → get_elem? (set p.workers j w) i ≡ some asleep
  set-IsMissed i j v w p e ne h =
      get_elem?-set_ne p.workers w
        (λ q. ne (some-inj (sym e ∙ (ap (get_elem? p.workers) q ∙ h.sleeping))))
      ∙ h.sleeping

  section-IsMissed :
      (i j : ℕ) (tasks : List T) (p : ThreadPool T)
      → get_elem? p.workers j ≡ some idle
      → IsMissed i p
      → IsMissed i (worker_section j tasks p)
  unfolding set_worker
  section-IsMissed i j [] p e h = record {
    sleeping = set-IsMissed i j idle _ p e (λ q. cc) h;
    silent = h.silent;
  }
  section-IsMissed i j (task ∷ rest) p e h = record {
    sleeping = set-IsMissed i j idle (running task) p e (λ q. cc) h;
    silent = h.silent;
  }

  Step-IsMissed :
      (i : ℕ) (p q : ThreadPool T) (s : Step p q) → is_own s ≡ true → IsMissed i p → IsMissed i q
  unfolding set_worker
  Step-IsMissed i p q (enqueues task u) o h = cc
  Step-IsMissed i p q (notifies_one j left e a) o h = let w = h.silent in cc
  Step-IsMissed i p q (notifies_nobody left e a) o h = let w = h.silent in cc
  Step-IsMissed i p q (looks j e u) o h = section-IsMissed i j p.tasks p e h
  Step-IsMissed i p q (waits j e) o h = record {
    sleeping = set-IsMissed i j falling asleep p e (λ q. cc) h;
    silent = h.silent;
  }
  Step-IsMissed i p q (wakes_up j e) o h = cc
  Step-IsMissed i p q (finishes j task e) o h = record {
    sleeping = set-IsMissed i j (running task) idle p e (λ q. cc) h;
    silent = h.silent;
  }
  Step-IsMissed i p q stops o h = cc
  Step-IsMissed i p q (notifies_all s) o h = cc

  Works-IsMissed : (i : ℕ) (p q : ThreadPool T) → Works p q → IsMissed i p → IsMissed i q
  Works-IsMissed i p q (rests _) h = h
  Works-IsMissed i p q (moves _ o _ s own w) h =
      Works-IsMissed i o q w (Step-IsMissed i p o s own h)

  wake-get_elem? :
      (ws : List (Worker T)) (i : ℕ)
      → get_elem? ws i ≡ some falling
      → get_elem? (map wake ws) i ≡ some falling
  wake-get_elem? [] i e = cc
  wake-get_elem? (w ∷ ws) zero e = let q : w ≡ falling = cc in rw q refl
  wake-get_elem? (w ∷ ws) (suc i) e = wake-get_elem? ws i e

  abbrev pub notify_all : ThreadPool T → ThreadPool T
  notify_all p = record p { workers = map wake p.workers; notified = true }

  abbrev pub stop_all : ThreadPool T → ThreadPool T
  stop_all p = record p { stop = true }

  -- Where a worker has found nothing to do and does not wait yet, with no other notification to come,
  -- the destructor may set `stop` and notify before it waits. Then it sleeps for good, whatever the
  -- workers go on to do, unless it wakes up spuriously.
  pub Reaches-missed :
      (n i : ℕ) (p : ThreadPool T)
      → Reaches n p
      → get_elem? p.workers i ≡ some falling
      → p.waking ≡ 0
      → Reaches n (set_worker i asleep (notify_all (stop_all p)))
        × ((q : ThreadPool T)
            → Works (set_worker i asleep (notify_all (stop_all p))) q
            → get_elem? q.workers i ≡ some asleep)
  unfolding set_worker
  Reaches-missed n i p r e w =
      let stopped = stop_all p in
      let e' = wake-get_elem? p.workers i e in
      let last = set_worker i asleep (notify_all (stop_all p)) in
      let missed : IsMissed i last = record {
        sleeping =
            get_elem?-set_self (map wake p.workers) i asleep
              (in_range (map wake p.workers) i falling e');
        silent = w;
      } in
      (
        goes_on (notify_all (stop_all p)) last
            (goes_on stopped (notify_all (stop_all p)) (goes_on p stopped r stops)
              (notifies_all refl))
            (waits i e'),
        λ q k. (Works-IsMissed i last q k missed).sleeping,
      )
