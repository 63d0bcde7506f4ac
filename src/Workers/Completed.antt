-- ===== src/Workers/Completed.antt =====
-- The tasks that the workers of `ThreadPool` of utils.cpp are at, and those that they have done.
use mathlib.Core.List.{Perm, perm_append_comm, append_assoc, append-nil}
use mathlib.Core.List.Perm
use deribit_trading_system.Loans.{Perm-length}
use deribit_trading_system.Base.{
  ℕ, zero, suc, ◌<◌, ◌≡◌, inl, inr, refl, ap, true, false, List, [], ◌∷◌, ◌++◌, some, map,
  get_elem?, set, length, replicate, Bool-cases, arith,
}
use deribit_trading_system.Workers.{
  Worker, idle, falling, asleep, running, exited, ThreadPool, set_worker, enqueue_task,
  worker_section, wake, Step, enqueues, notifies_one, notifies_nobody, looks, waits, wakes_up,
  finishes, stops, notifies_all, Reaches, starts, goes_on,
}
use deribit_trading_system.Workers.Sound.{Reaches-IsSound}
use deribit_trading_system.Workers.Drained.{Works, rests, moves, drained, Works-trans}

module _ {ℓ} {T : Type ℓ} where
  abbrev load : Worker T → List T
  load (running task) = task ∷ []
  load w = []

  -- What the workers are at.
  abbrev pub running_of : List (Worker T) → List T
  running_of [] = []
  running_of (w ∷ ws) = load w ++ running_of ws

  swap_front : (xs ys zs : List T) → Perm (xs ++ (ys ++ zs)) (ys ++ (xs ++ zs))
  swap_front xs ys zs =
      rw (← append_assoc xs ys zs, ← append_assoc ys xs zs)
        (Perm.append_right zs (perm_append_comm xs ys))

  set-load :
      (ws : List (Worker T)) (i : ℕ) (v w : Worker T)
      → get_elem? ws i ≡ some v
      → Perm (load v ++ running_of (set ws i w)) (load w ++ running_of ws)
  set-load [] i v w e = cc
  set-load (x ∷ ws) zero v w e =
      let q : x ≡ v = cc in rw q (swap_front (load v) (load w) (running_of ws))
  set-load (x ∷ ws) (suc i) v w e =
      Perm.trans (swap_front (load v) (load x) (running_of (set ws i w))) (
        Perm.trans (Perm.append_left (load x) (set-load ws i v w e))
          (swap_front (load x) (load w) (running_of ws)))

  wake-load : (w : Worker T) → load (wake w) ≡ load w
  wake-load asleep = refl
  wake-load idle = refl
  wake-load falling = refl
  wake-load (running t) = refl
  wake-load exited = refl

  wake-running_of : (ws : List (Worker T)) → running_of (map wake ws) ≡ running_of ws
  wake-running_of [] = refl
  wake-running_of (w ∷ ws) = rw (wake-load w, wake-running_of ws) refl

  -- What was taken out is done or being done.
  abbrev IsCounted : ThreadPool T → Type ℓ
  IsCounted p = Perm p.started (p.finished ++ running_of p.workers)

  -- Between two workers with nothing to do.
  set-IsCounted :
      (i : ℕ) (v w : Worker T) (p : ThreadPool T)
      → get_elem? p.workers i ≡ some v
      → load v ≡ []
      → load w ≡ []
      → IsCounted p
      → IsCounted (set_worker i w p)
  unfolding set_worker
  set-IsCounted i v w p e v' w' h =
      let k : Perm (running_of (set p.workers i w)) (running_of p.workers) =
        rw (v', w') at (set-load p.workers i v w e) in
      Perm.trans h (Perm.append_left p.finished (Perm.symm k))

  section-IsCounted :
      (i : ℕ) (tasks : List T) (p : ThreadPool T)
      → get_elem? p.workers i ≡ some idle
      → IsCounted p
      → IsCounted (worker_section i tasks p)
  unfolding set_worker
  section-IsCounted i [] p e h = elim (Bool-cases p.stop) [
    | inl s ↦ rw s (set-IsCounted i idle exited p e refl refl h)
    | inr s ↦ rw s (set-IsCounted i idle falling p e refl refl h)
  ]
  section-IsCounted i (task ∷ rest) p e h =
      let one = task ∷ [] in
      let more =
        Perm.trans (perm_append_comm (running_of p.workers) one)
          (Perm.symm (set-load p.workers i idle (running task) e)) in
      Perm.trans (Perm.append_right one h) (rw append_assoc (Perm.append_left p.finished more))

  Step-IsCounted : (p q : ThreadPool T) → Step p q → IsCounted p → IsCounted q
  unfolding enqueue_task set_worker
  Step-IsCounted p q (enqueues task u) h = h
  Step-IsCounted p q (notifies_one i left e a) h = set-IsCounted i asleep idle p a refl refl h
  Step-IsCounted p q (notifies_nobody left e a) h = h
  Step-IsCounted p q (looks i e u) h = section-IsCounted i p.tasks p e h
  Step-IsCounted p q (waits i e) h = set-IsCounted i falling asleep p e refl refl h
  Step-IsCounted p q (wakes_up i e) h = set-IsCounted i asleep idle p e refl refl h
  Step-IsCounted p q (finishes i task e) h = rw append_assoc (
      Perm.trans h
        (Perm.append_left p.finished (Perm.symm (set-load p.workers i (running task) idle e))))
  Step-IsCounted p q stops h = h
  Step-IsCounted p q (notifies_all s) h = rw wake-running_of h

  all_idle : (n : ℕ) → running_of (replicate n idle) ≡ []
  all_idle zero = refl
  all_idle (suc n) = all_idle n

  Reaches-IsCounted : (n : ℕ) (p : ThreadPool T) → Reaches n p → IsCounted p
  Reaches-IsCounted n p starts = rw (all_idle n) (Perm.refl [])
  Reaches-IsCounted n _ (goes_on p q r s) = Step-IsCounted p q s (Reaches-IsCounted n p r)

  -- However the threads interleave, each task that was put in is still queued, being done, or done,
  -- and that once.
  pub Reaches-once :
      (n : ℕ) (p : ThreadPool T)
      → Reaches n p
      → Perm p.submitted (p.finished ++ (running_of p.workers ++ p.tasks))
  Reaches-once n p r =
      rw ((Reaches-IsSound n p r).history, ← append_assoc p.finished (running_of p.workers) p.tasks)
        (Perm.append_right p.tasks (Reaches-IsCounted n p r))

  -- However the threads interleave, the tasks that were taken out are, in order, the first of those
  -- that were put in, and the rest is still queued; each that was taken out is done or being done,
  -- once; and a worker leaves only after the stop.
  pub Reaches-ordered :
      (n : ℕ) (p : ThreadPool T)
      → Reaches n p
      → (p.submitted ≡ p.started ++ p.tasks)
        × Perm p.started (p.finished ++ running_of p.workers)
        × ((i : ℕ) → get_elem? p.workers i ≡ some exited → p.stop ≡ true)
  Reaches-ordered n p r =
      let h = Reaches-IsSound n p r in (h.history, Reaches-IsCounted n p r, h.stopped)

  find_running :
      (ws : List (Worker T)) (task : T) (rest : List T)
      → running_of ws ≡ task ∷ rest
      → (i : ℕ) × (get_elem? ws i ≡ some (running task))
  find_running [] task rest e = cc
  find_running (running t ∷ ws) task rest e = (0, cc)
  find_running (idle ∷ ws) task rest e = let (i, h) = find_running ws task rest e in (suc i, h)
  find_running (falling ∷ ws) task rest e = let (i, h) = find_running ws task rest e in (suc i, h)
  find_running (asleep ∷ ws) task rest e = let (i, h) = find_running ws task rest e in (suc i, h)
  find_running (exited ∷ ws) task rest e = let (i, h) = find_running ws task rest e in (suc i, h)

  -- With nothing queued, the workers come to an end of what they are at.
  pub relieved :
      (n left : ℕ) (work : List T) (p : ThreadPool T)
      → running_of p.workers ≡ work
      → length work ≡ left
      → Reaches n p
      → p.tasks ≡ []
      → (q : ThreadPool T) × Works p q
        × Reaches n q
        × (q.tasks ≡ [])
        × (running_of q.workers ≡ [])
        × (q.submitted ≡ p.submitted)
  unfolding set_worker
  relieved n left [] p e l r t = (p, rests p, r, t, e, refl)
  relieved n zero (task ∷ rest) p e l r t = absurd (omega arith)
  relieved n (suc left) (task ∷ rest) p e l r t =
      let (i, h) = find_running p.workers task rest e in
      let q = record (set_worker i idle p) { finished = p.finished ++ (task ∷ []) } in
      let step = finishes i task h in
      let fewer = Perm-length (set-load p.workers i (running task) idle h) in
      let (o, w, r', t', e', s) =
        relieved n left (running_of q.workers) q refl (omega (arith, fewer, ap length e))
          (goes_on p q r step) t in
      (o, moves p q o step refl w, r', t', e', s)

  -- In a pool with threads that has not been stopped, whatever has happened, the workers and the
  -- pending notifications can go on by themselves until every task that was ever put in is done, and
  -- that once.
  pub Reaches-completed :
      (n : ℕ) (p : ThreadPool T)
      → 0 < n
      → Reaches n p
      → p.stop ≡ false
      → (q : ThreadPool T) × Works p q × Perm p.submitted q.finished
  Reaches-completed n p z r s =
      let (q, w, r', e, same) = drained n p.tasks p refl z r s in
      let (o, w', r'', e', quiet, same') =
        relieved n (length (running_of q.workers)) (running_of q.workers) q refl refl r' e in
      let all : Perm o.submitted (o.finished ++ []) = rw (quiet, e') at (Reaches-once n o r'') in
      (o, Works-trans p q o w w', rw (append-nil, same', same) at all)
