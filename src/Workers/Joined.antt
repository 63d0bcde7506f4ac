-- ===== src/Workers/Joined.antt =====
-- The destructor of `ThreadPool` of utils.cpp, from where no worker is about to wait.
use mathlib.Core.List.{Perm, append-nil}
use deribit_trading_system.Base.{
  ℕ, zero, suc, ◌<◌, ◌≡◌, ◌≢◌, ◌⊎◌, inl, inr, refl, ap, ◌∙◌, true, false, List, [], ◌∷◌, some, map,
  get_elem?, All,
}
use deribit_trading_system.Workers.{
  Worker, idle, falling, asleep, running, exited, ThreadPool, set_worker, worker_section, wake,
  Step, IsUnlocked, enqueues, notifies_one, notifies_nobody, looks, waits, wakes_up, finishes,
  stops, notifies_all, Reaches, goes_on,
}
use deribit_trading_system.Workers.Served.{IsAwake}
use deribit_trading_system.Workers.Drained.{Works, rests, moves, is_own, Works-trans}
use deribit_trading_system.Workers.Completed.{Reaches-once}
use deribit_trading_system.Workers.Stopping.{IsStopping, Works-IsStopping, stop-IsStopping}
use deribit_trading_system.Workers.Shutdown.{notify_all, stop_all}
use deribit_trading_system.Workers.Leaving.{
  IsUp, IsGone, IsLeaving, Works-IsLeaving, emptied, relieved-IsGone, gone-running_of,
}

module _ {ℓ} {T : Type ℓ} where
  section-submitted :
      (i : ℕ) (tasks : List T) (p : ThreadPool T)
      → (worker_section i tasks p).submitted ≡ p.submitted
  unfolding set_worker
  section-submitted i [] p = refl
  section-submitted i (task ∷ rest) p = refl

  Step-submitted : (p q : ThreadPool T) (s : Step p q) → is_own s ≡ true → q.submitted ≡ p.submitted
  unfolding set_worker
  Step-submitted p q (enqueues task u) o = cc
  Step-submitted p q (notifies_one i left e a) o = refl
  Step-submitted p q (notifies_nobody left e a) o = refl
  Step-submitted p q (looks i e u) o = section-submitted i p.tasks p
  Step-submitted p q (waits i e) o = refl
  Step-submitted p q (wakes_up i e) o = cc
  Step-submitted p q (finishes i task e) o = refl
  Step-submitted p q stops o = cc
  Step-submitted p q (notifies_all s) o = cc

  Works-submitted : (p q : ThreadPool T) → Works p q → q.submitted ≡ p.submitted
  Works-submitted p q (rests _) = refl
  Works-submitted p q (moves _ o _ s own w) = Works-submitted o q w ∙ Step-submitted p o s own

  wake-IsUp :
      (ws : List (Worker T)) → ((i : ℕ) → get_elem? ws i ≢ some falling) → All IsUp (map wake ws)
  wake-IsUp [] u = tt
  wake-IsUp (idle ∷ ws) u = (tt, wake-IsUp ws (λ i. u (suc i)))
  wake-IsUp (asleep ∷ ws) u = (tt, wake-IsUp ws (λ i. u (suc i)))
  wake-IsUp (running t ∷ ws) u = (tt, wake-IsUp ws (λ i. u (suc i)))
  wake-IsUp (exited ∷ ws) u = (tt, wake-IsUp ws (λ i. u (suc i)))
  wake-IsUp (falling ∷ ws) u = absurd (u 0 refl)

  -- Notified, a worker that has not left is awake.
  wake-IsAwake :
      (ws : List (Worker T)) (i : ℕ) (w : Worker T)
      → get_elem? ws i ≡ some w
      → w ≢ falling
      → w ≢ exited
      → (get_elem? (map wake ws) i ≡ some idle)
        ⊎ ((task : T) × (get_elem? (map wake ws) i ≡ some (running task)))
  wake-IsAwake [] i w e f g = cc
  wake-IsAwake (idle ∷ ws) zero w e f g = inl refl
  wake-IsAwake (asleep ∷ ws) zero w e f g = inl refl
  wake-IsAwake (running t ∷ ws) zero w e f g = inr (t, refl)
  wake-IsAwake (falling ∷ ws) zero w e f g = absurd (f cc)
  wake-IsAwake (exited ∷ ws) zero w e f g = absurd (g cc)
  wake-IsAwake (x ∷ ws) (suc i) w e f g = wake-IsAwake ws i w e f g

  notify_all-IsAwake : (p : ThreadPool T) → IsStopping p → p.tasks ≢ [] → IsAwake (notify_all p)
  notify_all-IsAwake p h ne =
      let (i, w, e, g) = h.staffed ne in
      (i, wake-IsAwake p.workers i w e (λ q. h.unlocked i (e ∙ ap some q)) g)

  -- What is queued when all have been notified is taken out.
  notified-emptied :
      (n : ℕ) (tasks : List T) (p : ThreadPool T)
      → p.tasks ≡ tasks
      → Reaches n (notify_all p)
      → IsStopping p
      → IsLeaving (notify_all p)
      → (q : ThreadPool T) × Works (notify_all p) q × Reaches n q × (q.tasks ≡ [])
  notified-emptied n [] p e r h l = (notify_all p, rests (notify_all p), r, e)
  notified-emptied n (task ∷ rest) p e r h l =
      emptied n (task ∷ rest) (notify_all p) e (notify_all-IsAwake p h (λ k. cc)) r l

  Works-Reaches : (n : ℕ) (p q : ThreadPool T) → Works p q → Reaches n p → Reaches n q
  Works-Reaches n p q (rests _) r = r
  Works-Reaches n p q (moves _ o _ s own w) r = Works-Reaches n o q w (goes_on p o r s)

  -- In a pool with threads, where no worker is between its test of the condition and its wait when
  -- the destructor sets `stop`, then whatever the workers do before it notifies all, they can go on by
  -- themselves until every task that was ever put in is done, once, and all have left.
  pub Reaches-joined :
      (n : ℕ) (p stopped : ThreadPool T)
      → 0 < n
      → Reaches n p
      → p.stop ≡ false
      → IsUnlocked p
      → Works (stop_all p) stopped
      → (q : ThreadPool T) × Works (notify_all stopped) q
        × All IsGone q.workers
        × Perm p.submitted q.finished
  Reaches-joined n p stopped z r s u k =
      let first = stop_all p in
      let h = Works-IsStopping first stopped k (stop-IsStopping n p z r s u) in
      let r1 = Works-Reaches n first stopped k (goes_on p first r stops) in
      let r2 = goes_on stopped (notify_all stopped) r1 (notifies_all h.stop) in
      let leaving : IsLeaving (notify_all stopped) = record {
        stop = h.stop;
        up = wake-IsUp stopped.workers h.unlocked;
      } in
      let (q, w, r3, e) = notified-emptied n stopped.tasks stopped refl r2 h leaving in
      let (o, w', r4, e', gone) =
        relieved-IsGone n q e r3 (Works-IsLeaving (notify_all stopped) q w leaving) in
      let path = Works-trans (notify_all stopped) q o w w' in
      let same = Works-submitted (notify_all stopped) o path ∙ Works-submitted first stopped k in
      let all = Reaches-once n o r4 in
      (o, path, gone, rw (e', gone-running_of o.workers gone, append-nil, same) at all)
