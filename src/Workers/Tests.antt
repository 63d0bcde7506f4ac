-- ===== src/Workers/Tests.antt =====
-- `ThreadPool` of utils.cpp with one thread.
use mathlib.Core.List.{Perm}
use deribit_trading_system.Base.{
  ℕ, zero, suc, ◌≡◌, ◌≢◌, refl, true, false, [], ◌++◌, some, get_elem?, All, arith,
}
use deribit_trading_system.Workers.{
  asleep, falling, exited, ThreadPool, start, set_worker, enqueue_task, worker_section, IsUnlocked,
  enqueues, looks, waits, Reaches, starts, goes_on,
}
use deribit_trading_system.Workers.Drained.{Works, rests}
use deribit_trading_system.Workers.Shutdown.{notify_all, stop_all, Reaches-missed}
use deribit_trading_system.Workers.Leaving.{IsGone}
use deribit_trading_system.Workers.Joined.{Reaches-joined}
use deribit_trading_system.Workers.Completed.{running_of, Reaches-ordered, Reaches-completed}

abbrev first_look : ThreadPool ℕ
first_look = worker_section 0 [] (start 1)

start-IsUnlocked : IsUnlocked {T = ℕ} (start 1)
start-IsUnlocked zero e = cc
start-IsUnlocked (suc i) e = cc

first_look-Reaches : Reaches 1 first_look
first_look-Reaches = goes_on (start 1) first_look starts (looks 0 refl start-IsUnlocked)

-- The worker waits, and then a task comes in.
abbrev sleeping : ThreadPool ℕ
sleeping = set_worker 0 asleep first_look

sleeping-Reaches : Reaches 1 sleeping
unfolding set_worker
sleeping-Reaches = goes_on first_look sleeping first_look-Reaches (waits 0 refl)

sleeping-IsUnlocked : IsUnlocked sleeping
unfolding set_worker
sleeping-IsUnlocked zero e = cc
sleeping-IsUnlocked (suc i) e = cc

abbrev queued : ThreadPool ℕ
queued = enqueue_task 7 sleeping

queued-Reaches : Reaches 1 queued
queued-Reaches = goes_on sleeping queued sleeping-Reaches (enqueues 7 sleeping-IsUnlocked)

Reaches-ordered_example :
    (queued.submitted ≡ queued.started ++ queued.tasks)
    × Perm queued.started (queued.finished ++ running_of queued.workers)
    × ((i : ℕ) → get_elem? queued.workers i ≡ some exited → queued.stop ≡ true)
Reaches-ordered_example = Reaches-ordered 1 queued queued-Reaches

queued_running : queued.stop ≡ false
unfolding enqueue_task set_worker
queued_running = refl

queued_waiting : queued.tasks ≢ []
unfolding enqueue_task set_worker
queued_waiting e = cc

Reaches-completed_example : (q : ThreadPool ℕ) × Works queued q × Perm queued.submitted q.finished
Reaches-completed_example = Reaches-completed 1 queued (omega arith) queued-Reaches queued_running

first_look_falling : get_elem? first_look.workers 0 ≡ some falling
unfolding set_worker
first_look_falling = refl

first_look_silent : first_look.waking ≡ 0
unfolding set_worker
first_look_silent = refl

-- The destructor stops the pool and notifies between the worker's test and its wait.
Reaches-missed_example :
    Reaches 1 (set_worker 0 asleep (notify_all (stop_all first_look)))
    × ((q : ThreadPool ℕ)
        → Works (set_worker 0 asleep (notify_all (stop_all first_look))) q
        → get_elem? q.workers 0 ≡ some asleep)
Reaches-missed_example =
    Reaches-missed 1 0 first_look first_look-Reaches first_look_falling first_look_silent

queued-IsUnlocked : IsUnlocked queued
unfolding enqueue_task set_worker
queued-IsUnlocked zero e = cc
queued-IsUnlocked (suc i) e = cc

Reaches-joined_example :
    (q : ThreadPool ℕ) × Works (notify_all (stop_all queued)) q
    × All IsGone q.workers
    × Perm queued.submitted q.finished
Reaches-joined_example =
    Reaches-joined 1 queued (stop_all queued) (omega arith) queued-Reaches queued_running
      queued-IsUnlocked (rests (stop_all queued))
