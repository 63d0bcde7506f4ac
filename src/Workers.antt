-- ===== src/Workers.antt =====
-- `ThreadPool` of utils.h and utils.cpp: its queue, its workers and its shutdown, as steps that
-- interleave. `queueMutex` makes a locked section one step, apart from the moment in which a worker
-- has found nothing to do, holds the mutex and does not wait yet: the destructor takes no mutex.
pub mod Sound
pub mod Served
pub mod Completed
pub mod Shutdown
pub mod Leaving
pub mod Stopping
pub mod Joined
pub mod Drained
mod Tests
use deribit_trading_system.Base.{
  ℕ, zero, suc, ◌+◌, ◌≡◌, ◌≢◌, Bool, true, false, List, [], ◌∷◌, ◌++◌, Option, none, some,
  if◌then◌else◌, map, get_elem?, set, replicate,
}

-- Where a worker stands in `workerThread`.
pub data Worker {ℓ} (T : Type ℓ) : Type ℓ where
  idle : Worker T
  falling : Worker T
  asleep : Worker T
  running : T → Worker T
  exited : Worker T

-- `waking` counts the calls of `notify_one` still to come. What was put in, what was taken out and
-- what was done is kept beside the fields of the source.
pub record ThreadPool {ℓ} (T : Type ℓ) : Type ℓ where
  pub workers : List (Worker T)
  pub tasks : List T
  pub stop : Bool
  pub waking : ℕ
  pub notified : Bool
  pub submitted : List T
  pub started : List T
  pub finished : List T

module _ {ℓ} {T : Type ℓ} where
  -- The constructor.
  abbrev pub start : ℕ → ThreadPool T
  start num_threads = record {
    workers = replicate num_threads idle;
    tasks = [];
    stop = false;
    waking = 0;
    notified = false;
    submitted = [];
    started = [];
    finished = [];
  }

  unfoldable pub set_worker : ℕ → Worker T → ThreadPool T → ThreadPool T
  set_worker i w p = record p { workers = set p.workers i w }

  -- The locked section of `enqueueTask`.
  unfoldable pub enqueue_task : T → ThreadPool T → ThreadPool T
  enqueue_task task p = record p {
    tasks = p.tasks ++ (task ∷ []);
    submitted = p.submitted ++ (task ∷ []);
    waking = p.waking + 1;
  }

  -- The locked section of `workerThread` from the test of `condition.wait` on: with nothing queued it
  -- returns if `stop` is set, and waits otherwise.
  abbrev pub worker_section : ℕ → List T → ThreadPool T → ThreadPool T
  worker_section i [] p = set_worker i (if p.stop then exited else falling) p
  worker_section i (task ∷ rest) p = record (set_worker i (running task) p) {
    tasks = rest;
    started = p.started ++ (task ∷ []);
  }

  -- What `notify_all` does to a worker.
  abbrev pub wake : Worker T → Worker T
  wake asleep = idle
  wake w = w

  -- No worker holds the mutex.
  abbrev pub IsUnlocked : ThreadPool T → Type ℓ
  IsUnlocked p = (i : ℕ) → get_elem? p.workers i ≢ some falling

  pub data Step (p : ThreadPool T) : ThreadPool T → Type ℓ where
    enqueues : (task : T) → IsUnlocked p → Step p (enqueue_task task p)
    notifies_one :
        (i left : ℕ)
        → p.waking ≡ suc left
        → get_elem? p.workers i ≡ some asleep
        → Step p (record (set_worker i idle p) { waking = left })
    notifies_nobody :
        (left : ℕ)
        → p.waking ≡ suc left
        → ((i : ℕ) → get_elem? p.workers i ≢ some asleep)
        → Step p (record p { waking = left })
    looks :
        (i : ℕ)
        → get_elem? p.workers i ≡ some idle
        → IsUnlocked p
        → Step p (worker_section i p.tasks p)
    waits : (i : ℕ) → get_elem? p.workers i ≡ some falling → Step p (set_worker i asleep p)
    wakes_up : (i : ℕ) → get_elem? p.workers i ≡ some asleep → Step p (set_worker i idle p)
    finishes :
        (i : ℕ) (task : T)
        → get_elem? p.workers i ≡ some (running task)
        → Step p (record (set_worker i idle p) { finished = p.finished ++ (task ∷ []) })
    stops : Step p (record p { stop = true })
    notifies_all :
        p.stop ≡ true → Step p (record p { workers = map wake p.workers; notified = true })

  -- The states that a pool with so many threads comes to.
  pub data Reaches (num_threads : ℕ) : ThreadPool T → Type ℓ where
    starts : Reaches num_threads (start num_threads)
    goes_on : (p q : ThreadPool T) → Reaches num_threads p → Step p q → Reaches num_threads q
