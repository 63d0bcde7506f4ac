-- ===== src/Workers/Stopping.antt =====
-- The workers of `ThreadPool` of utils.cpp between the two lines of its destructor.
use mathlib.Core.Bool.{true≢false}
use deribit_trading_system.Base.{
  ℕ, ◌<◌, ◌≡◌, ◌≢◌, inl, inr, refl, sym, ap, ◌∙◌, true, false, List, [], ◌∷◌, some, get_elem?,
  length, arith, get_elem?-set_self,
}
use deribit_trading_system.Workers.{
  Worker, idle, falling, asleep, running, exited, ThreadPool, set_worker, worker_section, Step,
  IsUnlocked, enqueues, notifies_one, notifies_nobody, looks, waits, wakes_up, finishes, stops,
  notifies_all, Reaches,
}
use deribit_trading_system.Workers.Sound.{IsSound, Reaches-IsSound, get_elem?-set_cases}
use deribit_trading_system.Workers.Served.{in_range}
use deribit_trading_system.Workers.Drained.{Works, rests, moves, is_own}

module _ {ℓ} {T : Type ℓ} where
  -- A worker that has not left.
  abbrev pub IsStaffed : ThreadPool T → Type ℓ
  IsStaffed p = (i : ℕ) × (w : Worker T) × (get_elem? p.workers i ≡ some w) × (w ≢ exited)

  pub record IsStopping (p : ThreadPool T) : Type ℓ where
    pub stop : p.stop ≡ true
    pub unlocked : IsUnlocked p
    pub staffed : p.tasks ≢ [] → IsStaffed p

  set-IsUnlocked :
      (i : ℕ) (w : Worker T) (p : ThreadPool T)
      → w ≢ falling
      → IsUnlocked p
      → IsUnlocked (set_worker i w p)
  unfolding set_worker
  set-IsUnlocked i w p ne u j e = elim (get_elem?-set_cases p.workers i j w falling e) [
    | inl q ↦ ne q
    | inr q ↦ u j q
  ]

  set-IsStaffed :
      (i : ℕ) (v w : Worker T) (p : ThreadPool T)
      → get_elem? p.workers i ≡ some v
      → w ≢ exited
      → IsStaffed (set_worker i w p)
  unfolding set_worker
  set-IsStaffed i v w p e ne =
      (i, w, get_elem?-set_self p.workers i w (in_range p.workers i v e), ne)

  section-IsStopping :
      (i : ℕ) (tasks : List T) (p : ThreadPool T)
      → p.tasks ≡ tasks
      → get_elem? p.workers i ≡ some idle
      → IsStopping p
      → IsStopping (worker_section i tasks p)
  unfolding set_worker
  section-IsStopping i [] p q e h = record {
    stop = h.stop;
    unlocked = rw h.stop (set-IsUnlocked i exited p (λ k. cc) h.unlocked);
    staffed = λ ne. absurd (ne q);
  }
  section-IsStopping i (task ∷ rest) p q e h = record {
    stop = h.stop;
    unlocked = set-IsUnlocked i (running task) p (λ k. cc) h.unlocked;
    staffed = λ ne. set-IsStaffed i idle (running task) p e (λ k. cc);
  }

  Step-IsStopping :
      (p q : ThreadPool T) (s : Step p q) → is_own s ≡ true → IsStopping p → IsStopping q
  unfolding set_worker
  Step-IsStopping p q (enqueues task u) o h = cc
  Step-IsStopping p q (notifies_one i left e a) o h = record {
    stop = h.stop;
    unlocked = set-IsUnlocked i idle p (λ k. cc) h.unlocked;
    staffed = λ ne. set-IsStaffed i asleep idle p a (λ k. cc);
  }
  Step-IsStopping p q (notifies_nobody left e a) o h = record {
    stop = h.stop;
    unlocked = h.unlocked;
    staffed = h.staffed;
  }
  Step-IsStopping p q (looks i e u) o h = section-IsStopping i p.tasks p refl e h
  Step-IsStopping p q (waits i e) o h = absurd (h.unlocked i e)
  Step-IsStopping p q (wakes_up i e) o h = cc
  Step-IsStopping p q (finishes i task e) o h = record {
    stop = h.stop;
    unlocked = set-IsUnlocked i idle p (λ k. cc) h.unlocked;
    staffed = λ ne. set-IsStaffed i (running task) idle p e (λ k. cc);
  }
  Step-IsStopping p q stops o h = cc
  Step-IsStopping p q (notifies_all s) o h = cc

  pub Works-IsStopping : (p q : ThreadPool T) → Works p q → IsStopping p → IsStopping q
  Works-IsStopping p q (rests _) h = h
  Works-IsStopping p q (moves _ o _ s own w) h =
      Works-IsStopping o q w (Step-IsStopping p o s own h)

  unstopped-IsStaffed :
      (n : ℕ) (p : ThreadPool T) (ws : List (Worker T))
      → p.workers ≡ ws
      → 0 < n
      → IsSound n p
      → p.stop ≡ false
      → IsStaffed p
  unstopped-IsStaffed n p [] e z h s = absurd (omega (arith, h.threads, ap length e))
  unstopped-IsStaffed n p (w ∷ ws) e z h s =
      (0, w, rw e refl, λ q. true≢false (sym (h.stopped 0 (rw (e, q) refl)) ∙ s))

  -- With `stop` set, where no worker is between its test and its wait.
  pub stop-IsStopping :
      (n : ℕ) (p : ThreadPool T)
      → 0 < n
      → Reaches n p
      → p.stop ≡ false
      → IsUnlocked p
      → IsStopping (record p { stop = true })
  stop-IsStopping n p z r s u = record {
    stop = refl;
    unlocked = u;
    staffed = λ ne. unstopped-IsStaffed n p p.workers refl z (Reaches-IsSound n p r) s;
  }
