-- ===== src/Workers/Leaving.antt =====
-- The workers of a `ThreadPool` of utils.cpp that is stopped, and in which nobody waits.
use deribit_trading_system.Base.{
  ℕ, zero, suc, ◌≡◌, inr, refl, sym, ap, subst, ◌∙◌, true, List, [], ◌∷◌, some, if◌then◌else◌,
  get_elem?, set, length, get_elem?-set_self, All, arith,
}
use deribit_trading_system.Workers.{
  Worker, idle, falling, asleep, running, exited, ThreadPool, set_worker, worker_section, Step,
  IsUnlocked, enqueues, notifies_one, notifies_nobody, looks, waits, wakes_up, finishes, stops,
  notifies_all, Reaches, goes_on,
}
use deribit_trading_system.Workers.Served.{IsAwake, in_range}
use deribit_trading_system.Workers.Drained.{Works, rests, moves, is_own, awake-IsReady, Works-trans}
use deribit_trading_system.Workers.Completed.{running_of, relieved}

module _ {ℓ} {T : Type ℓ} where
  -- Neither waiting nor about to wait.
  abbrev pub IsUp : Worker T → Type 0
  IsUp falling = ⊥
  IsUp asleep = ⊥
  IsUp w = Unit

  get_elem?-IsUp :
      (ws : List (Worker T)) (i : ℕ) (w : Worker T) → All IsUp ws → get_elem? ws i ≡ some w → IsUp w
  get_elem?-IsUp [] i w h e = cc
  get_elem?-IsUp (x ∷ ws) zero w h e = let q : x ≡ w = cc in subst IsUp q h.0
  get_elem?-IsUp (x ∷ ws) (suc i) w h e = get_elem?-IsUp ws i w h.1 e

  set-All :
      (P : Worker T → Type 0) (ws : List (Worker T)) (i : ℕ) (w : Worker T)
      → All P ws
      → P w
      → All P (set ws i w)
  set-All P [] i w h p = h
  set-All P (x ∷ ws) zero w h p = (p, h.1)
  set-All P (x ∷ ws) (suc i) w h p = (h.0, set-All P ws i w h.1 p)

  -- A stopped pool in which nobody waits.
  pub record IsLeaving (p : ThreadPool T) : Type ℓ where
    pub stop : p.stop ≡ true
    pub up : All IsUp p.workers

  section-IsLeaving :
      (i : ℕ) (tasks : List T) (p : ThreadPool T)
      → IsLeaving p
      → IsLeaving (worker_section i tasks p)
  unfolding set_worker
  section-IsLeaving i [] p h = record {
    stop = h.stop;
    up = rw h.stop (set-All IsUp p.workers i exited h.up tt);
  }
  section-IsLeaving i (task ∷ rest) p h = record {
    stop = h.stop;
    up = set-All IsUp p.workers i (running task) h.up tt;
  }

  Step-IsLeaving : (p q : ThreadPool T) (s : Step p q) → is_own s ≡ true → IsLeaving p → IsLeaving q
  unfolding set_worker
  Step-IsLeaving p q (enqueues task u) o h = cc
  Step-IsLeaving p q (notifies_one i left e a) o h =
      absurd (get_elem?-IsUp p.workers i asleep h.up a)
  Step-IsLeaving p q (notifies_nobody left e a) o h = record { stop = h.stop; up = h.up }
  Step-IsLeaving p q (looks i e u) o h = section-IsLeaving i p.tasks p h
  Step-IsLeaving p q (waits i e) o h = absurd (get_elem?-IsUp p.workers i falling h.up e)
  Step-IsLeaving p q (wakes_up i e) o h = cc
  Step-IsLeaving p q (finishes i task e) o h = record {
    stop = h.stop;
    up = set-All IsUp p.workers i idle h.up tt;
  }
  Step-IsLeaving p q stops o h = cc
  Step-IsLeaving p q (notifies_all s) o h = cc

  pub Works-IsLeaving : (p q : ThreadPool T) → Works p q → IsLeaving p → IsLeaving q
  Works-IsLeaving p q (rests _) h = h
  Works-IsLeaving p q (moves _ o _ s own w) h = Works-IsLeaving o q w (Step-IsLeaving p o s own h)

  leaving-IsUnlocked : (p : ThreadPool T) → IsLeaving p → IsUnlocked p
  leaving-IsUnlocked p h i e = get_elem?-IsUp p.workers i falling h.up e

  -- An awake worker takes out what is queued.
  pub emptied :
      (n : ℕ) (tasks : List T) (p : ThreadPool T)
      → p.tasks ≡ tasks
      → IsAwake p
      → Reaches n p
      → IsLeaving p
      → (q : ThreadPool T) × Works p q × Reaches n q × (q.tasks ≡ [])
  unfolding set_worker
  emptied n [] p e a r h = (p, rests p, r, e)
  emptied n (task ∷ rest) p e a r h =
      let (q, w, r', ready) = awake-IsReady n p r a in
      let h' = Works-IsLeaving p q w h in
      let i = ready.worker in
      let e' : q.tasks ≡ task ∷ rest = ready.tasks ∙ e in
      let look = looks i ready.looking (leaving-IsUnlocked q h') in
      let o = worker_section i q.tasks q in
      let at_it : IsAwake o =
        subst (λ ts. IsAwake (worker_section i ts q)) (sym e')
          (
            i,
            inr (
              task,
              get_elem?-set_self q.workers i (running task)
                  (in_range q.workers i idle ready.looking),
            ),
          ) in
      let (end, w', r'', done) =
        emptied n rest o (ap (λ ts. (worker_section i ts q).tasks) e') at_it (goes_on q o r' look)
          (section-IsLeaving i q.tasks q h') in
      (end, Works-trans p q end w (moves q o end look refl w'), r'', done)

  -- With nothing to do, or gone.
  abbrev IsRested : Worker T → Type 0
  IsRested idle = Unit
  IsRested exited = Unit
  IsRested w = ⊥

  abbrev pub IsGone : Worker T → Type 0
  IsGone exited = Unit
  IsGone w = ⊥

  abbrev idle_count : List (Worker T) → ℕ
  idle_count [] = 0
  idle_count (idle ∷ ws) = suc (idle_count ws)
  idle_count (w ∷ ws) = idle_count ws

  quiet-IsRested : (ws : List (Worker T)) → All IsUp ws → running_of ws ≡ [] → All IsRested ws
  quiet-IsRested [] h e = tt
  quiet-IsRested (idle ∷ ws) h e = (tt, quiet-IsRested ws h.1 e)
  quiet-IsRested (exited ∷ ws) h e = (tt, quiet-IsRested ws h.1 e)
  quiet-IsRested (running t ∷ ws) h e = cc
  quiet-IsRested (falling ∷ ws) h e = absurd h.0
  quiet-IsRested (asleep ∷ ws) h e = absurd h.0

  rested-IsGone : (ws : List (Worker T)) → All IsRested ws → idle_count ws ≡ 0 → All IsGone ws
  rested-IsGone [] h e = tt
  rested-IsGone (idle ∷ ws) h e = absurd (omega arith)
  rested-IsGone (exited ∷ ws) h e = (tt, rested-IsGone ws h.1 e)
  rested-IsGone (running t ∷ ws) h e = absurd h.0
  rested-IsGone (falling ∷ ws) h e = absurd h.0
  rested-IsGone (asleep ∷ ws) h e = absurd h.0

  pub gone-running_of : (ws : List (Worker T)) → All IsGone ws → running_of ws ≡ []
  gone-running_of [] h = refl
  gone-running_of (exited ∷ ws) h = gone-running_of ws h.1
  gone-running_of (idle ∷ ws) h = absurd h.0
  gone-running_of (running t ∷ ws) h = absurd h.0
  gone-running_of (falling ∷ ws) h = absurd h.0
  gone-running_of (asleep ∷ ws) h = absurd h.0

  -- An idle worker, whose leaving makes one less.
  abbrev FoundIdle : List (Worker T) → ℕ → Type ℓ
  FoundIdle ws left = (i : ℕ) × (get_elem? ws i ≡ some idle) × (idle_count (set ws i exited) ≡ left)

  find_idle :
      (ws : List (Worker T)) (left : ℕ)
      → All IsRested ws
      → idle_count ws ≡ suc left
      → FoundIdle ws left
  find_idle [] left h e = absurd (omega arith)
  find_idle (idle ∷ ws) left h e = (0, refl, omega arith)
  find_idle (exited ∷ ws) left h e = let (i, e', c) = find_idle ws left h.1 e in (suc i, e', c)
  find_idle (running t ∷ ws) left h e = absurd h.0
  find_idle (falling ∷ ws) left h e = absurd h.0
  find_idle (asleep ∷ ws) left h e = absurd h.0

  everyone_leaves :
      (n left : ℕ) (p : ThreadPool T)
      → idle_count p.workers ≡ left
      → All IsRested p.workers
      → p.tasks ≡ []
      → Reaches n p
      → IsLeaving p
      → (q : ThreadPool T) × Works p q × Reaches n q × (q.tasks ≡ []) × All IsGone q.workers
  unfolding set_worker
  everyone_leaves n zero p c d e r h = (p, rests p, r, e, rested-IsGone p.workers d c)
  everyone_leaves n (suc left) p c d e r h =
      let (i, idles, c') = find_idle p.workers left d c in
      let look = looks i idles (leaving-IsUnlocked p h) in
      let o = worker_section i p.tasks p in
      let out : o ≡ set_worker i exited p =
        ap (λ ts. worker_section i ts p) e
        ∙ ap (λ b. set_worker i (if b then exited else falling) p) h.stop in
      let (q, w, r', e', gone) =
        everyone_leaves n left o (ap (λ t. idle_count t.workers) out ∙ c')
          (subst (λ t. All IsRested t.workers) (sym out) (set-All IsRested p.workers i exited d tt))
          (ap (λ t. t.tasks) out ∙ e) (goes_on p o r look) (section-IsLeaving i p.tasks p h) in
      (q, moves p o q look refl w, r', e', gone)

  -- With nothing queued, the workers end what they are at and leave.
  pub relieved-IsGone :
      (n : ℕ) (p : ThreadPool T)
      → p.tasks ≡ []
      → Reaches n p
      → IsLeaving p
      → (q : ThreadPool T) × Works p q × Reaches n q × (q.tasks ≡ []) × All IsGone q.workers
  relieved-IsGone n p e r h =
      let (q, w, r', e', quiet, _) =
        relieved n (length (running_of p.workers)) (running_of p.workers) p refl refl r e in
      let h' = Works-IsLeaving p q w h in
      let (o, w', r'', e'', gone) =
        everyone_leaves n (idle_count q.workers) q refl (quiet-IsRested q.workers h'.up quiet) e' r'
          h' in
      (o, Works-trans p q o w w', r'', e'', gone)
