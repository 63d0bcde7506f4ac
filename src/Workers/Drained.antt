-- ===== src/Workers/Drained.antt =====
-- How the workers of `ThreadPool` of utils.cpp go on by themselves while something is queued.
use mathlib.Core.List.{append-nil}
use deribit_trading_system.Base.{
  ℕ, zero, suc, ◌<◌, ◌≡◌, ◌≢◌, inl, inr, refl, sym, ap, ◌∙◌, Bool, true, false, List, [], ◌∷◌, ◌++◌,
  some, get_elem?, arith, ◌⊎◌, ◌-◌,
}
use deribit_trading_system.Workers.{
  Worker, idle, falling, asleep, running, exited, ThreadPool, set_worker, worker_section,
  IsUnlocked, Step, enqueues, notifies_one, notifies_nobody, looks, waits, wakes_up, finishes,
  stops, notifies_all, Reaches, goes_on,
}
use deribit_trading_system.Workers.Sound.{IsSound, Reaches-IsSound}
use deribit_trading_system.Workers.Served.{IsAwake, Reaches-served, nobody_asleep, set_awake}

module _ {ℓ} {T : Type ℓ} where
  -- The steps that the workers and the notifications of earlier calls make by themselves. A spurious
  -- wake-up is not among them.
  abbrev pub is_own : {p q : ThreadPool T} → Step p q → Bool
  is_own (enqueues task u) = false
  is_own (notifies_one i left e a) = true
  is_own (notifies_nobody left e a) = true
  is_own (looks i e u) = true
  is_own (waits i e) = true
  is_own (wakes_up i e) = false
  is_own (finishes i task e) = true
  is_own stops = false
  is_own (notifies_all e) = false

  pub data Works : ThreadPool T → ThreadPool T → Type ℓ where
    rests : (p : ThreadPool T) → Works p p
    moves : (p q r : ThreadPool T) (s : Step p q) → is_own s ≡ true → Works q r → Works p r

  -- Some worker is about to look for a task, and the queue is what it was.
  pub record IsReady (p q : ThreadPool T) : Type ℓ where
    pub worker : ℕ
    pub looking : get_elem? q.workers worker ≡ some idle
    pub tasks : q.tasks ≡ p.tasks
    pub stop : q.stop ≡ p.stop
    pub submitted : q.submitted ≡ p.submitted

  unlocked :
      (n : ℕ) (p : ThreadPool T) (task : T) (rest : List T)
      → IsSound n p
      → p.tasks ≡ task ∷ rest
      → IsUnlocked p
  unlocked n p task rest h q i e = let gone = h.nothing_queued i e in cc

  -- An awake worker is ready, at the latest when its task is done.
  pub awake-IsReady :
      (n : ℕ) (p : ThreadPool T)
      → Reaches n p
      → IsAwake p
      → (q : ThreadPool T) × Works p q × Reaches n q × IsReady p q
  unfolding set_worker
  awake-IsReady n p r (i, inl e) = (
    p,
    rests p,
    r,
    record { worker = i; looking = e; tasks = refl; stop = refl; submitted = refl },
  )
  awake-IsReady n p r (i, inr (task, e)) =
      let q = record (set_worker i idle p) { finished = p.finished ++ (task ∷ []) } in
      (
        q,
        moves p q q (finishes i task e) refl (rests q),
        goes_on p q r (finishes i task e),
        record {
          worker = i;
          looking = set_awake i (running task) p e;
          tasks = refl;
          stop = refl;
          submitted = refl;
        },
      )

  Nobody : List (Worker T) → Type ℓ
  Nobody ws = (i : ℕ) → get_elem? ws i ≢ some asleep

  Nobody-cons : (w : Worker T) (ws : List (Worker T)) → w ≢ asleep → Nobody ws → Nobody (w ∷ ws)
  unfolding Nobody
  Nobody-cons w ws f g zero e = f cc
  Nobody-cons w ws f g (suc i) e = g i e

  asleep_or_not : (w : Worker T) → (w ≡ asleep) ⊎ (w ≢ asleep)
  asleep_or_not asleep = inl refl
  asleep_or_not idle = inr (λ e. cc)
  asleep_or_not falling = inr (λ e. cc)
  asleep_or_not (running t) = inr (λ e. cc)
  asleep_or_not exited = inr (λ e. cc)

  find_asleep : (ws : List (Worker T)) → ((i : ℕ) × (get_elem? ws i ≡ some asleep)) ⊎ Nobody ws
  unfolding Nobody
  find_asleep [] = inr (λ i e. cc)
  find_asleep (w ∷ ws) = elim (asleep_or_not w) [
    | inl e ↦ inl (0, ap some e)
    | inr f ↦ elim (find_asleep ws) [
      | inl (i, e) ↦ inl (suc i, e)
      | inr g ↦ inr (Nobody-cons w ws f g)
    ]
  ]

  -- With a notification to come, and a task queued, a worker becomes ready.
  notified-IsReady :
      (n left : ℕ) (p : ThreadPool T)
      → 0 < n
      → Reaches n p
      → p.stop ≡ false
      → p.tasks ≢ []
      → p.waking ≡ suc left
      → (q : ThreadPool T) × Works p q × Reaches n q × IsReady p q
  unfolding set_worker Nobody
  notified-IsReady n left p z r s ne w = elim (find_asleep p.workers) [
    | inl (i, e) ↦
        let q = record (set_worker i idle p) { waking = left } in
        (
          q,
          moves p q q (notifies_one i left w e) refl (rests q),
          goes_on p q r (notifies_one i left w e),
          record {
            worker = i;
            looking = set_awake i asleep p e;
            tasks = refl;
            stop = refl;
            submitted = refl;
          },
        )
    | inr a ↦
        let h = Reaches-IsSound n p r in
        awake-IsReady n p r (nobody_asleep n p p.workers refl (omega (arith, h.threads)) h a s ne)
  ]

  served-IsReady :
      (n : ℕ) (p : ThreadPool T)
      → 0 < n
      → Reaches n p
      → p.stop ≡ false
      → p.tasks ≢ []
      → (q : ThreadPool T) × Works p q × Reaches n q × IsReady p q
  served-IsReady n p z r s ne = elim (Reaches-served n p z r s ne) [
    | inl w ↦ notified-IsReady n (p.waking - 1) p z r s ne (omega arith)
    | inr a ↦ awake-IsReady n p r a
  ]

  pub Works-trans : (p q r : ThreadPool T) → Works p q → Works q r → Works p r
  Works-trans p q r (rests _) k = k
  Works-trans p q r (moves _ o _ s own w) k = moves p o r s own (Works-trans o q r w k)

  pub drained :
      (n : ℕ) (tasks : List T) (p : ThreadPool T)
      → p.tasks ≡ tasks
      → 0 < n
      → Reaches n p
      → p.stop ≡ false
      → (q : ThreadPool T) × Works p q × Reaches n q × (q.tasks ≡ []) × (q.submitted ≡ p.submitted)
  unfolding set_worker
  drained n [] p e z r s = (p, rests p, r, e, refl)
  drained n (task ∷ rest) p e z r s =
      let (q, w, r', ready) = served-IsReady n p z r s (λ k. cc) in
      let e' : q.tasks ≡ task ∷ rest = ready.tasks ∙ e in
      let look =
        looks ready.worker ready.looking (unlocked n q task rest (Reaches-IsSound n q r') e') in
      let o = worker_section ready.worker q.tasks q in
      let (end, w', r'', done, same) =
        drained n rest o (ap (λ ts. (worker_section ready.worker ts q).tasks) e') z
          (goes_on q o r' look)
          (ap (λ ts. (worker_section ready.worker ts q).stop) e' ∙ (ready.stop ∙ s)) in
      (
        end,
        Works-trans p q end w (moves q o end look refl w'),
        r'',
        done,
        same ∙ (ap (λ ts. (worker_section ready.worker ts q).submitted) e' ∙ ready.submitted),
      )

  -- In a pool with threads that has not been stopped, whatever has happened, the workers and the
  -- pending notifications can go on by themselves until the queue is empty and all that was ever put
  -- in has been taken out, in order.
  pub Reaches-drained :
      (n : ℕ) (p : ThreadPool T)
      → 0 < n
      → Reaches n p
      → p.stop ≡ false
      → (q : ThreadPool T) × Works p q × (q.tasks ≡ []) × (q.started ≡ p.submitted)
  Reaches-drained n p z r s =
      let (q, w, r', e, same) = drained n p.tasks p refl z r s in
      let h = (Reaches-IsSound n q r').history in
      (q, w, e, sym (rw e at h ∙ append-nil q.started) ∙ same)
