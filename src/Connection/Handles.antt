-- ===== src/Connection/Handles.antt =====
-- The handles that `CurlConnectionManager` holds after its constructor, and their options.
use deribit_trading_system.Base.{
  Option, ℕ, zero, suc, ◌+◌, ◌≤◌, ◌≡◌, refl, ap, ◌∙◌, true, false, List, [], ◌∷◌, none, some, ◌==◌,
  if◌then◌else◌, length, All, Bool-cases, ◌⊎◌, inl, inr, arith,
}
use deribit_trading_system.Curl.{Setting, Settings, Curl}
use deribit_trading_system.Connection.{
  Manager, set_opt, reset, set_opts, setup, setup_curl_options, add_handle, initialize_pool, init,
  take_back, get_curl_handle,
}

-- The options after some calls, the last call first.
abbrev pub after : List Setting → Settings → Settings
after [] s = s
after (o ∷ os) s = after os (o ∷ s)

-- The options of a handle that `setupCurlOptions` has prepared, and nothing else.
abbrev pub prepared : Settings
prepared = after setup []

set_opts-settings :
    (os : List Setting) (m : Manager) (h j : ℕ)
    → (set_opts m h os).settings j ≡ (if h == j then after os (m.settings h) else m.settings j)
unfolding set_opts set_opt
set_opts-settings [] m h j = ground arith
set_opts-settings (o ∷ os) m h j = ground (arith, set_opts-settings os (set_opt m h o) h j)

pub setup-settings :
    (m : Manager) (h j : ℕ)
    → (setup_curl_options m h).settings j ≡ (if h == j then prepared else m.settings j)
unfolding setup_curl_options reset
setup-settings m h j = set_opts-settings setup (reset m h) h j ∙ ground arith

set_opts-free :
    (os : List Setting) (m : Manager) (h : ℕ) → (set_opts m h os).free_handles ≡ m.free_handles
unfolding set_opts set_opt
set_opts-free [] m h = refl
set_opts-free (o ∷ os) m h = set_opts-free os (set_opt m h o) h

set_opts-pool :
    (os : List Setting) (m : Manager) (h : ℕ) → (set_opts m h os).curl_pool ≡ m.curl_pool
unfolding set_opts set_opt
set_opts-pool [] m h = refl
set_opts-pool (o ∷ os) m h = set_opts-pool os (set_opt m h o) h

abbrev pub Prepared : (ℕ → Settings) → List ℕ → Type 0
Prepared f = All (λ h. f h ≡ prepared)

keep-Prepared :
    (m : Manager) (h : ℕ) (hs : List ℕ)
    → Prepared m.settings hs
    → Prepared (setup_curl_options m h).settings hs
keep-Prepared m h [] p = tt
keep-Prepared m h (j ∷ hs) p = (ground (arith, setup-settings m h j), keep-Prepared m h hs p.1)

module _ (c : Curl) where
  abbrev extend : Option ℕ → List ℕ → List ℕ
  extend none older = older
  extend (some h) older = h ∷ older

  -- The handles that so many calls of `curl_easy_init` give, the last one first, before others.
  pub opened : ℕ → c.World → List ℕ → List ℕ
  opened zero w older = older
  opened (suc n) w older = let (handle, w') = c.easy_init w in opened n w' (extend handle older)

  -- The pool and the free handles are the same, and every one of them is prepared.
  pub record IsReady (m : Manager) (handles : List ℕ) : Type 0 where
    pub pooled : m.curl_pool ≡ handles
    pub free : m.free_handles ≡ handles
    pub options : Prepared m.settings handles

  add_handle-IsReady :
      (m : Manager) (handle : Option ℕ) (hs : List ℕ)
      → IsReady m hs
      → IsReady (add_handle c m handle) (extend handle hs)
  unfolding add_handle setup_curl_options reset
  add_handle-IsReady m none hs r = r
  add_handle-IsReady m (some h) hs r = record {
    pooled = ap (◌∷◌ h) (set_opts-pool setup (reset m h) h ∙ r.pooled);
    free = ap (◌∷◌ h) (set_opts-free setup (reset m h) h ∙ r.free);
    options = (ground (arith, setup-settings m h h), keep-Prepared m h hs r.options);
  }

  initialize_pool-IsReady :
      (n : ℕ) (m : Manager) (w : c.World) (hs : List ℕ)
      → IsReady m hs
      → IsReady (initialize_pool c n m w).0 (opened n w hs)
  unfolding initialize_pool opened
  initialize_pool-IsReady zero m w hs r = r
  initialize_pool-IsReady (suc n) m w hs r =
      initialize_pool-IsReady n _ _ _ (add_handle-IsReady m (c.easy_init w).0 hs r)

  extend-length :
      (handle : Option ℕ) (older : List ℕ) → length (extend handle older) ≤ suc (length older)
  extend-length none older = omega arith
  extend-length (some h) older = omega arith

  pub opened-length :
      (n : ℕ) (w : c.World) (older : List ℕ) → length (opened n w older) ≤ n + length older
  unfolding opened
  opened-length zero w older = omega arith
  opened-length (suc n) w older =
      let handle = (c.easy_init w).0 in
      omega
        (arith, opened-length n (c.easy_init w).1 (extend handle older), extend-length handle older)

  -- After the constructor the pool holds, free and prepared, exactly the handles that
  -- `curl_easy_init` gave, at most `pool_size` of them; none if the global initialisation failed.
  pub init-IsReady :
      (pool_size memory : ℕ) (w : c.World)
      → let m = (init c pool_size memory w).0 in
        (((c.global_init w).0 ≡ true) × IsReady m (opened pool_size (c.global_init w).1 []))
        ⊎ (((c.global_init w).0 ≡ false) × IsReady m [])
  unfolding init
  init-IsReady n memory w = elim (Bool-cases (c.global_init w).0) [
    | inl e ↦ inl (
      e,
      rw (e, init)
          (initialize_pool-IsReady n _ _ [] (record { pooled = refl; free = refl; options = tt })),
    )
    | inr e ↦ inr (e, rw (e, init) (record { pooled = refl; free = refl; options = tt }))
  ]

-- The request side of the pool: the last free handle, or none.
pub get_curl_handle-some :
    (m : Manager) (h : ℕ) (rest : List ℕ)
    → m.free_handles ≡ h ∷ rest
    → get_curl_handle m ≡ (some h, record m { free_handles = rest })
unfolding get_curl_handle take_back
get_curl_handle-some m h rest e = ap (take_back m) e

pub get_curl_handle-none : (m : Manager) → m.free_handles ≡ [] → get_curl_handle m ≡ (none, m)
unfolding get_curl_handle take_back
get_curl_handle-none m e = ap (take_back m) e
