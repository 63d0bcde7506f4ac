-- ===== src/Orders/History.antt =====
-- The books of `OrderAPI` of order_management.cpp after any series of calls.
use mathlib.Core.List.{Mem, mem-cons_self, mem-cons_of_mem}
use mathlib.Core.Option
use deribit_trading_system.Base.{
  ℕ, ◌≡◌, ◌≢◌, refl, sym, ap, subst, ◌∙◌, Bool, true, false, List, [], ◌∷◌, none, some, map, All,
  Bool-cases, inl, inr,
}
use deribit_trading_system.Base.Outcome.{Outcome}
use deribit_trading_system.Text.{Bytes, beq}
use deribit_trading_system.Text.Search.{beq_iff}
use deribit_trading_system.Connection.{Manager}
use deribit_trading_system.Token.{TokenManager}
use deribit_trading_system.Orders.Map.{Entry, find, assign, erase, put_at}
use deribit_trading_system.Orders.Map.Laws.{
  value_at, value_at-assign, Distinct, assign-Distinct, find-erase_self, find-erase_ne,
  erase-Distinct, put_at-Distinct, value_at-put_at,
}
use deribit_trading_system.Orders.{Env, Json, Api, init, can_hold, construct, strays}
use deribit_trading_system.Orders.Calls.{Call, perform, after, survives}
use deribit_trading_system.Orders.Changes.{
  Books, books, Change, refused, stopped, untracked, unknown, recorded, unconverted, forgotten,
  popped,
}
use deribit_trading_system.Orders.Refine.{perform-Change}

module _ (e : Env) where
  -- What every transition of some calls keeps, a series of them keeps.
  pub after_keeps :
      (I : Books e → Type 0) (Allowed : Call e → Type 0)
      → ((c : Call e) (o : Outcome Bool) (b b' : Books e)
          → Allowed c
          → Change e c o b b'
          → I b
          → I b')
      → (calls : List (Call e)) (a : Api e) → All Allowed calls
      → I (books e a)
      → I (books e (after e calls a))
  unfolding after
  after_keeps I Allowed keeps [] a h i = i
  after_keeps I Allowed keeps (c ∷ calls) a h i =
      let kept =
        keeps c (perform e c a).0 (books e a) (books e (perform e c a).1) h.0 (perform-Change e c a)
          i in
      elim (Bool-cases (survives (perform e c a).0)) [
        | inl t ↦ rw (t, after) (after_keeps I Allowed keeps calls (perform e c a).1 h.1 kept)
        | inr f ↦ rw (f, after) kept
      ]

  -- The values of the map are copies of what was built at the addresses of the pool.
  pub record IsSound (free : List ℕ) (b : Books e) : Type 0 where
    pub handles : b.free_handles ≡ free
    pub distinct : Distinct b.orders
    pub copied :
        (k : Bytes) (x : Json e) → value_at k b.orders ≡ some x → Mem x (map (λ p. p.1) b.placed)

  none_is_not_some : (y : Json e) → none ≡ some y → ⊥
  none_is_not_some y h = cc

  cons_is_not_nil : (ptr : ℕ) (rest : List ℕ) → ptr ∷ rest ≡ [] → ⊥
  cons_is_not_nil ptr rest h = cc

  false_is_not_true : false ≡ true → ⊥
  false_is_not_true h = cc

  module _ (free : List ℕ) where
    -- The value constructed in a block or in a node of the map.
    constructed-copied :
        (ptr : ℕ) (x : Json e) (b : Books e)
        → IsSound free b
        → (k : Bytes) (y : Json e) → value_at k (put_at ptr x b.orders) ≡ some y
        → Mem y (x ∷ map (λ p. p.1) b.placed)
    constructed-copied ptr x b s k y h = elim (value_at-put_at ptr x y k b.orders h) [
      | inl q ↦ subst (λ z. Mem z (x ∷ map (λ p. p.1) b.placed)) q mem-cons_self
      | inr h' ↦ mem-cons_of_mem x (s.copied k y h')
    ]

    recorded-copied :
        (id : Bytes) (x : Json e) (w : e.curl.World) (built : List (Json e))
        (es : List (Entry (Json e)))
        → ((k : Bytes) (y : Json e) → value_at k es ≡ some y → Mem y (x ∷ built))
        → (k : Bytes) (y : Json e) → value_at k (assign e.new_node id x es w).0 ≡ some y
        → Mem y (x ∷ built)
    recorded-copied id x w built es s k y h =
        let h' = sym (value_at-assign e.new_node id k x es w) ∙ h in
        elim (Bool-cases (beq id k)) [
          | inl t ↦
              let same : some x ≡ some y = rw t at h' in
              let q : x ≡ y = cc in subst (λ z. Mem z (x ∷ built)) q mem-cons_self
          | inr f ↦ s k y (rw f at h')
        ]

    recorded-IsSound :
        (id : Bytes) (ptr : ℕ) (rest : List ℕ) (x : Json e) (w : e.curl.World) (b : Books e)
        → (b.stray ≡ [] → IsSound free b)
        → strays e ptr b.order_pool b.orders b.stray ≡ []
        → IsSound free (record (popped e b rest) {
          orders = (assign e.new_node id x (construct e ptr x b.order_pool b.orders) w).0;
          placed = (ptr, x) ∷ b.placed;
          stray = strays e ptr b.order_pool b.orders b.stray;
        })
    recorded-IsSound id ptr rest x w b s z =
        elim (Bool-cases (can_hold e ptr b.order_pool b.orders)) [
          | inl t ↦
              let s' = s (rw t at z) in
              record {
                handles = s'.handles;
                distinct = rw t (
                    assign-Distinct e.new_node id x (put_at ptr x b.orders) w
                      (put_at-Distinct ptr x b.orders s'.distinct));
                copied = rw t (
                    recorded-copied id x w (map (λ p. p.1) b.placed) (put_at ptr x b.orders)
                      (constructed-copied ptr x b s'));
              }
          | inr f ↦ absurd (cons_is_not_nil ptr b.stray (rw f at z))
        ]

    forgotten-copied :
        (id : Bytes) (b : Books e)
        → IsSound free b
        → (k : Bytes) (y : Json e) → value_at k (erase id b.orders) ≡ some y
        → Mem y (map (λ p. p.1) b.placed)
    forgotten-copied id b s k y h = elim (Bool-cases (beq id k)) [
      | inl t ↦
          let q : id ≡ k = (beq_iff id k).0 t in
          let gone : value_at id (erase id b.orders) ≡ none =
            ap (Option.map (λ e. e.value)) (find-erase_self id b.orders s.distinct) in
          absurd (none_is_not_some y (sym gone ∙ (ap (λ i. value_at i (erase id b.orders)) q ∙ h)))
      | inr f ↦
          let ne : id ≢ k = λ q. false_is_not_true (sym f ∙ (beq_iff id k).1 q) in
          s.copied k y (ap (Option.map (λ e. e.value)) (sym (find-erase_ne id k b.orders ne)) ∙ h)
    ]

    Change-IsSound :
        (c : Call e) (o : Outcome Bool) (b b' : Books e)
        → Change e c o b b'
        → (b.stray ≡ [] → IsSound free b)
        → b'.stray ≡ []
        → IsSound free b'
    Change-IsSound c o b b' (refused d) s z = s z
    Change-IsSound c o b b' (stopped q d t) s z = s z
    Change-IsSound c o b b' (untracked id d k h) s z = s z
    Change-IsSound c o b b' (unknown id d k h) s z = s z
    Change-IsSound c o b b' (recorded id ptr rest x w d k h) s z =
        recorded-IsSound id ptr rest x w d s z
    Change-IsSound c o b b' (unconverted q id ptr rest d t k h) s z =
        let s' = s z in record { handles = s'.handles; distinct = s'.distinct; copied = s'.copied }
    Change-IsSound c o b b' (forgotten id entry d k h) s z =
        let s' = s z in
        record {
          handles = s'.handles;
          distinct = erase-Distinct id d.orders s'.distinct;
          copied = forgotten-copied id d s';
        }

  -- After any series of calls on a new object, whatever the replies, in which no order was constructed
  -- in freed memory: exactly the handles are free that were free at first, in their order, no two
  -- entries of the map have one key, and every order of the map is a copy of one that was built.
  pub after-IsSound :
      (manager : Manager) (tokens : TokenManager) (memory json_size : ℕ) (w : e.curl.World)
      (calls : List (Call e))
      → (books e (after e calls (init e manager tokens memory json_size w))).stray ≡ []
      → IsSound manager.free_handles
          (books e (after e calls (init e manager tokens memory json_size w)))
  unfolding init find
  after-IsSound manager tokens memory json_size w calls =
      after_keeps (λ b. b.stray ≡ [] → IsSound manager.free_handles b) (λ _. Unit {0})
        (λ c o b b' _. Change-IsSound manager.free_handles c o b b') calls
        (init e manager tokens memory json_size w) (anything calls)
        (λ z. record {
          handles = refl;
          distinct = tt;
          copied = λ k x h. absurd (none_is_not_some x h);
        })
    where
      anything : (calls : List (Call e)) → All (λ _. Unit {0}) calls
      anything [] = tt
      anything (c ∷ calls) = (tt, anything calls)
