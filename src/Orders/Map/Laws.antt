-- ===== src/Orders/Map/Laws.antt =====
-- Laws of the order map.
use mathlib.Core.Option
use deribit_trading_system.Base.{
  ℕ, ◌==◌, false, Bool-cases, ◌⊎◌, ◌≡◌, ◌≢◌, refl, List, [], ◌∷◌, Option, none, some, if◌then◌else◌,
  inl, inr, Option-cases, arith,
}
use deribit_trading_system.Text.{Bytes, beq}
use deribit_trading_system.Text.Search.{beq_iff}
use deribit_trading_system.Orders.Map.{Entry, find, erase, overwrite, assign, lies_at, put_at}

module _ {J : Type 0} where
  abbrev pub value_at : Bytes → List (Entry J) → Option J
  value_at k es = Option.map (λ e. e.value) (find k es)

  -- No two entries have one key.
  abbrev pub Distinct : List (Entry J) → Type 0
  Distinct [] = Unit
  Distinct (e ∷ es) = (find e.key es ≡ none) × Distinct es

  find-overwrite :
      (k k' : Bytes) (v : J) (es : List (Entry J)) (e : Entry J)
      → find k es ≡ some e
      → value_at k' (overwrite k v es) ≡ (if beq k k' then some v else value_at k' es)
  unfolding find overwrite
  find-overwrite k k' v [] e h = cc
  find-overwrite k k' v (x ∷ es) e h =
      ground (arith, beq_iff x.key k, beq_iff x.key k', beq_iff k k', find-overwrite k k' v es e)

  pub put_at_apart :
      (ptr : ℕ) (v : J) (es : List (Entry J)) → lies_at ptr es ≡ false → put_at ptr v es ≡ es
  unfolding lies_at put_at
  put_at_apart ptr v [] h = refl
  put_at_apart ptr v (e ∷ es) h = ground (arith, put_at_apart ptr v es)

  some-inj : {a b : J} → some a ≡ some b → a ≡ b
  some-inj e = cc

  -- Each value is what it was, or the new one.
  pub value_at-put_at :
      (ptr : ℕ) (v y : J) (k : Bytes) (es : List (Entry J))
      → value_at k (put_at ptr v es) ≡ some y
      → (v ≡ y) ⊎ (value_at k es ≡ some y)
  unfolding find put_at
  value_at-put_at ptr v y k [] h = inr h
  value_at-put_at ptr v y k (e ∷ es) h = elim (Bool-cases (beq e.key k)) [
    | inl t ↦ elim (Bool-cases (e.address == ptr)) [
      | inl u ↦ inl (some-inj (rw (t, u) at h))
      | inr u ↦ inr (rw t (rw (t, u) at h))
    ]
    | inr t ↦ rw t (value_at-put_at ptr v y k es (rw t at h))
  ]

  put_at-find-none :
      (ptr : ℕ) (v : J) (k : Bytes) (es : List (Entry J))
      → find k es ≡ none
      → find k (put_at ptr v es) ≡ none
  unfolding find put_at
  put_at-find-none ptr v k [] h = refl
  put_at-find-none ptr v k (e ∷ es) h = ground (arith, put_at-find-none ptr v k es)

  pub put_at-Distinct :
      (ptr : ℕ) (v : J) (es : List (Entry J)) → Distinct es → Distinct (put_at ptr v es)
  unfolding put_at
  put_at-Distinct ptr v [] d = tt
  put_at-Distinct ptr v (e ∷ es) d =
      ground (arith, put_at-Distinct ptr v es d.1, put_at-find-none ptr v e.key es d.0)

  module _ {W : Type 0} (new_node : W → ℕ × W) where
    pub value_at-assign :
        (k k' : Bytes) (v : J) (es : List (Entry J)) (w : W)
        → value_at k' (assign new_node k v es w).0 ≡ (if beq k k' then some v else value_at k' es)
    unfolding find assign
    value_at-assign k k' v es w = elim (Option-cases (find k es)) [
      | inl h ↦ rw (h, assign) (ground arith)
      | inr (e, h) ↦ rw (h, assign) (find-overwrite k k' v es e h)
    ]

    overwrite-find-none :
        (k k' : Bytes) (v : J) (es : List (Entry J))
        → find k' es ≡ none
        → find k' (overwrite k v es) ≡ none
    unfolding find overwrite
    overwrite-find-none k k' v [] h = refl
    overwrite-find-none k k' v (e ∷ es) h = ground (arith, overwrite-find-none k k' v es)

    overwrite-Distinct :
        (k : Bytes) (v : J) (es : List (Entry J)) → Distinct es → Distinct (overwrite k v es)
    unfolding overwrite
    overwrite-Distinct k v [] d = tt
    overwrite-Distinct k v (e ∷ es) d =
        ground (arith, overwrite-Distinct k v es d.1, overwrite-find-none k e.key v es d.0)

    pub assign-Distinct :
        (k : Bytes) (v : J) (es : List (Entry J)) (w : W)
        → Distinct es
        → Distinct (assign new_node k v es w).0
    unfolding assign
    assign-Distinct k v es w d = elim (Option-cases (find k es)) [
      | inl h ↦ rw (h, assign) (h, d)
      | inr (e, h) ↦ rw (h, assign) (overwrite-Distinct k v es d)
    ]

  pub find-erase_ne :
      (k k' : Bytes) (es : List (Entry J)) → k ≢ k' → find k' (erase k es) ≡ find k' es
  unfolding find erase
  find-erase_ne k k' [] h = refl
  find-erase_ne k k' (e ∷ es) h =
      ground (arith, beq_iff e.key k, beq_iff e.key k', find-erase_ne k k' es h)

  pub find-erase_self : (k : Bytes) (es : List (Entry J)) → Distinct es → find k (erase k es) ≡ none
  unfolding find erase
  find-erase_self k [] d = refl
  find-erase_self k (e ∷ es) d = ground (arith, beq_iff e.key k, find-erase_self k es d.1)

  erase-find-none :
      (k k' : Bytes) (es : List (Entry J)) → find k' es ≡ none → find k' (erase k es) ≡ none
  unfolding find erase
  erase-find-none k k' [] h = refl
  erase-find-none k k' (e ∷ es) h = ground (arith, erase-find-none k k' es)

  pub erase-Distinct : (k : Bytes) (es : List (Entry J)) → Distinct es → Distinct (erase k es)
  unfolding erase
  erase-Distinct k [] d = tt
  erase-Distinct k (e ∷ es) d =
      ground (arith, erase-Distinct k es d.1, erase-find-none k e.key es d.0)
