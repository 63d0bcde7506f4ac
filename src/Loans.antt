-- ===== src/Loans.antt =====
-- What a pool of reusable resources promises to its clients: each resource is either free or lent.
-- `MemoryPool` of utils.cpp and `CurlConnectionManager` of CurlConnectionManager.cpp implement it.
use mathlib.Core.List.{Perm, perm_middle}
use mathlib.Core.List.Perm
use mathlib.Core.List
use native.Mathlib.Bridge.{from_ℕ}
use deribit_trading_system.Base.{
  ℕ, zero, suc, ◌+◌, ◌≡◌, refl, sym, ap, ◌∙◌, List, [], ◌∷◌, ◌++◌, some, get_elem?, length,
  length-append, arith,
}

pub record Shelf {ℓ} (A : Type ℓ) : Type ℓ where
  pub free : List A
  pub lent : List A

module _ {ℓ} {A : Type ℓ} where
  -- A request takes the resource that came back last; an empty shelf lends nothing.
  pub data Step (s t : Shelf A) : Type ℓ where
    lend : (a : A) → s.free ≡ a ∷ t.free → t.lent ≡ a ∷ s.lent → Step s t
    starve : s.free ≡ [] → t ≡ s → Step s t
    regain :
        (a : A) (xs ys : List A)
        → s.lent ≡ xs ++ (a ∷ ys)
        → t.lent ≡ xs ++ ys
        → t.free ≡ a ∷ s.free
        → Step s t
    idle : t ≡ s → Step s t

  abbrev pub everything : Shelf A → List A
  everything s = s.free ++ s.lent

  -- A step neither loses a resource nor makes one up.
  pub Step-perm : {s t : Shelf A} → Step s t → Perm (everything s) (everything t)
  Step-perm {s} {t} (lend a f l) = rw (f, l) (Perm.symm (perm_middle t.free s.lent))
  Step-perm {s} (starve f e) = rw e (Perm.refl (everything s))
  Step-perm {s} {t} (regain a xs ys l l' f) =
      rw (l, l', f)
        (Perm.trans (Perm.append_left s.free (perm_middle xs ys)) (perm_middle s.free (xs ++ ys)))
  Step-perm {s} (idle e) = rw e (Perm.refl (everything s))

  length-from_ℕ : (xs : List A) → length xs ≡ from_ℕ (List.length xs)
  length-from_ℕ [] = refl
  length-from_ℕ (x ∷ xs) = ap suc (length-from_ℕ xs)

  pub Perm-length : {xs ys : List A} → Perm xs ys → length xs ≡ length ys
  Perm-length {xs} {ys} p = length-from_ℕ xs ∙ ap from_ℕ (Perm.length-eq p) ∙ sym (length-from_ℕ ys)

  -- Nothing is lost: what is free and what is lent add up.
  pub Perm-total :
      (n : ℕ) (s t : Shelf A)
      → Perm (everything s) (everything t)
      → length (everything s) ≡ n
      → length t.free + length t.lent ≡ n
  Perm-total n s t p h = omega (arith, Perm-length p, length-append t.free t.lent)

  abbrev pub remove_at : ℕ → List A → List A
  remove_at i [] = []
  remove_at zero (x ∷ xs) = xs
  remove_at (suc i) (x ∷ xs) = x ∷ remove_at i xs

  -- The entry at an index, with what stands before and after it.
  pub split_at :
      (i : ℕ) (l : List A) (a : A)
      → get_elem? l i ≡ some a
      → (xs : List A) × (ys : List A) × (l ≡ xs ++ (a ∷ ys)) × (remove_at i l ≡ xs ++ ys)
  split_at i [] a e = cc
  split_at zero (x ∷ l) a e = ([], l, ground arith, refl)
  split_at (suc i) (x ∷ l) a e =
      let (xs, ys, p, q) = split_at i l a e in (x ∷ xs, ys, ap (◌∷◌ x) p, ap (◌∷◌ x) q)
