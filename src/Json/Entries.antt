-- ===== src/Json/Entries.antt =====
-- The entries and items of what `rapidjsonToNlohmannJson` of utils.cpp returns.
use mathlib.Core.List.{append-nil, append_assoc, map-append}
use deribit_trading_system.Base.{
  ℕ, suc, ◌≡◌, refl, sym, ap, ◌∙◌, true, false, List, [], ◌∷◌, ◌++◌, Option, none, some,
  if◌then◌else◌, map, arith,
}
use deribit_trading_system.Base.Outcome.{Outcome, and_then-eq-ok, ok}
use deribit_trading_system.Text.{Bytes, beq, c_str}
use deribit_trading_system.Json.{
  Numbers, RapidJson, Nlohmann, IsContainer, convert_members, convert_elements, convert_with,
  rapidjson_to_nlohmann,
}

abbrev pub value_of {ℓ} : {A : Type ℓ} → Outcome A → Option A
value_of (ok a) = some a
value_of _ = none

abbrev pub or_else {ℓ} : {A : Type ℓ} → Option A → Option A → Option A
or_else none b = b
or_else (some a) b = some a

module _ {n : Numbers} (r : RapidJson n) (j : Nlohmann n) (law : IsContainer j) where
  -- What the last member with a name, as a C string, converts to.
  pub latest : (r.Value → Outcome j.Json) → Bytes → List (Bytes × r.Value) → Option j.Json
  latest f k [] = none
  latest f k ((name, u) ∷ ms) =
      or_else (latest f k ms) (if beq (c_str name) k then value_of (f u) else none)

  members-entry :
      (f : r.Value → Outcome j.Json) (k : Bytes) (ms : List (Bytes × r.Value)) (o x : j.Json)
      → convert_members r j f ms o ≡ ok x
      → law.entry x k ≡ or_else (latest f k ms) (law.entry o k)
  unfolding convert_members latest
  members-entry f k [] o x e = ground arith
  members-entry f k ((name, u) ∷ ms) o x e =
      let (y, q, e') =
        and_then-eq-ok (f u) (λ y. convert_members r j f ms (j.put o (c_str name) y)) e in
      rw (members-entry f k ms (j.put o (c_str name) y) x e', q)
        (ground (arith, law.entry-put o (c_str name) y k))

  elements-items :
      (f : r.Value → Outcome j.Json) (vs : List r.Value) (a x : j.Json)
      → convert_elements r j f vs a ≡ ok x
      → map some (law.items x) ≡ map some (law.items a) ++ map (λ v. value_of (f v)) vs
  unfolding convert_elements
  elements-items f [] a x e =
      let q : a ≡ x = cc in
      ap (λ t. map some (law.items t)) (sym q) ∙ sym (append-nil (map some (law.items a)))
  elements-items f (v ∷ vs) a x e =
      let (y, q, e') = and_then-eq-ok (f v) (λ y. convert_elements r j f vs (j.push_back a y)) e in
      elements-items f vs (j.push_back a y) x e'
      ∙ (rw (law.items-push_back, map-append, append_assoc, q))

  or_else-none : (o : Option j.Json) → or_else o none ≡ o
  or_else-none none = refl
  or_else-none (some y) = refl

  -- What an object converts to has, under each key, what the last member converts to whose name, up
  -- to its first NUL, is the key; and no entry where no member has that name.
  pub convert-entry :
      (fuel : ℕ) (v : r.Value) (x : j.Json)
      → r.is_object v ≡ true
      → rapidjson_to_nlohmann r j (suc fuel) v ≡ ok x
      → (k : Bytes) → law.entry x k ≡ latest (rapidjson_to_nlohmann r j fuel) k (r.members v)
  unfolding rapidjson_to_nlohmann convert_with
  convert-entry fuel v x h e k =
      members-entry (rapidjson_to_nlohmann r j fuel) k (r.members v) j.object x (rw h at e)
      ∙ (rw law.entry-object (or_else-none _))

  -- What an array converts to has the conversions of its elements, in order.
  pub convert-items :
      (fuel : ℕ) (v : r.Value) (x : j.Json)
      → r.is_object v ≡ false
      → r.is_array v ≡ true
      → rapidjson_to_nlohmann r j (suc fuel) v ≡ ok x
      → map some (law.items x)
        ≡ map (λ u. value_of (rapidjson_to_nlohmann r j fuel u)) (r.elements v)
  unfolding rapidjson_to_nlohmann convert_with
  convert-items fuel v x h h' e =
      elements-items (rapidjson_to_nlohmann r j fuel) (r.elements v) j.array x (rw (h, h') at e)
      ∙ (rw law.items-array)
