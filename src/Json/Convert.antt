-- ===== src/Json/Convert.antt =====
-- The conversion `rapidjsonToNlohmannJson` of utils.cpp over a whole document.
use mathlib.Core.List.{Mem, mem-cons_self, mem-cons_of_mem}
use deribit_trading_system.Base.{
  ℕ, zero, suc, ◌<◌, ◌≡◌, inl, inr, refl, List, [], ◌∷◌, Bool-cases, arith,
}
use deribit_trading_system.Base.Outcome.{Outcome, ok}
use deribit_trading_system.Text.{Bytes, c_str}
use deribit_trading_system.Json.{
  Numbers, RapidJson, Nlohmann, IsDocument, convert_members, convert_elements, convert_with,
  rapidjson_to_nlohmann,
}

module _ {n : Numbers} (r : RapidJson n) (j : Nlohmann n) where
  abbrev Converts : (r.Value → Outcome j.Json) → r.Value → Type 0
  Converts f v = (x : j.Json) × (f v ≡ ok x)

  members-total :
      (f : r.Value → Outcome j.Json) (ms : List (Bytes × r.Value)) (o : j.Json)
      → ((name : Bytes) (u : r.Value) → Mem (name, u) ms → Converts f u)
      → (x : j.Json) × (convert_members r j f ms o ≡ ok x)
  unfolding convert_members
  members-total f [] o h = (o, refl)
  members-total f ((name, u) ∷ ms) o h =
      let (x, e) = h name u mem-cons_self in
      let (y, e') =
        members-total f ms (j.put o (c_str name) x) (λ k v i. h k v (mem-cons_of_mem _ i)) in
      (y, rw (e, convert_members) e')

  elements-total :
      (f : r.Value → Outcome j.Json) (vs : List r.Value) (a : j.Json)
      → ((u : r.Value) → Mem u vs → Converts f u)
      → (x : j.Json) × (convert_elements r j f vs a ≡ ok x)
  unfolding convert_elements
  elements-total f [] a h = (a, refl)
  elements-total f (u ∷ vs) a h =
      let (x, e) = h u mem-cons_self in
      let (y, e') = elements-total f vs (j.push_back a x) (λ v i. h v (mem-cons_of_mem _ i)) in
      (y, rw (e, convert_elements) e')

  with-total :
      (d : IsDocument r) (f : r.Value → Outcome j.Json) (v : r.Value)
      → ((u : r.Value) → d.size u < d.size v → Converts f u)
      → (x : j.Json) × (convert_with r j f v ≡ ok x)
  unfolding convert_with
  with-total d f v h = elim (Bool-cases (r.is_object v)) [
    | inl e ↦
        rw e (members-total f (r.members v) j.object λ k u i. h u (d.member_smaller v e k u i))
    | inr e ↦ rw e (elim (Bool-cases (r.is_array v)) [
      | inl e1 ↦
          rw e1 (elements-total f (r.elements v) j.array λ u i. h u (d.element_smaller v e1 u i))
      | inr e1 ↦ rw e1 (elim (Bool-cases (r.is_string v)) [
        | inl e2 ↦ let (s, e3) = d.string_there v e2 in rw (e2, e3) (_, refl)
        | inr e2 ↦ rw e2 (elim (Bool-cases (r.is_bool v)) [
          | inl e3 ↦ rw e3 (_, refl)
          | inr e3 ↦ rw e3 (_, refl)
        ])
      ])
    ])
  ]

  -- With fuel above the size of a document the conversion returns a value.
  pub convert-total :
      (d : IsDocument r) (fuel : ℕ) (v : r.Value)
      → d.size v < fuel
      → (x : j.Json) × (rapidjson_to_nlohmann r j fuel v ≡ ok x)
  unfolding rapidjson_to_nlohmann
  convert-total d zero v h = absurd (omega arith)
  convert-total d (suc fuel) v h =
      with-total d (rapidjson_to_nlohmann r j fuel) v λ u lt. convert-total d fuel u (omega arith)
