-- ===== src/Json/Kinds.antt =====
-- The kind of value that `rapidjsonToNlohmannJson` of utils.cpp returns.
use deribit_trading_system.Base.{
  ℕ, zero, suc, ◌≡◌, refl, sym, ap, ◌∙◌, Bool, true, false, List, [], ◌∷◌, Option, none, some,
  if◌then◌else◌, inl, inr, ◌||◌, Bool-cases,
}
use deribit_trading_system.Base.Outcome.{Outcome, and_then-eq-ok, ok}
use deribit_trading_system.Text.{Bytes, c_str}
use deribit_trading_system.Json.{
  Numbers, RapidJson, Nlohmann, convert_members, convert_elements, convert_string, convert_number,
  convert_with, rapidjson_to_nlohmann,
}

-- The kinds of JSON value.
pub data Kind : Type 0 where
  null_kind : Kind
  bool_kind : Kind
  number_kind : Kind
  string_kind : Kind
  array_kind : Kind
  object_kind : Kind

abbrev pub is_null_kind : Kind → Bool
is_null_kind null_kind = true
is_null_kind _ = false

abbrev pub is_bool_kind : Kind → Bool
is_bool_kind bool_kind = true
is_bool_kind _ = false

abbrev pub is_number_kind : Kind → Bool
is_number_kind number_kind = true
is_number_kind _ = false

abbrev pub is_string_kind : Kind → Bool
is_string_kind string_kind = true
is_string_kind _ = false

abbrev pub is_array_kind : Kind → Bool
is_array_kind array_kind = true
is_array_kind _ = false

abbrev pub is_object_kind : Kind → Bool
is_object_kind object_kind = true
is_object_kind _ = false

-- What rapidjson documents of its tests: each asks for the kind of the value, and a number has one of
-- the five forms at least.
pub record IsTested {n : Numbers} (r : RapidJson n) : Type 0 where
  pub kind : r.Value → Kind
  pub object_test : (v : r.Value) → r.is_object v ≡ is_object_kind (kind v)
  pub array_test : (v : r.Value) → r.is_array v ≡ is_array_kind (kind v)
  pub string_test : (v : r.Value) → r.is_string v ≡ is_string_kind (kind v)
  pub bool_test : (v : r.Value) → r.is_bool v ≡ is_bool_kind (kind v)
  pub number_test :
      (v : r.Value)
      → (r.is_int v || (r.is_uint v || (r.is_int64 v || (r.is_uint64 v || r.is_double v))))
        ≡ is_number_kind (kind v)

-- What nlohmann::json documents of `type()`: the kind that a constructor gives, which `operator[]` of
-- an object and `push_back` of an array leave.
pub record IsTyped {n : Numbers} (j : Nlohmann n) : Type 0 where
  pub type : j.Json → Kind
  pub type-null : type j.null ≡ null_kind
  pub type-object : type j.object ≡ object_kind
  pub type-array : type j.array ≡ array_kind
  pub type-put :
      (o : j.Json) (k : Bytes) (x : j.Json)
      → type o ≡ object_kind
      → type (j.put o k x) ≡ object_kind
  pub type-push_back : (a x : j.Json) → type a ≡ array_kind → type (j.push_back a x) ≡ array_kind
  pub type-of_string : (s : Bytes) → type (j.of_string s) ≡ string_kind
  pub type-of_bool : (b : Bool) → type (j.of_bool b) ≡ bool_kind
  pub type-of_int : (i : n.Int) → type (j.of_int i) ≡ number_kind
  pub type-of_uint : (i : n.Uint) → type (j.of_uint i) ≡ number_kind
  pub type-of_int64 : (i : n.Int64) → type (j.of_int64 i) ≡ number_kind
  pub type-of_uint64 : (i : n.Uint64) → type (j.of_uint64 i) ≡ number_kind
  pub type-of_double : (d : n.Double) → type (j.of_double d) ≡ number_kind

module _ {n : Numbers} (r : RapidJson n) (j : Nlohmann n) (tested : IsTested r)
    (typed : IsTyped j) where
  open tested use {kind}
  open typed use {type}

  members-type :
      (f : r.Value → Outcome j.Json) (ms : List (Bytes × r.Value)) (o x : j.Json)
      → type o ≡ object_kind
      → convert_members r j f ms o ≡ ok x
      → type x ≡ object_kind
  unfolding convert_members
  members-type f [] o x t e = let q : o ≡ x = cc in ap type (sym q) ∙ t
  members-type f ((name, u) ∷ ms) o x t e =
      let (y, q, e') =
        and_then-eq-ok (f u) (λ y. convert_members r j f ms (j.put o (c_str name) y)) e in
      members-type f ms (j.put o (c_str name) y) x (typed.type-put o (c_str name) y t) e'

  elements-type :
      (f : r.Value → Outcome j.Json) (vs : List r.Value) (a x : j.Json)
      → type a ≡ array_kind
      → convert_elements r j f vs a ≡ ok x
      → type x ≡ array_kind
  unfolding convert_elements
  elements-type f [] a x t e = let q : a ≡ x = cc in ap type (sym q) ∙ t
  elements-type f (v ∷ vs) a x t e =
      let (y, q, e') = and_then-eq-ok (f v) (λ y. convert_elements r j f vs (j.push_back a y)) e in
      elements-type f vs (j.push_back a y) x (typed.type-push_back a y t) e'

  string-type : (s : Option Bytes) (x : j.Json) → convert_string r j s ≡ ok x → type x ≡ string_kind
  unfolding convert_string
  string-type none x e = cc
  string-type (some s) x e =
      let q : j.of_string (c_str s) ≡ x = cc in ap type (sym q) ∙ typed.type-of_string (c_str s)

  any_number : r.Value → Bool
  any_number v = r.is_int v || (r.is_uint v || (r.is_int64 v || (r.is_uint64 v || r.is_double v)))

  number-type :
      (v : r.Value)
      → type (convert_number r j v) ≡ (if any_number v then number_kind else null_kind)
  unfolding convert_number any_number
  number-type v = elim (Bool-cases (r.is_int v)) [
    | inl h ↦ rw h (typed.type-of_int (r.get_int v))
    | inr h ↦ rw h (elim (Bool-cases (r.is_uint v)) [
      | inl h ↦ rw h (typed.type-of_uint (r.get_uint v))
      | inr h ↦ rw h (elim (Bool-cases (r.is_int64 v)) [
        | inl h ↦ rw h (typed.type-of_int64 (r.get_int64 v))
        | inr h ↦ rw h (elim (Bool-cases (r.is_uint64 v)) [
          | inl h ↦ rw h (typed.type-of_uint64 (r.get_uint64 v))
          | inr h ↦ rw h (elim (Bool-cases (r.is_double v)) [
            | inl h ↦ rw h (typed.type-of_double (r.get_double v))
            | inr h ↦ rw h typed.type-null
          ])
        ])
      ])
    ])
  ]

  -- Whatever is returned for a value is of its kind.
  pub convert-kind :
      (fuel : ℕ) (v : r.Value) (x : j.Json)
      → rapidjson_to_nlohmann r j fuel v ≡ ok x
      → type x ≡ kind v
  unfolding rapidjson_to_nlohmann convert_with any_number
  convert-kind zero v x e = cc
  convert-kind (suc fuel) v x e = go (kind v) refl
    where
      -- Past the four other tests.
      converted :
          (k : Kind)
          → kind v ≡ k
          → is_object_kind (kind v) ≡ false
          → is_array_kind (kind v) ≡ false
          → is_string_kind (kind v) ≡ false
          → is_bool_kind (kind v) ≡ false
          → (if is_number_kind k then number_kind else null_kind) ≡ k
          → type x ≡ kind v
      converted k h h1 h2 h3 h4 h5 =
          let q : ok (convert_number r j v) ≡ ok x =
            rw
              (
                tested.object_test v,
                tested.array_test v,
                tested.string_test v,
                tested.bool_test v,
                h1,
                h2,
                h3,
                h4,
              )
              at e in
          let q' : convert_number r j v ≡ x = cc in
          let t : any_number v ≡ is_number_kind k = tested.number_test v ∙ ap is_number_kind h in
          let t' : type (convert_number r j v) ≡ k = number-type v ∙ (rw t h5) in
          ap type (sym q') ∙ t' ∙ sym h

      go : (k : Kind) → kind v ≡ k → type x ≡ kind v
      go object_kind h =
          members-type (rapidjson_to_nlohmann r j fuel) (r.members v) j.object x typed.type-object
            (rw (tested.object_test v, h) at e)
          ∙ sym h
      go array_kind h =
          elements-type (rapidjson_to_nlohmann r j fuel) (r.elements v) j.array x typed.type-array
            (rw (tested.object_test v, tested.array_test v, h) at e)
          ∙ sym h
      go string_kind h =
          string-type (r.get_string v) x
            (rw (tested.object_test v, tested.array_test v, tested.string_test v, h) at e)
          ∙ sym h
      go bool_kind h =
          let q : ok (j.of_bool (r.get_bool v)) ≡ ok x =
            rw
              (
                tested.object_test v,
                tested.array_test v,
                tested.string_test v,
                tested.bool_test v,
                h,
              )
              at e in
          let q' : j.of_bool (r.get_bool v) ≡ x = cc in
          ap type (sym q') ∙ typed.type-of_bool (r.get_bool v) ∙ sym h
      go number_kind h =
          converted number_kind h (rw h refl) (rw h refl) (rw h refl) (rw h refl) refl
      go null_kind h = converted null_kind h (rw h refl) (rw h refl) (rw h refl) (rw h refl) refl
