-- ===== src/Json.antt =====
-- The two JSON libraries as the sources use them, which are parameters, and the functions of
-- utils.cpp between them: `parseJSONResponse` and `rapidjsonToNlohmannJson`.
pub mod Convert
pub mod Entries
pub mod Kinds
mod Tests
use deribit_trading_system.Base.{
  ℕ, zero, suc, ◌<◌, ◌≡◌, Bool, true, false, List, [], ◌∷◌, ◌++◌, Option, none, some, if◌then◌else◌,
}
use deribit_trading_system.Base.Outcome.{Outcome, and_then, ok, throws, aborts, hangs}
use deribit_trading_system.Text.{Bytes, beq, c_str}
use mathlib.Core.List.{Mem}

-- The numbers that one library hands to the other unchanged.
pub record Numbers : Type 1 where
  pub Int : Type 0
  pub Uint : Type 0
  pub Int64 : Type 0
  pub Uint64 : Type 0
  pub Double : Type 0

-- rapidjson. `none` is a failed RAPIDJSON_ASSERT: `HasMember` and `operator[]` want an object,
-- `operator[]` wants the member to be there, `GetString` wants a string. `parse` is `none` where
-- `HasParseError` holds; the document is then the null value that it was created with.
pub record RapidJson (n : Numbers) : Type 1 where
  pub Value : Type 0
  pub fresh : Value
  pub parse : Bytes → Option Value
  pub is_object : Value → Bool
  pub is_array : Value → Bool
  pub is_string : Value → Bool
  pub is_bool : Value → Bool
  pub is_int : Value → Bool
  pub is_uint : Value → Bool
  pub is_int64 : Value → Bool
  pub is_uint64 : Value → Bool
  pub is_double : Value → Bool
  pub members : Value → List (Bytes × Value)
  pub elements : Value → List Value
  pub get_string : Value → Option Bytes
  pub get_bool : Value → Bool
  pub get_int : Value → n.Int
  pub get_uint : Value → n.Uint
  pub get_int64 : Value → n.Int64
  pub get_uint64 : Value → n.Uint64
  pub get_double : Value → n.Double
  pub has_member : Value → Bytes → Option Bool
  pub member : Value → Bytes → Option Value

-- nlohmann::json. `none` is an exception: parse_error from `parse`, type_error from `operator[]`
-- on a value that is neither an object nor null, and from the conversion to a string.
pub record Nlohmann (n : Numbers) : Type 1 where
  pub Json : Type 0
  pub null : Json
  pub object : Json
  pub array : Json
  pub put : Json → Bytes → Json → Json
  pub push_back : Json → Json → Json
  pub of_string : Bytes → Json
  pub of_bool : Bool → Json
  pub of_int : n.Int → Json
  pub of_uint : n.Uint → Json
  pub of_int64 : n.Int64 → Json
  pub of_uint64 : n.Uint64 → Json
  pub of_double : n.Double → Json
  pub parse : Bytes → Option Json
  pub contains : Json → Bytes → Bool
  pub at : Json → Bytes → Option Json
  pub to_string : Json → Option Bytes

-- A failed assertion ends the process.
abbrev pub asserted {ℓ} : {A : Type ℓ} → Option A → Outcome A
asserted none = aborts
asserted (some a) = ok a

module _ {n : Numbers} (r : RapidJson n) where
  -- What `Parse(response.c_str())` makes of a document, and `!HasParseError()`.
  unfoldable pub parse_json_response : Bytes → Bool × r.Value
  parse_json_response response = elim (r.parse (c_str response)) [
    | none ↦ (false, r.fresh)
    | some document ↦ (true, document)
  ]

  module _ (j : Nlohmann n) where
    -- The loops over members and elements, given the conversion of one value. A name passes through
    -- `GetString`.
    pub convert_members :
        (r.Value → Outcome j.Json) → List (Bytes × r.Value) → j.Json → Outcome j.Json
    convert_members f [] result = ok result
    convert_members f ((name, value) ∷ ms) result =
        and_then (f value) λ x. convert_members f ms (j.put result (c_str name) x)

    pub convert_elements : (r.Value → Outcome j.Json) → List r.Value → j.Json → Outcome j.Json
    convert_elements f [] result = ok result
    convert_elements f (value ∷ vs) result =
        and_then (f value) λ x. convert_elements f vs (j.push_back result x)

    pub convert_string : Option Bytes → Outcome j.Json
    convert_string none = aborts
    convert_string (some s) = ok (j.of_string (c_str s))

    -- The tests for a number, in the order of the source; the last case is null.
    pub convert_number : r.Value → j.Json
    convert_number v =
        if r.is_int v
        then j.of_int (r.get_int v)
        else if r.is_uint v
        then j.of_uint (r.get_uint v)
        else if r.is_int64 v
        then j.of_int64 (r.get_int64 v)
        else if r.is_uint64 v
        then j.of_uint64 (r.get_uint64 v)
        else if r.is_double v
        then j.of_double (r.get_double v)
        else j.null

    convert_with : (r.Value → Outcome j.Json) → r.Value → Outcome j.Json
    unfolding convert_members convert_elements convert_string convert_number
    convert_with f v =
        if r.is_object v
        then convert_members f (r.members v) j.object
        else if r.is_array v
        then convert_elements f (r.elements v) j.array
        else if r.is_string v
        then convert_string (r.get_string v)
        else if r.is_bool v
        then ok (j.of_bool (r.get_bool v))
        else ok (convert_number v)

    -- `rapidjsonToNlohmannJson`, with fuel for the depth of the value.
    unfoldable pub rapidjson_to_nlohmann : ℕ → r.Value → Outcome j.Json
    unfolding convert_with
    rapidjson_to_nlohmann zero v = hangs
    rapidjson_to_nlohmann (suc fuel) v = convert_with (rapidjson_to_nlohmann fuel) v

-- A value is a finite tree, and only strings and objects are asked for what they hold.
pub record IsDocument {n : Numbers} (r : RapidJson n) : Type 0 where
  pub size : r.Value → ℕ
  pub member_smaller :
      (v : r.Value)
      → r.is_object v ≡ true
      → (name : Bytes) (u : r.Value) → Mem (name, u) (r.members v)
      → size u < size v
  pub element_smaller :
      (v : r.Value) → r.is_array v ≡ true → (u : r.Value) → Mem u (r.elements v) → size u < size v
  pub string_there : (v : r.Value) → r.is_string v ≡ true → (s : Bytes) × (r.get_string v ≡ some s)

-- What nlohmann::json documents of objects and arrays: the entry of a key, and the items.
pub record IsContainer {n : Numbers} (j : Nlohmann n) : Type 0 where
  pub entry : j.Json → Bytes → Option j.Json
  pub items : j.Json → List j.Json
  pub entry-object : (k : Bytes) → entry j.object k ≡ none
  pub entry-put :
      (o : j.Json) (k : Bytes) (x : j.Json) (k' : Bytes)
      → entry (j.put o k x) k' ≡ (if beq k k' then some x else entry o k')
  pub items-array : items j.array ≡ []
  pub items-push_back : (a x : j.Json) → items (j.push_back a x) ≡ items a ++ (x ∷ [])
