-- ===== src/Samples/Kinds.antt =====
-- The kinds of the trees, as both libraries see them.
use deribit_trading_system.Base.{◌≡◌, refl}
use deribit_trading_system.Json.Kinds.{
  Kind, null_kind, bool_kind, number_kind, string_kind, array_kind, object_kind, is_object_kind,
  is_array_kind, is_string_kind, is_bool_kind, is_number_kind, IsTested, IsTyped,
}
use deribit_trading_system.Samples.Trees.{
  Tree, empty, flag, number, text, sequence, dict, is_dict, is_sequence, is_text, is_flag,
  is_number, tree_rapid, tree_nlohmann,
}

abbrev kind_of : Tree → Kind
kind_of empty = null_kind
kind_of (flag b) = bool_kind
kind_of (number n) = number_kind
kind_of (text s) = string_kind
kind_of (sequence xs) = array_kind
kind_of (dict fs) = object_kind

pub is_dict-kind : (t : Tree) → is_dict t ≡ is_object_kind (kind_of t)
is_dict-kind empty = refl
is_dict-kind (flag b) = refl
is_dict-kind (number n) = refl
is_dict-kind (text s) = refl
is_dict-kind (sequence xs) = refl
is_dict-kind (dict fs) = refl

pub is_sequence-kind : (t : Tree) → is_sequence t ≡ is_array_kind (kind_of t)
is_sequence-kind empty = refl
is_sequence-kind (flag b) = refl
is_sequence-kind (number n) = refl
is_sequence-kind (text s) = refl
is_sequence-kind (sequence xs) = refl
is_sequence-kind (dict fs) = refl

pub is_text-kind : (t : Tree) → is_text t ≡ is_string_kind (kind_of t)
is_text-kind empty = refl
is_text-kind (flag b) = refl
is_text-kind (number n) = refl
is_text-kind (text s) = refl
is_text-kind (sequence xs) = refl
is_text-kind (dict fs) = refl

pub is_flag-kind : (t : Tree) → is_flag t ≡ is_bool_kind (kind_of t)
is_flag-kind empty = refl
is_flag-kind (flag b) = refl
is_flag-kind (number n) = refl
is_flag-kind (text s) = refl
is_flag-kind (sequence xs) = refl
is_flag-kind (dict fs) = refl

pub is_number-kind : (t : Tree) → is_number t ≡ is_number_kind (kind_of t)
is_number-kind empty = refl
is_number-kind (flag b) = refl
is_number-kind (number n) = refl
is_number-kind (text s) = refl
is_number-kind (sequence xs) = refl
is_number-kind (dict fs) = refl

abbrev pub tree_tested : IsTested tree_rapid
tree_tested = record {
  kind = kind_of;
  object_test = is_dict-kind;
  array_test = is_sequence-kind;
  string_test = is_text-kind;
  bool_test = is_flag-kind;
  number_test = is_number-kind;
}

abbrev pub tree_typed : IsTyped tree_nlohmann
tree_typed = record {
  type = kind_of;
  type-null = refl;
  type-object = refl;
  type-array = refl;
  type-put = λ o k x t. refl;
  type-push_back = λ a x t. refl;
  type-of_string = λ s. refl;
  type-of_bool = λ b. refl;
  type-of_int = λ i. refl;
  type-of_uint = λ i. refl;
  type-of_int64 = λ i. refl;
  type-of_uint64 = λ i. refl;
  type-of_double = λ d. refl;
}
