-- ===== src/Samples/Trees.antt =====
-- JSON trees that serve as the values of both libraries, and a parser that knows a few texts.
use mathlib.Core.List.{Mem, mem-cons, not-mem-nil}
use mathlib.Core.Logic.Or
use native.Mathlib.Bridge.{le_prop}
use deribit_trading_system.Base.{
  ℕ, suc, ◌+◌, ◌≤◌, ◌<◌, ◌≡◌, refl, ap, Bool, true, false, List, [], ◌∷◌, ◌++◌, Option, none, some,
  if◌then◌else◌, arith,
}
use deribit_trading_system.Text.{Bytes, txt, beq}
use deribit_trading_system.Json.{Numbers, RapidJson, Nlohmann, IsDocument, IsContainer}

mutual
  pub data Tree : Type 0 where
    empty : Tree
    flag : Bool → Tree
    number : Bytes → Tree
    text : Bytes → Tree
    sequence : Items → Tree
    dict : Fields → Tree

  pub data Items : Type 0 where
    done : Items
    item : Tree → Items → Items

  pub data Fields : Type 0 where
    end : Fields
    field : Bytes → Tree → Fields → Fields

abbrev mutual
  pub tree_size : Tree → ℕ
  tree_size empty = 1
  tree_size (flag b) = 1
  tree_size (number n) = 1
  tree_size (text s) = 1
  tree_size (sequence xs) = suc (items_size xs)
  tree_size (dict fs) = suc (fields_size fs)

  pub items_size : Items → ℕ
  items_size done = 0
  items_size (item t xs) = tree_size t + items_size xs

  pub fields_size : Fields → ℕ
  fields_size end = 0
  fields_size (field k t fs) = tree_size t + fields_size fs

-- A number is kept as the text that it is printed as.
abbrev pub plain_numbers : Numbers
plain_numbers = record { Int = Bytes; Uint = Bytes; Int64 = Bytes; Uint64 = Bytes; Double = Bytes }

abbrev fields_of : Tree → Fields
fields_of (dict fs) = fs
fields_of _ = end

abbrev items_of : Tree → Items
items_of (sequence xs) = xs
items_of _ = done

abbrev list_of : Items → List Tree
list_of done = []
list_of (item t xs) = t ∷ list_of xs

abbrev pairs_of : Fields → List (Bytes × Tree)
pairs_of end = []
pairs_of (field k t fs) = (k, t) ∷ pairs_of fs

abbrev append_item : Items → Tree → Items
append_item done x = item x done
append_item (item t xs) x = item t (append_item xs x)

abbrev look : Bytes → Fields → Option Tree
look k end = none
look k (field j t fs) = if beq j k then some t else look k fs

abbrev pub is_dict : Tree → Bool
is_dict (dict fs) = true
is_dict _ = false

abbrev pub is_sequence : Tree → Bool
is_sequence (sequence xs) = true
is_sequence _ = false

abbrev pub is_text : Tree → Bool
is_text (text s) = true
is_text _ = false

abbrev pub is_flag : Tree → Bool
is_flag (flag b) = true
is_flag _ = false

abbrev pub is_number : Tree → Bool
is_number (number n) = true
is_number _ = false

abbrev flag_of : Tree → Bool
flag_of (flag b) = b
flag_of _ = false

abbrev number_of : Tree → Bytes
number_of (number n) = n
number_of _ = []

abbrev text_of : Tree → Option Bytes
text_of (text s) = some s
text_of _ = none

abbrev has : Option Tree → Bool
has none = false
has (some t) = true

abbrev pub has_in : Tree → Bytes → Option Bool
has_in (dict fs) k = some (has (look k fs))
has_in _ k = none

-- An order as the exchange describes it.
abbrev pub sample_order : Tree
sample_order =
    dict
      (field (txt "order_id") (text (txt "ETH-1")) (field (txt "amount") (number (txt "40")) end))

abbrev pub placed_document : Tree
placed_document = dict (field (txt "result") (dict (field (txt "order") sample_order end)) end)

abbrev pub token_document : Tree
token_document =
    dict (field (txt "result") (dict (field (txt "access_token") (text (txt "tok")) end)) end)

-- The texts that the parser knows.
abbrev pub parse_tree : Bytes → Option Tree
parse_tree s =
    if beq s (txt "placed")
    then some placed_document
    else if beq s (txt "token")
    then some token_document
    else if beq s (txt "list")
    then some (sequence (item sample_order done))
    else none

abbrev pub tree_rapid : RapidJson plain_numbers
tree_rapid = record {
  Value = Tree;
  fresh = empty;
  parse = parse_tree;
  is_object = is_dict;
  is_array = is_sequence;
  is_string = is_text;
  is_bool = is_flag;
  is_int = λ t. false;
  is_uint = λ t. false;
  is_int64 = λ t. false;
  is_uint64 = λ t. false;
  is_double = is_number;
  members = λ t. pairs_of (fields_of t);
  elements = λ t. list_of (items_of t);
  get_string = text_of;
  get_bool = flag_of;
  get_int = number_of;
  get_uint = number_of;
  get_int64 = number_of;
  get_uint64 = number_of;
  get_double = number_of;
  has_member = has_in;
  member = λ t k. look k (fields_of t);
}

abbrev pub tree_nlohmann : Nlohmann plain_numbers
tree_nlohmann = record {
  Json = Tree;
  null = empty;
  object = dict end;
  array = sequence done;
  put = λ o k x. dict (field k x (fields_of o));
  push_back = λ a x. sequence (append_item (items_of a) x);
  of_string = text;
  of_bool = flag;
  of_int = number;
  of_uint = number;
  of_int64 = number;
  of_uint64 = number;
  of_double = number;
  parse = parse_tree;
  contains = λ t k. has (look k (fields_of t));
  at = λ t k. look k (fields_of t);
  to_string = text_of;
}

pairs-size :
    (fs : Fields) (k : Bytes) (u : Tree) → Mem (k, u) (pairs_of fs) → tree_size u ≤ fields_size fs
pairs-size end k u m = absurd (not-mem-nil m)
pairs-size (field j t fs) k u m =
    Or.elim le_prop (mem-cons.0 m) (λ e. rw (ap (λ p. p.1) e) (omega arith))
      (λ n. omega (arith, pairs-size fs k u n))

list-size : (xs : Items) (u : Tree) → Mem u (list_of xs) → tree_size u ≤ items_size xs
list-size done u m = absurd (not-mem-nil m)
list-size (item t xs) u m =
    Or.elim le_prop (mem-cons.0 m) (λ e. rw e (omega arith)) (λ n. omega (arith, list-size xs u n))

pub member-smaller :
    (v : Tree)
    → is_dict v ≡ true
    → (k : Bytes) (u : Tree) → Mem (k, u) (pairs_of (fields_of v))
    → tree_size u < tree_size v
member-smaller (dict fs) h k u m = omega (arith, pairs-size fs k u m)
member-smaller v h k u m = cc

pub element-smaller :
    (v : Tree)
    → is_sequence v ≡ true
    → (u : Tree) → Mem u (list_of (items_of v))
    → tree_size u < tree_size v
element-smaller (sequence xs) h u m = omega (arith, list-size xs u m)
element-smaller v h u m = cc

pub string-there : (v : Tree) → is_text v ≡ true → (s : Bytes) × (text_of v ≡ some s)
string-there (text s) h = (s, refl)
string-there v h = cc

abbrev pub tree_document : IsDocument tree_rapid
tree_document = record {
  size = tree_size;
  member_smaller = member-smaller;
  element_smaller = element-smaller;
  string_there = string-there;
}

pub list_of-append : (xs : Items) (x : Tree) → list_of (append_item xs x) ≡ list_of xs ++ (x ∷ [])
list_of-append done x = refl
list_of-append (item t xs) x = ap (◌∷◌ t) (list_of-append xs x)

abbrev pub tree_container : IsContainer tree_nlohmann
tree_container = record {
  entry = λ o k. look k (fields_of o);
  items = λ a. list_of (items_of a);
  entry-object = λ k. refl;
  entry-put = λ o k x k'. refl;
  items-array = refl;
  items-push_back = λ a x. list_of-append (items_of a) x;
}
