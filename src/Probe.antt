-- ===== src/Probe.antt =====
-- build/CMakeFiles/3.22.1/CompilerIdCXX/CMakeCXXCompilerId.cpp, the program that CMake compiled to
-- identify the compiler of this build: what its preprocessor lines select from the macros that a
-- compiler predefines. The copy in websocket_project/build is the same file.
pub mod Vendors
pub mod Families
pub mod Identify
pub mod Platform
pub mod Info
pub mod Digits
pub mod Reading
pub mod Clang
mod Tests
use deribit_trading_system.Base.{
  ℕ, zero, suc, ◌+◌, ◌*◌, ◌/◌, ◌%◌, ◌^◌, Bool, true, false, List, [], ◌∷◌, ◌++◌, Option, none, some,
  if◌then◌else◌,
}
use deribit_trading_system.Text.{Bytes, txt}

-- What a macro expands to: a number, a string literal, or nothing.
pub data Macro : Type 0 where
  number : ℕ → Macro
  literal : Bytes → Macro
  blank : Macro

abbrev pub Macros : Type 0
Macros = Bytes → Option Macro

unfoldable pub defined : Macros → Bytes → Bool
defined d name = elim (d name) [ none ↦ false | some m ↦ true ]

-- A name in the condition of an `#if`. A literal or nothing, which the preprocessor refuses there,
-- counts as 0.
unfoldable pub value : Macros → Bytes → ℕ
value d name = elim (d name) [
  | none ↦ 0
  | some m ↦ elim m [ number n ↦ n | literal s ↦ 0 | blank ↦ 0 ]
]

-- A text of the program: not there, there, or an error of compilation.
pub data Part : Type 0 where
  absent : Part
  text : Bytes → Part
  error : Part

abbrev pub digit : ℕ → ℕ → ℕ
digit n unit = 48 + n / unit % 10

-- The macro `DEC`.
unfoldable pub dec : ℕ → Bytes
dec n =
    digit n 10000000
    ∷ digit n 1000000
    ∷ digit n 100000
    ∷ digit n 10000
    ∷ digit n 1000
    ∷ digit n 100
    ∷ digit n 10
    ∷ digit n 1
    ∷ []

abbrev pub nibble : ℕ → ℕ → ℕ
nibble n shift = 48 + n / 2 ^ shift % 16

-- The macro `HEX`. A digit above 9 is a character behind '9'.
unfoldable pub hex : ℕ → Bytes
hex n =
    nibble n 28
    ∷ nibble n 24
    ∷ nibble n 20
    ∷ nibble n 16
    ∷ nibble n 12
    ∷ nibble n 8
    ∷ nibble n 4
    ∷ nibble n 0
    ∷ []

-- `DEC` and `HEX` of an expression in one macro, which must be a number.
computed : (ℕ → Bytes) → Option Macro → Part
computed f (some (number n)) = text (f n)
computed f m = error

unfoldable pub dec_of : Macros → Bytes → (ℕ → ℕ) → Part
unfolding computed
dec_of d name f = computed (λ n. dec (f n)) (d name)

unfoldable pub hex_of : Macros → Bytes → (ℕ → ℕ) → Part
unfolding computed
hex_of d name f = computed (λ n. hex (f n)) (d name)

-- Only where another macro is defined.
abbrev pub when : Bool → Part → Part
when true p = p
when false p = absent

abbrev pub plain : ℕ → ℕ
plain n = n

-- The macros COMPILER_ID, SIMULATE_ID, COMPILER_VERSION and its numbered parts, the internal version
-- and the version of the simulated compiler.
pub record Identity : Type 0 where
  pub id : Bytes
  pub simulate : Option Bytes
  pub version : Part
  pub major : Part
  pub minor : Part
  pub patch : Part
  pub tweak : Part
  pub internal : Part
  pub internal_str : Part
  pub simulate_major : Part
  pub simulate_minor : Part
  pub simulate_patch : Part

abbrev pub named : Bytes → Identity
named id = record {
  id = id;
  simulate = none;
  version = absent;
  major = absent;
  minor = absent;
  patch = absent;
  tweak = absent;
  internal = absent;
  internal_str = absent;
  simulate_major = absent;
  simulate_minor = absent;
  simulate_patch = absent;
}

-- An `#if` with its `#elif`s and `#else`: the first condition that holds.
abbrev pub first {ℓ} : {A : Type ℓ} → List (Bool × A) → A → A
first [] other = other
first ((true, a) ∷ rest) other = a
first ((false, a) ∷ rest) other = first rest other
