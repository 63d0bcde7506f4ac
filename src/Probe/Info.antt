-- ===== src/Probe/Info.antt =====
-- The texts that CMakeCXXCompilerId.cpp puts in its object file, the language's default standard, and
-- `main`, which reads them so that they are kept.
use deribit_trading_system.Base.{
  ℕ, ◌+◌, Bool, true, false, not, ◌&&◌, ◌||◌, ltb, List, [], ◌∷◌, ◌++◌, Option, none, some,
  if◌then◌else◌, get_elem?,
}
use mathlib.Core.Option
use deribit_trading_system.Text.{Bytes, txt}
use deribit_trading_system.Probe.{Macros, Part, absent, text, error, Identity, when, first}
use deribit_trading_system.Probe.Vendors.{def, val}
use deribit_trading_system.Probe.Identify.{identify}
use deribit_trading_system.Probe.Platform.{platform_id, architecture_id}

abbrev prepend : Bytes → Part → Part
prepend s absent = absent
prepend s (text t) = text (s ++ t)
prepend s error = error

-- The rest of a version, each number behind a '.', up to the first that is not defined.
unfoldable pub dotted : List Part → Part
dotted [] = text []
dotted (absent ∷ rest) = text []
dotted (text s ∷ rest) = prepend (46 ∷ s) (dotted rest)
dotted (error ∷ rest) = error

-- A version whose first number is there.
unfoldable pub numbered : Part → List Part → Part
numbered absent rest = absent
numbered (text s) rest = prepend s (dotted rest)
numbered error rest = error

-- "INFO:key[value]"
unfoldable pub info : Bytes → Part → Part
info key absent = absent
info key (text value) = text (txt "INFO:" ++ key ++ (91 ∷ value) ++ (93 ∷ []))
info key error = error

unfoldable pub is_there : Part → Bool
is_there absent = false
is_there (text s) = true
is_there error = true

some_text : Option Bytes → Part
some_text none = absent
some_text (some s) = text s

module _ (i : Identity) where
  unfoldable pub info_compiler : Part
  unfolding info
  info_compiler = info (txt "compiler") (text i.id)

  unfoldable pub info_simulate : Part
  unfolding info some_text
  info_simulate = info (txt "simulate") (some_text i.simulate)

  unfoldable pub info_version : Part
  unfolding info is_there numbered
  info_version = info (txt "compiler_version") (
      if is_there i.version then i.version else numbered i.major (i.minor ∷ i.patch ∷ i.tweak ∷ []))

  unfoldable pub info_version_internal : Part
  unfolding info is_there
  info_version_internal =
      info (txt "compiler_version_internal")
        (if is_there i.internal then i.internal else i.internal_str)

  -- SIMULATE_VERSION_TWEAK is defined nowhere.
  unfoldable pub info_simulate_version : Part
  unfolding info numbered
  info_simulate_version =
      info (txt "simulate_version")
        (numbered i.simulate_major (i.simulate_minor ∷ i.simulate_patch ∷ []))

module _ (d : Macros) where
  unfoldable pub qnxnto : Part
  unfolding info
  qnxnto = when (def d "__QNXNTO__") (info (txt "qnxnto") (text []))

  unfoldable pub info_cray : Part
  unfolding info
  info_cray =
      when (def d "__CRAYXT_COMPUTE_LINUX_TARGET")
        (info (txt "compiler_wrapper") (text (txt "CrayPrgEnv")))

  unfoldable pub info_platform : Part
  unfolding info
  info_platform = info (txt "platform") (text (platform_id d))

  unfoldable pub info_arch : (Bytes → Bytes) → Part
  unfolding info
  info_arch stringify = info (txt "arch") (text (architecture_id d stringify))

  -- CXX_STD
  unfoldable pub cxx_std : ℕ
  cxx_std =
      if def d "__INTEL_COMPILER" && def d "_MSVC_LANG" && ltb (val d "_MSVC_LANG") 201403
      then (if def d "__INTEL_CXX11_MODE__"
          then if def d "__cpp_aggregate_nsdmi" then 201402 else 201103
          else 199711)
      else if def d "_MSC_VER" && def d "_MSVC_LANG"
      then val d "_MSVC_LANG"
      else val d "__cplusplus"

  unfoldable pub standard_default : Bytes
  unfolding cxx_std
  standard_default =
      first
        ((ltb 202002 cxx_std, txt "23")
          ∷ (ltb 201703 cxx_std, txt "20")
          ∷ (not (ltb cxx_std 201703), txt "17")
          ∷ (not (ltb cxx_std 201402), txt "14")
          ∷ (not (ltb cxx_std 201103), txt "11")
          ∷ [])
        (txt "98")

  unfoldable pub extensions_default : Bytes
  extensions_default =
      if (def d "__clang__" || def d "__GNUC__" || def d "__TI_COMPILER_VERSION__")
        && not (def d "__STRICT_ANSI__")
        && not (def d "_MSC_VER")
      then txt "ON"
      else txt "OFF"

-- The character at a place of a text with its NUL, none behind it. What is not defined adds nothing.
unfoldable pub char_at : Part → ℕ → Option ℕ
char_at absent argc = some 0
char_at (text s) argc = get_elem? (s ++ (0 ∷ [])) argc
char_at error argc = none

unfoldable pub require : List Part → ℕ → Option ℕ
unfolding char_at
require [] argc = some 0
require (p ∷ ps) argc = elim (char_at p argc) [
  | none ↦ none
  | some c ↦ Option.map (λ n. c + n) (require ps argc)
]

-- The version is read where COMPILER_VERSION_MAJOR is defined, the internal version where its number
-- is: its string is not read.
unfoldable pub main : Macros → ℕ → Option ℕ
unfolding require info is_there
main d argc =
    let i = identify d in
    require
      (info_compiler i
        ∷ info_platform d
        ∷ when (is_there i.major) (info_version i)
        ∷ when (is_there i.internal) (info_version_internal i)
        ∷ info_simulate i
        ∷ info_simulate_version i
        ∷ info_cray d
        ∷ info (txt "standard_default") (text (standard_default d))
        ∷ info (txt "extensions_default") (text (extensions_default d))
        ∷ [])
      argc
