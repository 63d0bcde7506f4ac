-- ===== src/Probe/Tests.antt =====
-- The compiler identification run on the macros of GCC 11.4 and of Clang 14 on Linux.
use deribit_trading_system.Base.{◌≡◌, refl, false, List, [], ◌∷◌, none, some, if◌then◌else◌}
use deribit_trading_system.Text.{Bytes, txt, beq}
use deribit_trading_system.Probe.{Macro, number, Macros, text, absent, defined, value, dec, dec_of}
use deribit_trading_system.Probe.Families.{gnu}
use deribit_trading_system.Probe.Identify.{before_clang, from_clang, identify}
use deribit_trading_system.Probe.Platform.{platform_id}
use deribit_trading_system.Probe.Info.{
  info_simulate, info_simulate_version, info_cray, dotted, info, info_compiler, info_version,
  info_platform, standard_default, extensions_default, main, require, char_at,
}
use deribit_trading_system.Probe.Clang.{identify-not_gnu}
use deribit_trading_system.Probe.Reading.{read_version, info_version-read}

abbrev macros : List (Bytes × Macro) → Macros
macros [] name = none
macros ((n, m) ∷ rest) name = if beq n name then some m else macros rest name

abbrev gcc : Macros
unfolding beq
gcc = macros (
    (txt "__GNUC__", number 11)
    ∷ (txt "__GNUC_MINOR__", number 4)
    ∷ (txt "__GNUC_PATCHLEVEL__", number 0)
    ∷ (txt "__linux__", number 1)
    ∷ (txt "__cplusplus", number 201703)
    ∷ [])

abbrev clang_14 : Macros
unfolding beq
clang_14 = macros (
    (txt "__clang__", number 1)
    ∷ (txt "__clang_major__", number 14)
    ∷ (txt "__GNUC__", number 4)
    ∷ (txt "__GNUC_MINOR__", number 2)
    ∷ (txt "__linux__", number 1)
    ∷ [])

identify-not_gnu_example : beq (identify clang_14).id (txt "GNU") ≡ false
unfolding defined clang_14 beq
identify-not_gnu_example = identify-not_gnu clang_14 refl

info_version-read_example :
    (s : Bytes) × (info_version (gnu gcc) ≡ info (txt "compiler_version") (text s))
    × (read_version s ≡ 11 ∷ 4 ∷ 0 ∷ [])
unfolding gnu gcc defined dec_of beq
info_version-read_example = info_version-read (gnu gcc) 11 (4 ∷ 0 ∷ []) (absent ∷ []) refl refl refl

-- The texts of this build's compiler.
texts_of_gcc :
    (info_compiler (identify gcc) ≡ text (txt "INFO:compiler[GNU]"))
    × (info_version (identify gcc) ≡ text (txt "INFO:compiler_version[00000011.00000004.00000000]"))
    × (info_platform gcc ≡ text (txt "INFO:platform[Linux]"))
    × (standard_default gcc ≡ txt "17")
    × (extensions_default gcc ≡ txt "ON")
unfolding info_compiler info_version info_platform standard_default extensions_default identify
    before_clang from_clang platform_id gnu gcc defined value dec dec_of info dotted beq
texts_of_gcc = (refl, refl, refl, refl, refl)

-- `main` started without arguments reads the character behind the first of each text; far out of the
-- texts it reads what is not theirs.
main_of_gcc : (main gcc 1 ≡ some 390) × (main gcc 100 ≡ none)
unfolding main info_simulate info_simulate_version info_cray require char_at info_compiler
    info_version info_platform standard_default extensions_default identify before_clang from_clang
    platform_id gnu gcc defined value dec dec_of info dotted beq
main_of_gcc = (refl, refl)
