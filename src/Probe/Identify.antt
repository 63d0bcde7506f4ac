-- ===== src/Probe/Identify.antt =====
-- The chain of conditions in CMakeCXXCompilerId.cpp that selects the compiler.
use deribit_trading_system.Base.{Bool, not, ◌&&◌, ◌||◌, ltb, List, [], ◌∷◌, ◌++◌}
use deribit_trading_system.Text.{txt}
use deribit_trading_system.Probe.{Macros, Identity, named, first}
use deribit_trading_system.Probe.Vendors.{
  def, val, comeau, intel, intel_llvm, path_scale, embarcadero, borland, watcom, open_watcom,
  sun_pro, hp, compaq,
}
use deribit_trading_system.Probe.Families.{
  ibm, xl_clang, nvhpc, pgi, cray, ti, fujitsu_clang, fujitsu, ghs, armcc, apple_clang, arm_clang,
  clang, gnu, msvc, adsp, iar,
}

module _ (d : Macros) where
  -- The conditions up to the compilers built on Clang.
  unfoldable pub before_clang : List (Bool × Identity)
  unfolding ibm
  before_clang =
      (def d "__COMO__", comeau d)
      ∷ (def d "__INTEL_COMPILER" || def d "__ICC", intel d)
      ∷ (
        (def d "__clang__" && def d "__INTEL_CLANG_COMPILER") || def d "__INTEL_LLVM_COMPILER",
        intel_llvm d,
      )
      ∷ (def d "__PATHCC__", path_scale d)
      ∷ (def d "__BORLANDC__" && def d "__CODEGEARC_VERSION__", embarcadero d)
      ∷ (def d "__BORLANDC__", borland d)
      ∷ (def d "__WATCOMC__" && ltb (val d "__WATCOMC__") 1200, watcom d)
      ∷ (def d "__WATCOMC__", open_watcom d)
      ∷ (def d "__SUNPRO_CC", sun_pro d)
      ∷ (def d "__HP_aCC", hp d)
      ∷ (def d "__DECCXX", compaq d)
      ∷ (def d "__IBMCPP__" && def d "__COMPILER_VER__", ibm d (txt "zOS"))
      ∷ (def d "__ibmxl__" && def d "__clang__", xl_clang d)
      ∷ (
        def d "__IBMCPP__" && not (def d "__COMPILER_VER__") && not (ltb (val d "__IBMCPP__") 800),
        ibm d (txt "XL"),
      )
      ∷ (
        def d "__IBMCPP__" && not (def d "__COMPILER_VER__") && ltb (val d "__IBMCPP__") 800,
        ibm d (txt "VisualAge"),
      )
      ∷ (def d "__NVCOMPILER", nvhpc d)
      ∷ (def d "__PGI", pgi d)
      ∷ (def d "_CRAYC", cray d)
      ∷ (def d "__TI_COMPILER_VERSION__", ti d)
      ∷ (def d "__CLANG_FUJITSU", fujitsu_clang d)
      ∷ (def d "__FUJITSU", fujitsu d)
      ∷ (def d "__ghs__", ghs d)
      ∷ (def d "__SCO_VERSION__", named (txt "SCO"))
      ∷ (def d "__ARMCC_VERSION" && not (def d "__clang__"), armcc d)
      ∷ (def d "__clang__" && def d "__apple_build_version__", apple_clang d)
      ∷ (def d "__clang__" && def d "__ARMCOMPILER_VERSION", arm_clang d)
      ∷ []

  -- The conditions from Clang on.
  unfoldable pub from_clang : List (Bool × Identity)
  from_clang =
      (def d "__clang__", clang d)
      ∷ (def d "__GNUC__" || def d "__GNUG__", gnu d)
      ∷ (def d "_MSC_VER", msvc d)
      ∷ (
        def d "__VISUALDSPVERSION__"
            || def d "__ADSPBLACKFIN__"
            || def d "__ADSPTS__"
            || def d "__ADSP21000__",
        adsp d,
      )
      ∷ (def d "__IAR_SYSTEMS_ICC__" || def d "__IAR_SYSTEMS_ICC", iar d)
      ∷ (def d "__hpux" || def d "__hpua", named (txt "HP"))
      ∷ []

  unfoldable pub identify : Identity
  identify = first (before_clang ++ from_clang) (named [])
