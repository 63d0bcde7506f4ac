-- ===== src/Probe/Families.antt =====
-- The other branches of the compiler identification in CMakeCXXCompilerId.cpp, and the chain of their
-- conditions.
use deribit_trading_system.Base.{
  ◌-◌, ◌*◌, ◌/◌, ◌%◌, ◌^◌, Bool, ◌&&◌, ◌||◌, ltb, Option, none, some, if◌then◌else◌,
}
use deribit_trading_system.Text.{Bytes, txt}
use deribit_trading_system.Probe.{
  Macros, Macro, literal, Part, text, error, when, plain, Identity, named,
}
use deribit_trading_system.Probe.Vendors.{def, val, decimal, hexadecimal}

-- A macro used as a string literal.
quoted : Option Macro → Part
quoted (some (literal s)) = text s
quoted m = error

module _ (d : Macros) where
  -- z/OS, XL and VisualAge encode their versions alike.
  unfoldable pub ibm : Bytes → Identity
  ibm name = record (named name) {
    major = decimal d "__IBMCPP__" (λ v. v / 100);
    minor = decimal d "__IBMCPP__" (λ v. v / 10 % 10);
    patch = decimal d "__IBMCPP__" (λ v. v % 10);
  }

  unfoldable pub xl_clang : Identity
  xl_clang = record (named (txt "XLClang")) {
    major = decimal d "__ibmxl_version__" plain;
    minor = decimal d "__ibmxl_release__" plain;
    patch = decimal d "__ibmxl_modification__" plain;
    tweak = decimal d "__ibmxl_ptf_fix_level__" plain;
  }

  unfoldable pub nvhpc : Identity
  nvhpc = record (named (txt "NVHPC")) {
    major = decimal d "__NVCOMPILER_MAJOR__" plain;
    minor = decimal d "__NVCOMPILER_MINOR__" plain;
    patch = when (def d "__NVCOMPILER_PATCHLEVEL__") (decimal d "__NVCOMPILER_PATCHLEVEL__" plain);
  }

  unfoldable pub pgi : Identity
  pgi = record (named (txt "PGI")) {
    major = decimal d "__PGIC__" plain;
    minor = decimal d "__PGIC_MINOR__" plain;
    patch = when (def d "__PGIC_PATCHLEVEL__") (decimal d "__PGIC_PATCHLEVEL__" plain);
  }

  unfoldable pub cray : Identity
  cray = record (named (txt "Cray")) {
    major = decimal d "_RELEASE_MAJOR" plain;
    minor = decimal d "_RELEASE_MINOR" plain;
  }

  unfoldable pub ti : Identity
  ti = record (named (txt "TI")) {
    major = decimal d "__TI_COMPILER_VERSION__" (λ v. v / 1000000);
    minor = decimal d "__TI_COMPILER_VERSION__" (λ v. v / 1000 % 1000);
    patch = decimal d "__TI_COMPILER_VERSION__" (λ v. v % 1000);
  }

  fcc : Identity → Identity
  fcc i = record i {
    major = decimal d "__FCC_major__" plain;
    minor = decimal d "__FCC_minor__" plain;
    patch = decimal d "__FCC_patchlevel__" plain;
  }

  unfoldable pub fujitsu_clang : Identity
  unfolding fcc quoted
  fujitsu_clang = record (fcc (named (txt "FujitsuClang"))) {
    internal_str = quoted (d (txt "__clang_version__"));
  }

  unfoldable pub fujitsu : Identity
  unfolding fcc quoted
  fujitsu =
      let i = record (named (txt "Fujitsu")) {
        internal =
            if def d "__fcc_version"
            then decimal d "__fcc_version" plain
            else when (def d "__FCC_VERSION") (decimal d "__FCC_VERSION" plain);
      } in
      if def d "__FCC_version__"
      then record i { version = quoted (d (txt "__FCC_version__")) }
      else if def d "__FCC_major__"
      then fcc i
      else i

  unfoldable pub ghs : Identity
  ghs =
      let there = def d "__GHS_VERSION_NUMBER" in
      record (named (txt "GHS")) {
        major = when there (decimal d "__GHS_VERSION_NUMBER" (λ v. v / 100));
        minor = when there (decimal d "__GHS_VERSION_NUMBER" (λ v. v / 10 % 10));
        patch = when there (decimal d "__GHS_VERSION_NUMBER" (λ v. v % 10));
      }

  unfoldable pub armcc : Identity
  armcc =
      if ltb (val d "__ARMCC_VERSION") 1000000
      then record (named (txt "ARMCC")) {
        major = decimal d "__ARMCC_VERSION" (λ v. v / 100000);
        minor = decimal d "__ARMCC_VERSION" (λ v. v / 10000 % 10);
        patch = decimal d "__ARMCC_VERSION" (λ v. v % 10000);
      }
      else record (named (txt "ARMCC")) {
        major = decimal d "__ARMCC_VERSION" (λ v. v / 1000000);
        minor = decimal d "__ARMCC_VERSION" (λ v. v / 10000 % 100);
        patch = decimal d "__ARMCC_VERSION" (λ v. v % 10000);
      }

  -- What AppleClang and Clang have in common.
  clang_like : Bytes → Identity
  clang_like name = record (named name) {
    simulate = if def d "_MSC_VER" then some (txt "MSVC") else none;
    major = decimal d "__clang_major__" plain;
    minor = decimal d "__clang_minor__" plain;
    patch = decimal d "__clang_patchlevel__" plain;
    simulate_major = when (def d "_MSC_VER") (decimal d "_MSC_VER" (λ v. v / 100));
    simulate_minor = when (def d "_MSC_VER") (decimal d "_MSC_VER" (λ v. v % 100));
  }

  unfoldable pub apple_clang : Identity
  unfolding clang_like
  apple_clang = record (clang_like (txt "AppleClang")) {
    tweak = decimal d "__apple_build_version__" plain;
  }

  unfoldable pub arm_clang : Identity
  arm_clang = record (named (txt "ARMClang")) {
    major = decimal d "__ARMCOMPILER_VERSION" (λ v. v / 1000000);
    minor = decimal d "__ARMCOMPILER_VERSION" (λ v. v / 10000 % 100);
    patch = decimal d "__ARMCOMPILER_VERSION" (λ v. v % 10000);
    internal = decimal d "__ARMCOMPILER_VERSION" plain;
  }

  unfoldable pub clang : Identity
  unfolding clang_like
  clang = clang_like (txt "Clang")

  unfoldable pub gnu : Identity
  gnu = record (named (txt "GNU")) {
    major = if def d "__GNUC__" then decimal d "__GNUC__" plain else decimal d "__GNUG__" plain;
    minor = when (def d "__GNUC_MINOR__") (decimal d "__GNUC_MINOR__" plain);
    patch = when (def d "__GNUC_PATCHLEVEL__") (decimal d "__GNUC_PATCHLEVEL__" plain);
  }

  unfoldable pub msvc : Identity
  msvc = record (named (txt "MSVC")) {
    major = decimal d "_MSC_VER" (λ v. v / 100);
    minor = decimal d "_MSC_VER" (λ v. v % 100);
    patch = when (def d "_MSC_FULL_VER") (
        if ltb (val d "_MSC_VER") 1400
        then decimal d "_MSC_FULL_VER" (λ v. v % 10000)
        else decimal d "_MSC_FULL_VER" (λ v. v % 100000));
    tweak = when (def d "_MSC_BUILD") (decimal d "_MSC_BUILD" plain);
  }

  unfoldable pub adsp : Identity
  adsp =
      let there = def d "__VISUALDSPVERSION__" in
      record (named (txt "ADSP")) {
        major = when there (hexadecimal d "__VISUALDSPVERSION__" (λ v. v / 2 ^ 24));
        minor = when there (hexadecimal d "__VISUALDSPVERSION__" (λ v. v / 2 ^ 16 % 256));
        patch = when there (hexadecimal d "__VISUALDSPVERSION__" (λ v. v / 2 ^ 8 % 256));
      }

  abbrev is_other_iar : Bool
  is_other_iar =
      def d "__ICCAVR__"
      || def d "__ICCRX__"
      || def d "__ICCRH850__"
      || def d "__ICCRL78__"
      || def d "__ICC430__"
      || def d "__ICCRISCV__"
      || def d "__ICCV850__"
      || def d "__ICC8051__"
      || def d "__ICCSTM8__"

  unfoldable pub iar : Identity
  iar =
      if def d "__VER__" && def d "__ICCARM__"
      then record (named (txt "IAR")) {
        major = decimal d "__VER__" (λ v. v / 1000000);
        minor = decimal d "__VER__" (λ v. v / 1000 % 1000);
        patch = decimal d "__VER__" (λ v. v % 1000);
        internal = decimal d "__IAR_SYSTEMS_ICC__" plain;
      }
      else if def d "__VER__" && is_other_iar
      then record (named (txt "IAR")) {
        major = decimal d "__VER__" (λ v. v / 100);
        minor = decimal d "__VER__" (λ v. v - v / 100 * 100);
        patch = decimal d "__SUBVERSION__" plain;
        internal = decimal d "__IAR_SYSTEMS_ICC__" plain;
      }
      else named (txt "IAR")
