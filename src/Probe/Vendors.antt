-- ===== src/Probe/Vendors.antt =====
-- The first branches of the compiler identification in CMakeCXXCompilerId.cpp, one function each.
use Prim.Native.String.{String}
use deribit_trading_system.Base.{
  ℕ, ◌-◌, ◌/◌, ◌%◌, ◌^◌, Bool, ◌||◌, ◌==◌, ltb, Option, none, some, if◌then◌else◌,
}
use deribit_trading_system.Text.{Bytes, txt}
use deribit_trading_system.Probe.{
  Macros, defined, value, Part, text, dec, dec_of, hex_of, when, plain, Identity, named,
}

module _ (d : Macros) where
  abbrev pub def : String → Bool
  def name = defined d (txt name)

  abbrev pub val : String → ℕ
  val name = value d (txt name)

  abbrev pub decimal : String → (ℕ → ℕ) → Part
  decimal name f = dec_of d (txt name) f

  abbrev pub hexadecimal : String → (ℕ → ℕ) → Part
  hexadecimal name f = hex_of d (txt name) f

  unfoldable pub comeau : Identity
  comeau = record (named (txt "Comeau")) {
    major = decimal "__COMO_VERSION__" (λ v. v / 100);
    minor = decimal "__COMO_VERSION__" (λ v. v % 100);
  }

  -- SIMULATE_ID, whose second definition holds where both are made.
  unfoldable pub simulated : Option Bytes
  simulated =
      if def "__GNUC__"
      then some (txt "GNU")
      else if def "_MSC_VER"
      then some (txt "MSVC")
      else none

  -- The version of the simulated compiler. The same macros are defined twice where both are there.
  unfoldable pub simulating : Identity → Identity
  unfolding simulated
  simulating i = record i {
    simulate = simulated;
    simulate_major =
        if def "__GNUC__"
        then decimal "__GNUC__" plain
        else if def "__GNUG__"
        then decimal "__GNUG__" plain
        else when (def "_MSC_VER") (decimal "_MSC_VER" (λ v. v / 100));
    simulate_minor =
        if def "__GNUC_MINOR__"
        then decimal "__GNUC_MINOR__" plain
        else when (def "_MSC_VER") (decimal "_MSC_VER" (λ v. v % 100));
    simulate_patch = when (def "__GNUC_PATCHLEVEL__") (decimal "__GNUC_PATCHLEVEL__" plain);
  }

  abbrev is_old_intel : Bool
  is_old_intel =
      ltb (val "__INTEL_COMPILER") 2021
      || val "__INTEL_COMPILER" == 202110
      || val "__INTEL_COMPILER" == 202111

  unfoldable pub intel : Identity
  unfolding simulating
  intel =
      let i = record (simulating (named (txt "Intel"))) {
        tweak =
            when (def "__INTEL_COMPILER_BUILD_DATE") (decimal "__INTEL_COMPILER_BUILD_DATE" plain);
      } in
      if is_old_intel
      then record i {
        major = decimal "__INTEL_COMPILER" (λ v. v / 100);
        minor = decimal "__INTEL_COMPILER" (λ v. v / 10 % 10);
        patch =
            if def "__INTEL_COMPILER_UPDATE"
            then decimal "__INTEL_COMPILER_UPDATE" plain
            else decimal "__INTEL_COMPILER" (λ v. v % 10);
      }
      else record i {
        major = decimal "__INTEL_COMPILER" plain;
        minor = decimal "__INTEL_COMPILER_UPDATE" plain;
        patch = text (dec 0);
      }

  unfoldable pub intel_llvm : Identity
  unfolding simulating
  intel_llvm =
      let i = simulating (named (txt "IntelLLVM")) in
      if ltb (val "__INTEL_LLVM_COMPILER") 1000000
      then record i {
        major = decimal "__INTEL_LLVM_COMPILER" (λ v. v / 100);
        minor = decimal "__INTEL_LLVM_COMPILER" (λ v. v / 10 % 10);
        patch = decimal "__INTEL_LLVM_COMPILER" (λ v. v % 10);
      }
      else record i {
        major = decimal "__INTEL_LLVM_COMPILER" (λ v. v / 10000);
        minor = decimal "__INTEL_LLVM_COMPILER" (λ v. v / 100 % 100);
        patch = decimal "__INTEL_LLVM_COMPILER" (λ v. v % 100);
      }

  unfoldable pub path_scale : Identity
  path_scale = record (named (txt "PathScale")) {
    major = decimal "__PATHCC__" plain;
    minor = decimal "__PATHCC_MINOR__" plain;
    patch = when (def "__PATHCC_PATCHLEVEL__") (decimal "__PATHCC_PATCHLEVEL__" plain);
  }

  unfoldable pub embarcadero : Identity
  embarcadero = record (named (txt "Embarcadero")) {
    major = hexadecimal "__CODEGEARC_VERSION__" (λ v. v / 2 ^ 24 % 256);
    minor = hexadecimal "__CODEGEARC_VERSION__" (λ v. v / 2 ^ 16 % 256);
    patch = decimal "__CODEGEARC_VERSION__" (λ v. v % 65536);
  }

  unfoldable pub borland : Identity
  borland = record (named (txt "Borland")) {
    major = hexadecimal "__BORLANDC__" (λ v. v / 2 ^ 8);
    minor = hexadecimal "__BORLANDC__" (λ v. v % 256);
  }

  unfoldable pub watcom : Identity
  watcom = record (named (txt "Watcom")) {
    major = decimal "__WATCOMC__" (λ v. v / 100);
    minor = decimal "__WATCOMC__" (λ v. v / 10 % 10);
    patch = when (ltb 0 (val "__WATCOMC__" % 10)) (decimal "__WATCOMC__" (λ v. v % 10));
  }

  -- The version is at least 1200 here.
  unfoldable pub open_watcom : Identity
  open_watcom = record (named (txt "OpenWatcom")) {
    major = decimal "__WATCOMC__" (λ v. (v - 1100) / 100);
    minor = decimal "__WATCOMC__" (λ v. v / 10 % 10);
    patch = when (ltb 0 (val "__WATCOMC__" % 10)) (decimal "__WATCOMC__" (λ v. v % 10));
  }

  unfoldable pub sun_pro : Identity
  sun_pro =
      if ltb (val "__SUNPRO_CC") 0x5100
      then record (named (txt "SunPro")) {
        major = hexadecimal "__SUNPRO_CC" (λ v. v / 2 ^ 8);
        minor = hexadecimal "__SUNPRO_CC" (λ v. v / 2 ^ 4 % 16);
        patch = hexadecimal "__SUNPRO_CC" (λ v. v % 16);
      }
      else record (named (txt "SunPro")) {
        major = hexadecimal "__SUNPRO_CC" (λ v. v / 2 ^ 12);
        minor = hexadecimal "__SUNPRO_CC" (λ v. v / 2 ^ 4 % 256);
        patch = hexadecimal "__SUNPRO_CC" (λ v. v % 16);
      }

  unfoldable pub hp : Identity
  hp = record (named (txt "HP")) {
    major = decimal "__HP_aCC" (λ v. v / 10000);
    minor = decimal "__HP_aCC" (λ v. v / 100 % 100);
    patch = decimal "__HP_aCC" (λ v. v % 100);
  }

  unfoldable pub compaq : Identity
  compaq = record (named (txt "Compaq")) {
    major = decimal "__DECCXX_VER" (λ v. v / 10000000);
    minor = decimal "__DECCXX_VER" (λ v. v / 100000 % 100);
    patch = decimal "__DECCXX_VER" (λ v. v % 10000);
  }
