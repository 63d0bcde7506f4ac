-- ===== src/Probe/Platform.antt =====
-- PLATFORM_ID and ARCHITECTURE_ID of CMakeCXXCompilerId.cpp. What `STRINGIFY` makes of a macro is a
-- parameter.
use deribit_trading_system.Base.{◌&&◌, ◌||◌, ◌==◌, [], ◌∷◌, ◌++◌}
use deribit_trading_system.Text.{Bytes, txt}
use deribit_trading_system.Probe.{Macros, first}
use deribit_trading_system.Probe.Vendors.{def, val}

module _ (d : Macros) where
  unfoldable pub watcom_platform : Bytes
  watcom_platform =
      first
        ((def d "__LINUX__", txt "Linux")
          ∷ (def d "__DOS__", txt "DOS")
          ∷ (def d "__OS2__", txt "OS2")
          ∷ (def d "__WINDOWS__", txt "Windows3x")
          ∷ (def d "__VXWORKS__", txt "VxWorks")
          ∷ [])
        []

  unfoldable pub integrity_platform : Bytes
  integrity_platform = first ((def d "INT_178B", txt "Integrity178") ∷ []) (txt "Integrity")

  unfoldable pub platform_id : Bytes
  unfolding watcom_platform integrity_platform
  platform_id =
      first
        ((def d "__linux" || def d "__linux__" || def d "linux", txt "Linux")
          ∷ (def d "__MSYS__", txt "MSYS")
          ∷ (def d "__CYGWIN__", txt "Cygwin")
          ∷ (def d "__MINGW32__", txt "MinGW")
          ∷ (def d "__APPLE__", txt "Darwin")
          ∷ (def d "_WIN32" || def d "__WIN32__" || def d "WIN32", txt "Windows")
          ∷ (def d "__FreeBSD__" || def d "__FreeBSD", txt "FreeBSD")
          ∷ (def d "__NetBSD__" || def d "__NetBSD", txt "NetBSD")
          ∷ (def d "__OpenBSD__" || def d "__OPENBSD", txt "OpenBSD")
          ∷ (def d "__sun" || def d "sun", txt "SunOS")
          ∷ (
            def d "_AIX" || def d "__AIX" || def d "__AIX__" || def d "__aix" || def d "__aix__",
            txt "AIX",
          )
          ∷ (def d "__hpux" || def d "__hpux__", txt "HP-UX")
          ∷ (def d "__HAIKU__", txt "Haiku")
          ∷ (def d "__BeOS" || def d "__BEOS__" || def d "_BEOS", txt "BeOS")
          ∷ (def d "__QNX__" || def d "__QNXNTO__", txt "QNX")
          ∷ (def d "__tru64" || def d "_tru64" || def d "__TRU64__", txt "Tru64")
          ∷ (def d "__riscos" || def d "__riscos__", txt "RISCos")
          ∷ (def d "__sinix" || def d "__sinix__" || def d "__SINIX__", txt "SINIX")
          ∷ (def d "__UNIX_SV__", txt "UNIX_SV")
          ∷ (def d "__bsdos__", txt "BSDOS")
          ∷ (def d "_MPRAS" || def d "MPRAS", txt "MP-RAS")
          ∷ (def d "__osf" || def d "__osf__", txt "OSF1")
          ∷ (def d "_SCO_SV" || def d "SCO_SV" || def d "sco_sv", txt "SCO_SV")
          ∷ (def d "__ultrix" || def d "__ultrix__" || def d "_ULTRIX", txt "ULTRIX")
          ∷ (def d "__XENIX__" || def d "_XENIX" || def d "XENIX", txt "Xenix")
          ∷ (def d "__WATCOMC__", watcom_platform)
          ∷ (def d "__INTEGRITY", integrity_platform)
          ∷ [])
        []

  unfoldable pub watcom_architecture : Bytes
  watcom_architecture = first ((def d "_M_I86", txt "I86") ∷ (def d "_M_IX86", txt "X86") ∷ []) []

  unfoldable pub iar_architecture : Bytes
  iar_architecture =
      first
        ((def d "__ICCARM__", txt "ARM")
          ∷ (def d "__ICCRX__", txt "RX")
          ∷ (def d "__ICCRH850__", txt "RH850")
          ∷ (def d "__ICCRL78__", txt "RL78")
          ∷ (def d "__ICCRISCV__", txt "RISCV")
          ∷ (def d "__ICCAVR__", txt "AVR")
          ∷ (def d "__ICC430__", txt "MSP430")
          ∷ (def d "__ICCV850__", txt "V850")
          ∷ (def d "__ICC8051__", txt "8051")
          ∷ (def d "__ICCSTM8__", txt "STM8")
          ∷ [])
        []

  unfoldable pub ghs_architecture : Bytes
  ghs_architecture =
      first
        ((def d "__PPC64__", txt "PPC64")
          ∷ (def d "__ppc__", txt "PPC")
          ∷ (def d "__ARM__", txt "ARM")
          ∷ (def d "__x86_64__", txt "x64")
          ∷ (def d "__i386__", txt "X86")
          ∷ [])
        []

  unfoldable pub ti_architecture : Bytes
  ti_architecture =
      first
        ((def d "__TI_ARM__", txt "ARM")
          ∷ (def d "__MSP430__", txt "MSP430")
          ∷ (def d "__TMS320C28XX__", txt "TMS320C28x")
          ∷ (def d "__TMS320C6X__" || def d "_TMS320C6X", txt "TMS320C6x")
          ∷ [])
        []

  module _ (stringify : Bytes → Bytes) where
    unfoldable pub arm_architecture : Bytes
    arm_architecture =
        first ((val d "_M_ARM" == 4, txt "ARMV4I") ∷ (val d "_M_ARM" == 5, txt "ARMV5I") ∷ [])
          (txt "ARMV" ++ stringify (txt "_M_ARM"))

    unfoldable pub msvc_architecture : Bytes
    unfolding arm_architecture
    msvc_architecture =
        first
          ((def d "_M_IA64", txt "IA64")
            ∷ (def d "_M_ARM64EC", txt "ARM64EC")
            ∷ (def d "_M_X64" || def d "_M_AMD64", txt "x64")
            ∷ (def d "_M_IX86", txt "X86")
            ∷ (def d "_M_ARM64", txt "ARM64")
            ∷ (def d "_M_ARM", arm_architecture)
            ∷ (def d "_M_MIPS", txt "MIPS")
            ∷ (def d "_M_SH", txt "SHx")
            ∷ [])
          []

    unfoldable pub architecture_id : Bytes
    unfolding msvc_architecture watcom_architecture iar_architecture ghs_architecture
        ti_architecture
    architecture_id =
        first
          ((def d "_WIN32" && def d "_MSC_VER", msvc_architecture)
            ∷ (def d "__WATCOMC__", watcom_architecture)
            ∷ (def d "__IAR_SYSTEMS_ICC__" || def d "__IAR_SYSTEMS_ICC", iar_architecture)
            ∷ (def d "__ghs__", ghs_architecture)
            ∷ (def d "__TI_COMPILER_VERSION__", ti_architecture)
            ∷ [])
          []
