-- ===== src/Probe/Clang.antt =====
-- The order of the conditions in CMakeCXXCompilerId.cpp where Clang defines GNU's macros too.
use deribit_trading_system.Base.{
  Bool, true, false, ◌≡◌, refl, List, [], ◌∷◌, ◌++◌, All, if◌then◌else◌, arith,
}
use deribit_trading_system.Text.{txt, beq}
use deribit_trading_system.Probe.{Macros, Identity, named, first}
use deribit_trading_system.Probe.Vendors.{
  def, simulating, comeau, intel, intel_llvm, path_scale, embarcadero, borland, watcom, open_watcom,
  sun_pro, hp, compaq,
}
use deribit_trading_system.Probe.Families.{
  xl_clang, nvhpc, pgi, cray, ti, fujitsu_clang, fujitsu, ghs, armcc, apple_clang, arm_clang, clang,
}
use deribit_trading_system.Probe.Identify.{before_clang, from_clang, identify}

IsOther : Identity → Type 0
IsOther i = beq i.id (txt "GNU") ≡ false

if-IsOther : (b : Bool) (i j : Identity) → IsOther i → IsOther j → IsOther (if b then i else j)
if-IsOther true i j p q = p
if-IsOther false i j p q = q

first-IsOther :
    (xs ys : List (Bool × Identity)) (other : Identity)
    → All (λ p. IsOther p.1) xs
    → IsOther (first ys other)
    → IsOther (first (xs ++ ys) other)
first-IsOther [] ys other all p = p
first-IsOther ((true, i) ∷ xs) ys other all p = all.0
first-IsOther ((false, i) ∷ xs) ys other all p = first-IsOther xs ys other all.1 p

module _ (d : Macros) where
  intel-IsOther : IsOther (intel d)
  unfolding intel IsOther simulating beq
  intel-IsOther = ground arith

  armcc-IsOther : IsOther (armcc d)
  unfolding armcc IsOther beq
  armcc-IsOther = ground arith

  intel_llvm-IsOther : IsOther (intel_llvm d)
  unfolding intel_llvm IsOther beq simulating
  intel_llvm-IsOther = ground arith

  sun_pro-IsOther : IsOther (sun_pro d)
  unfolding sun_pro IsOther beq
  sun_pro-IsOther = ground arith

  fujitsu-IsOther : IsOther (fujitsu d)
  unfolding fujitsu IsOther beq
  fujitsu-IsOther = ground arith

  before_clang-IsOther : All (λ p. IsOther p.1) (before_clang d)
  unfolding before_clang IsOther comeau intel_llvm path_scale embarcadero borland watcom open_watcom
      sun_pro hp compaq xl_clang nvhpc pgi cray ti fujitsu_clang fujitsu ghs apple_clang arm_clang
      beq
  before_clang-IsOther = (
    refl,
    (
      intel-IsOther,
      (
        intel_llvm-IsOther,
        (
          refl,
          (
            refl,
            (
              refl,
              (
                refl,
                (
                  refl,
                  (
                    sun_pro-IsOther,
                    (
                      refl,
                      (
                        refl,
                        (
                          refl,
                          (
                            refl,
                            (
                              refl,
                              (
                                refl,
                                (
                                  refl,
                                  (
                                    refl,
                                    (
                                      refl,
                                      (
                                        refl,
                                        (
                                          refl,
                                          (
                                            fujitsu-IsOther,
                                            (refl, (refl, (armcc-IsOther, (refl, (refl, _))))),
                                          ),
                                        ),
                                      ),
                                    ),
                                  ),
                                ),
                              ),
                            ),
                          ),
                        ),
                      ),
                    ),
                  ),
                ),
              ),
            ),
          ),
        ),
      ),
    ),
  )

  -- Where `__clang__` is defined, the compiler is never reported to be GNU, whatever else is defined:
  -- the versions of GNU that Clang defines as well are not taken for the compiler's.
  pub identify-not_gnu : def d "__clang__" ≡ true → beq (identify d).id (txt "GNU") ≡ false
  unfolding identify from_clang clang IsOther beq
  identify-not_gnu h =
      first-IsOther (before_clang d) (from_clang d) (named []) before_clang-IsOther (rw h refl)
