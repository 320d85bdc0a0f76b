-- ===== src/Tests/Command.antt =====
-- The arguments of main.cpp.
use Prim.Native.String.{String}
use text.Mathlib.Text.{◌==◌ as str_eq}
use extension_field_pcg.Common.{ℕ, ◌%◌, ◌^◌, [], ◌∷◌, if◌then◌else◌, ◌≡◌, ◌≢◌, refl, arith}
use extension_field_pcg.Command.{main, IsExact, All, vole_qasd, main-IsExact, main-wraps}

abbrev power : ℕ → ℕ → ℕ
power base k = base ^ k % 2 ^ 64

abbrev number_of : String → ℕ
number_of s = if str_eq s "5" then 5 else 21

main-IsExact_example :
    All (IsExact 5) (main number_of power (λ n. 8) ("./main" ∷ "--EA_PCS" ∷ "5" ∷ []))
main-IsExact_example =
    main-IsExact number_of power (λ n. 8) (λ base k. refl) "./main" "--EA_PCS" "5" [] (omega arith)

main-wraps_example :
    (n : ℕ) × (main number_of power (λ n. 8) ("./main" ∷ "--QA_VOLE" ∷ "21" ∷ [])
      ≡ vole_qasd n ∷ [])
    × (n ≢ 3 ^ 21)
main-wraps_example =
    main-wraps number_of power (λ n. 8) (λ base k. refl) "./main" "21" [] (omega arith)
      (omega arith)
