-- ===== src/Vole/Lpn.antt =====
-- `Vole_LPN` of test.h: one run of the library's own silent VOLE, with the code that is asked for, and the
-- check of its result, for a context whose coefficients form a ring of characteristic two.
use extension_field_pcg.Common.{ℕ, zero, suc, Bool, Option, none, some, if◌then◌else◌}
use extension_field_pcg.Algebra.{Ring2, ◌⊕◌, ◌⊗◌}
use extension_field_pcg.Vole.Defs.{SilentSecType, malicious, semi_honest}

-- The codes that main.cpp asks for.
pub data MultType : Type 0 where
  ex_acc21 : MultType
  ex_conv7x24 : MultType

-- What both parties are set to before the run.
pub record Settings : Type 0 where
  pub mult_type : MultType
  pub debug : Bool
  pub mal_type : SilentSecType

-- The vectors that the library's parties fill.
pub record Filled {ℓ} (A : Type ℓ) : Type ℓ where
  pub a : ℕ → A
  pub b : ℕ → A
  pub c : ℕ → A

module _ {ℓ} {A : Type ℓ} ⦃r : Ring2 A⦄ where
  -- The check from index i on: `exp = d * c[i] + b[i]` is to be `a[i]`, by the context's `eq`. A failure
  -- throws: the index of the first one.
  unfoldable pub first_failure : (A → A → Bool) → A → Filled A → ℕ → ℕ → Option ℕ
  first_failure eq d v zero i = none
  first_failure eq d v (suc left) i =
      let rest = first_failure eq d v left (suc i) in
      let exp = d ⊗ v.c i in let exp' = exp ⊕ v.b i in if eq (v.a i) exp' then rest else some i

  -- The whole function, for the library's silent VOLE of n entries.
  unfoldable pub vole_lpn :
      (Settings → ℕ → A → Filled A) → (A → A → Bool) → ℕ → MultType → Bool → Bool → A → Option ℕ
  vole_lpn silent_vole eq n type debug mal d =
      let set : Settings = record {
        mult_type = type;
        debug = debug;
        mal_type = if mal then malicious else semi_honest;
      } in
      first_failure eq d (silent_vole set n d) n 0
