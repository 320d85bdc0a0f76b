-- ===== src/Command.antt =====
-- `main` of main.cpp: which benchmarks the arguments ask for, as a list of calls. `atoi`, `ipow` and
-- `log2ceil` are the libraries'. An `int` is its 32-bit pattern, and a `u64` its number.
use Prim.Native.String.{String}
use text.Mathlib.Text.{◌==◌ as str_eq}
use native.Mathlib.Nat.{pow-le-pow_right, mod-eq_of_lt}
use extension_field_pcg.Common.{
  ℕ, ◌+◌, ◌-◌, ◌*◌, ◌/◌, ◌%◌, ◌^◌, ◌≤◌, ◌<◌, ltb, Bool, true, false, List, [], ◌∷◌, if◌then◌else◌,
  ◌≡◌, ◌≢◌, refl, sym, ap, ◌∙◌, arith, lt→ltb, ltb→lt, Bool-cases, inl, inr,
}
use extension_field_pcg.IntLoop.{pow-small}
use extension_field_pcg.Vole.Lpn.{MultType, ex_acc21, ex_conv7x24}

pub data Call : Type 0 where
  qa_encode_test : ℕ → ℕ → Call
  ea_encode_test : ℕ → ℕ → ℕ → Call
  ec_encode_test : ℕ → ℕ → ℕ → ℕ → Bool → Call
  vole_qasd : ℕ → Call
  vole_lpn : ℕ → MultType → Bool → Bool → Bool → Call
  extension_field_ole : ℕ → ℕ → ℕ → Call
  qa_encode_test_pcs : ℕ → ℕ → ℕ → Call
  ea_encode_test_pcs : ℕ → ℕ → ℕ → Call
  raa_encode_test_pcs : ℕ → ℕ → Call
  print_usage : Call

-- An `int` that is given where a `u64` is wanted: the sign is extended.
unfoldable pub as_u64 : ℕ → ℕ
as_u64 n = if ltb n (2 ^ 31) then n else n + 2 ^ 64 - 2 ^ 32

-- What an `int` keeps of a `u64`.
unfoldable pub as_int : ℕ → ℕ
as_int n = n % 2 ^ 32

module _ (atoi : String → ℕ) (ipow : ℕ → ℕ → ℕ) (log2ceil : ℕ → ℕ) where
  -- The choice by the option.
  unfoldable pub dispatch : String → ℕ → ℕ → List Call
  unfolding as_u64
  dispatch option num_var n =
      if str_eq option "--QA_Syndrome"
      then qa_encode_test num_var n ∷ []
      else if str_eq option "--EA_Syndrome"
      then ea_encode_test (as_u64 n) 5 21 ∷ []
      else if str_eq option "--EC_Syndrome"
      then ec_encode_test (as_u64 n) 2 7 24 true ∷ []
      else if str_eq option "--QA_VOLE"
      then vole_qasd (as_u64 n) ∷ []
      else if str_eq option "--EC_VOLE"
      then vole_lpn (as_u64 n) ex_conv7x24 false false false ∷ []
      else if str_eq option "--EA_VOLE"
      then vole_lpn (as_u64 n) ex_acc21 false false false ∷ []
      else if str_eq option "--OLE"
      then extension_field_ole (as_u64 num_var) 4 2 ∷ extension_field_ole (as_u64 num_var) 3 3 ∷ []
      else if str_eq option "--QA_PCS"
      then qa_encode_test_pcs num_var n 2
        ∷ qa_encode_test_pcs num_var n 3
        ∷ qa_encode_test_pcs num_var n 4
        ∷ qa_encode_test_pcs num_var n 5
        ∷ []
      else if str_eq option "--EA_PCS"
      then ea_encode_test_pcs (as_u64 n) (log2ceil (as_u64 n) * 18 / 2) 2 ∷ []
      else if str_eq option "--RAA_PCS"
      then raa_encode_test_pcs n 2 ∷ raa_encode_test_pcs n 4 ∷ raa_encode_test_pcs n 8 ∷ []
      else print_usage ∷ []

  unfoldable pub main : List String → List Call
  unfolding dispatch as_u64 as_int
  main [] = print_usage ∷ []
  main (program ∷ []) = print_usage ∷ []
  main (program ∷ option ∷ []) = print_usage ∷ []
  main (program ∷ option ∷ number ∷ more) =
      let num_var = atoi number in
      let n = as_int (ipow 3 (as_u64 num_var)) in dispatch option num_var n

-- A call for num_var = k whose length is 3^k.
abbrev pub IsExact : ℕ → Call → Type 0
IsExact k (qa_encode_test v n) = (v ≡ k) × (n ≡ 3 ^ k)
IsExact k (ea_encode_test n rate bw) = n ≡ 3 ^ k
IsExact k (ec_encode_test n rate bw aw sys) = n ≡ 3 ^ k
IsExact k (vole_qasd n) = n ≡ 3 ^ k
IsExact k (vole_lpn n type debug fake mal) = n ≡ 3 ^ k
IsExact k (extension_field_ole depth block_length c) = depth ≡ k
IsExact k (qa_encode_test_pcs v n rate) = (v ≡ k) × (n ≡ 3 ^ k)
IsExact k (ea_encode_test_pcs n columns rate) = n ≡ 3 ^ k
IsExact k (raa_encode_test_pcs n rate) = n ≡ 3 ^ k
IsExact k print_usage = Unit

abbrev pub All : (Call → Type 0) → List Call → Type 0
All P [] = Unit
All P (c ∷ cs) = P c × All P cs

if_All :
    (P : Call → Type 0) (b : Bool) (x y : List Call)
    → All P x
    → All P y
    → All P (if b then x else y)
if_All P true x y h k = h
if_All P false x y h k = k

as_u64_small : (n : ℕ) → n < 2 ^ 31 → as_u64 n ≡ n
unfolding as_u64
as_u64_small n h = ap (λ b. if b then n else n + 2 ^ 64 - 2 ^ 32) (lt→ltb n (2 ^ 31) h)

-- `ipow` of the library: powers modulo 2^64.
abbrev pub IsPower : (ℕ → ℕ → ℕ) → Type 0
IsPower ipow = (base k : ℕ) → ipow base k ≡ base ^ k % 2 ^ 64

-- What `n` is given the benchmark, as an `int` and as a `u64`.
length_exact :
    (ipow : ℕ → ℕ → ℕ) (k : ℕ)
    → IsPower ipow
    → k ≤ 19
    → (as_int (ipow 3 (as_u64 k)) ≡ 3 ^ k) × (as_u64 (as_int (ipow 3 (as_u64 k))) ≡ 3 ^ k)
unfolding as_int
length_exact ipow k power h =
    let small = pow-small k h in
    let exact : as_int (ipow 3 (as_u64 k)) ≡ 3 ^ k =
      ap (λ z. ipow 3 z % 2 ^ 32) (as_u64_small k (omega arith))
      ∙ ap (λ z. z % 2 ^ 32) (power 3 k ∙ mod-eq_of_lt (omega arith))
      ∙ mod-eq_of_lt (omega arith) in
    (exact, ap as_u64 exact ∙ as_u64_small (3 ^ k) small)

wrapped : (n : ℕ) → 3 ^ 20 ≤ n → n ≤ 3 ^ 40 → as_u64 (as_int n) ≢ n
unfolding as_u64 as_int
wrapped n low high e = elim (Bool-cases (ltb (n % 2 ^ 32) (2 ^ 31))) [
  | inl small ↦ absurd (omega (arith, ltb→lt (n % 2 ^ 32) (2 ^ 31) small, sym (pick small) ∙ e))
  | inr large ↦ absurd (omega (arith, sym (pick large) ∙ e))
]
  where
    pick :
        {b : Bool}
        → ltb (n % 2 ^ 32) (2 ^ 31) ≡ b
        → (if ltb (n % 2 ^ 32) (2 ^ 31) then n % 2 ^ 32 else n % 2 ^ 32 + 2 ^ 64 - 2 ^ 32)
          ≡ (if b then n % 2 ^ 32 else n % 2 ^ 32 + 2 ^ 64 - 2 ^ 32)
    pick h = ap (λ c. if c then n % 2 ^ 32 else n % 2 ^ 32 + 2 ^ 64 - 2 ^ 32) h

module _ (atoi : String → ℕ) (ipow : ℕ → ℕ → ℕ) (log2ceil : ℕ → ℕ) (power : IsPower ipow) where
  -- Whatever the option is, for a number k of at most 19 each call that `main` makes has the exact length 3^k,
  -- or the depth k: neither the power nor the `int` wraps around.
  pub main-IsExact :
      (program option number : String) (more : List String)
      → atoi number ≤ 19
      → All (IsExact (atoi number)) (main atoi ipow log2ceil (program ∷ option ∷ number ∷ more))
  unfolding main dispatch
  main-IsExact program option number more h =
      let (i, u) = length_exact ipow (atoi number) power h in
      let d = as_u64_small (atoi number) (omega arith) in
      let P = IsExact (atoi number) in
      if_All P (str_eq option "--QA_Syndrome") _ _ ((refl, i), tt)
        (if_All P (str_eq option "--EA_Syndrome") _ _ (u, tt)
          (if_All P (str_eq option "--EC_Syndrome") _ _ (u, tt)
            (if_All P (str_eq option "--QA_VOLE") _ _ (u, tt)
              (if_All P (str_eq option "--EC_VOLE") _ _ (u, tt)
                (if_All P (str_eq option "--EA_VOLE") _ _ (u, tt)
                  (if_All P (str_eq option "--OLE") _ _ (d, (d, tt))
                    (if_All P (str_eq option "--QA_PCS") _ _
                      ((refl, i), ((refl, i), ((refl, i), ((refl, i), tt))))
                      (if_All P (str_eq option "--EA_PCS") _ _ (u, tt)
                        (if_All P (str_eq option "--RAA_PCS") _ _ (i, (i, (i, tt)))
                          (tt, tt))))))))))

  -- For a number k from 20 to 40, whose power of three a `u64` still holds, `main` with the option --QA_VOLE
  -- makes one call: that of `VOLE_QASD`, for a length that is not 3^k.
  pub main-wraps :
      (program number : String) (more : List String)
      → 20 ≤ atoi number
      → atoi number ≤ 40
      → (n : ℕ) × (main atoi ipow log2ceil (program ∷ "--QA_VOLE" ∷ number ∷ more)
          ≡ vole_qasd n ∷ [])
        × (n ≢ 3 ^ atoi number)
  unfolding main dispatch
  main-wraps program number more low high =
      let k = atoi number in
      let bound = pow-le-pow_right {n = 3} (omega arith) {i = k} {j = 40} high in
      (
        as_u64 (as_int (ipow 3 (as_u64 k))),
        refl,
        λ e. wrapped (3 ^ k) (pow-le-pow_right {n = 3} (omega arith) {i = 20} {j = k} low) bound (
            ap (λ z. as_u64 (as_int z))
              (sym (
                ap (ipow 3) (as_u64_small k (omega arith))
                ∙ power 3 k
                ∙ mod-eq_of_lt (omega arith)))
            ∙ e),
      )
