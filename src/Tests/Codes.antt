-- ===== src/Tests/Codes.antt =====
-- Small codes, over single bits, for the theorems on the encoding tests, and the check against a malicious
-- party on blocks.
use extension_field_pcg.Common.{
  ℕ, zero, suc, ◌+◌, ◌*◌, ◌%◌, ◌<◌, ◌≤◌, ◌==◌, Bool, true, false, not, xor, if◌then◌else◌, ◌≡◌,
  refl, [], ◌∷◌, arith,
}
use extension_field_pcg.Algebra.{◌⊕◌, ◌⊗◌, add-nil}
use extension_field_pcg.Algebra.Sum.{sum}
use extension_field_pcg.Algebra.Solver.{var, ◌:+◌, solve, norm}
use extension_field_pcg.Loop.{scatter}
use extension_field_pcg.Word.{f2, xor_self}
use extension_field_pcg.F4.Ring.{Block, f4_ring}
use extension_field_pcg.Fft.Root.{root}
use extension_field_pcg.Encode.Drawing.{nth}
use extension_field_pcg.Encode.Slots.{slot}
use extension_field_pcg.Encode.Stepping.{stepped}
use extension_field_pcg.Encode.Coefficients.{Buffer, accumulated}
use extension_field_pcg.Encode.EaSyndrome.{EaCode, ea_encode_test, ea_encode_test_lem}
use extension_field_pcg.Encode.EcSyndrome.{ExConvCode, reg_count, step, ec_encode_test}
use extension_field_pcg.Encode.EcExpansion.{expanded}
use extension_field_pcg.Encode.EcCorrect.{IsDescribed, ec_encode_test-true}
use extension_field_pcg.Vole.Malicious.{
  Gf128, IsGf128, same_hash, ferret_mal_check, mal_base_c, same_hash-ferret_mal_check,
}

-- A generator that counts, below eight.
abbrev count_up : ℕ → ℕ × ℕ
count_up g = (g % 4, suc g)

abbrev ea_code : ℕ → ℕ → ℕ → EaCode Bool ℕ
ea_code k n bw = record {
  accumulate = λ x. x;
  dual_encode = λ x. x;
  expander_weight = bw;
  expander = 3;
  get = count_up;
}

abbrev some_bits : ℕ → Bool
some_bits i = i % 3 == 1

ea_encode_test_lem_example :
    ((t : ℕ)
      → t < 11
      → (ea_encode_test ea_code some_bits 11 2 5).0 t
        ≡ sum 5 (λ j. some_bits (nth count_up 3 (slot 11 5 t j))))
    × ((t : ℕ) → 11 ≤ t → (ea_encode_test ea_code some_bits 11 2 5).0 t ≡ false)
ea_encode_test_lem_example = ea_encode_test_lem ea_code some_bits 11 2 5

abbrev buffer : Buffer ℕ
buffer = record { bytes = 4; read = λ g p n. g + p; refill = λ g. g + 1 }

-- The accumulation with two bits in a round.
abbrev accumulator : ExConvCode Bool ℕ ℕ
accumulator = record {
  acc_one_gen = λ n i bits x. stepped not n 2 i bits x;
  acc_one = λ n i bits x. x;
  acc_twice = true;
  accumulate_fixed = λ u second size x. accumulated not buffer size 2 (if second then 1 else 0) x;
  coeff_gen = λ second. if second then 1 else 0;
  buffer = buffer;
  expand = λ adds src dst. dst;
  is_regular = true;
  expander_weight = 3;
  code_size = 4;
  regular_gen = λ n. 0;
  full_gen = λ n. 1;
  get = count_up;
}

abbrev ec_code : ℕ → ℕ → ℕ → ℕ → Bool → ExConvCode Bool ℕ ℕ
ec_code k n bw aw sys = record accumulator {
  expand = λ adds src dst t. (if adds then dst t else false) ⊕ expanded accumulator n k src t;
}

ec_code-IsDescribed : IsDescribed not (ec_code 4 8 3 2 true) 8 4 2
unfolding reg_count step
ec_code-IsDescribed = record {
  rounds = λ i bits x l. refl;
  unrolled_rounds = λ i bits x l e. absurd (omega (arith, e));
  passes = λ second size x. refl;
  unrolled_passes = λ second size x e. absurd (omega (arith, e));
  expansion = λ adds src dst t l. refl;
}

ec_encode_test-true_example : ec_encode_test not xor ec_code some_bits (λ i. i) 4 2 3 2 true ≡ true
ec_encode_test-true_example =
    ec_encode_test-true not xor xor_self ec_code some_bits (λ i. i) 4 2 3 2 true (omega arith)
      (omega arith) ec_code-IsDescribed

-- Powers and products of blocks; the wide product has no high half.
abbrev power : Block → ℕ → Block
power x zero = f4_ring.one
power x (suc n) = power x n ⊗ x

abbrev gf : Gf128 Block
gf = record {
  pow = power;
  wide_mul = λ x y. (x ⊗ y, f4_ring.nil);
  reduce = λ low high. low ⊕ high;
  hash = λ x i. if x.0 i then 1 else 0;
}

gf-IsGf128 : IsGf128 gf
unfolding norm
gf-IsGf128 = record {
  pow_one = λ x. f4_ring.one-mul x;
  pow_suc = λ x n. refl;
  reduce-nil = f4_ring.nil-add f4_ring.nil;
  reduce-add = λ a b c d.
      solve (a ∷ b ∷ c ∷ d ∷ []) (var 0 :+ var 1 :+ (var 2 :+ var 3))
        (var 0 :+ var 2 :+ (var 1 :+ var 3)) refl;
  reduce-wide = λ x y. add-nil (x ⊗ y);
}

abbrev noise : ℕ → Block
noise t = if t == 0 then root else f4_ring.one

abbrev share : ℕ → Block
share i = if i % 2 == 0 then root else f4_ring.nil

same_hash-ferret_mal_check_example :
    same_hash (ferret_mal_check gf root share 6 (f4_ring.nil ⊕ root)) (
      ferret_mal_check gf root
        (λ i. share i ⊕ root ⊗ scatter (λ t. 2 * t + 1) noise 2 (λ j. f4_ring.nil) i)
        6
        (root ⊕ root ⊗ mal_base_c gf root (λ t. 2 * t + 1) noise 2))
    ≡ true
same_hash-ferret_mal_check_example =
    same_hash-ferret_mal_check gf gf-IsGf128 root root 6 2 (λ t. 2 * t + 1) noise _ share _ root
      (λ t l. omega arith) (λ t u l m e. omega (arith, e)) (λ i l. refl) refl
