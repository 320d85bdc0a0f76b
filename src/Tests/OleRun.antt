-- ===== src/Tests/OleRun.antt =====
-- A run of `Extension_Field_OLE` with an addition of ternary digits and distributed point functions that
-- meet the library's description.
use native.Mathlib.Nat.{pow-suc, mul_assoc, div-lt_iff_lt-mul}
use extension_field_pcg.Common.{
  ℕ, zero, suc, ◌+◌, ◌-◌, ◌*◌, ◌/◌, ◌%◌, ◌^◌, ◌<◌, ◌≤◌, ◌==◌, ◌≡◌, refl, sym, ap, ap₂, ◌∙◌, arith,
  Bool, true, false, not, xor, none, if◌then◌else◌, ◌≢◌,
}
use extension_field_pcg.Algebra.{◌⊕◌, ◌⊗◌, add-nil, nil-mul}
use extension_field_pcg.Word.{block, of_ℕ}
use extension_field_pcg.Tests.Vole.{same_block, same_block_refl}
use extension_field_pcg.F4.Ring.{Block, f4_ring}
use extension_field_pcg.Fft.Root.{root}
use extension_field_pcg.Fft.Ternary.{IsTernary}
use extension_field_pcg.Fft.Spike.{spike}
use extension_field_pcg.Fft.Sparse.{sparse_product}
use extension_field_pcg.Ole.Dpf.{Randomness, TernaryDpf, dpf}
use extension_field_pcg.Ole.Products.{IsDpf, Fits}
use extension_field_pcg.Ole.Total.{dpf-sparse_product}
use extension_field_pcg.Ole.Sampling.{
  Prng, sample_terms, blank_term, IsSparse, sample_terms-IsSparse,
}
use extension_field_pcg.Ole.Run.{Entry, first_mismatch, ole_outputs, extension_field_ole}
use extension_field_pcg.Ole.TwoTerms.{extension_field_ole_two}
use extension_field_pcg.Ole.TwoTermsCorrect.{extension_field_ole_two-none}
use extension_field_pcg.Ole.Correct.{ole_outputs_lem, extension_field_ole-none}
use extension_field_pcg.Tests.Fft.{forward_fft, forward_fft-IsForwardFft}

-- The sums of the lowest digits.
abbrev digit_add : ℕ → ℕ → ℕ → ℕ
digit_add zero x y = 0
digit_add (suc n) x y = digit_add n (x / 3) (y / 3) * 3 + (x % 3 + y % 3) % 3

digit_add_zero : (n : ℕ) → digit_add n 0 0 ≡ 0
digit_add_zero zero = refl
digit_add_zero (suc n) = omega (arith, digit_add_zero n)

third-lt : (k a : ℕ) → a < 3 ^ suc k → a / 3 < 3 ^ k
third-lt k a h =
    (div-lt_iff_lt-mul {k = 3} {x = a} {y = 3 ^ k} (omega arith)).1 (omega (arith, pow-suc 3 k))

upper : (x k a : ℕ) → (x * 3 ^ suc k + a) / 3 ≡ x * 3 ^ k + a / 3
upper x k a = omega (arith, mul_assoc x (3 ^ k) 3, ap (λ t. x * t) (pow-suc 3 k))

lower : (x k a : ℕ) → (x * 3 ^ suc k + a) % 3 ≡ a % 3
lower x k a = omega (arith, mul_assoc x (3 ^ k) 3, ap (λ t. x * t) (pow-suc 3 k))

none_lower : (x a : ℕ) → a < 1 → x * 3 ^ 0 + a ≡ x
none_lower x a h = omega arith

digit_add_split :
    (k n x y a b : ℕ)
    → a < 3 ^ k
    → b < 3 ^ k
    → digit_add (k + n) (x * 3 ^ k + a) (y * 3 ^ k + b) ≡ digit_add n x y * 3 ^ k + digit_add k a b
digit_add_split zero n x y a b h l =
    ap (λ t. digit_add t (x * 3 ^ 0 + a) (y * 3 ^ 0 + b)) {x = 0 + n} {y = n} (omega arith)
    ∙ ap₂ (digit_add n) (none_lower x a h) (none_lower y b l)
    ∙ (omega arith)
digit_add_split (suc k) n x y a b h l =
    ap (λ i. digit_add i (x * 3 ^ suc k + a) (y * 3 ^ suc k + b)) {x = suc k + n} {y = suc (k + n)}
      (omega arith)
    ∙ ap₂ (λ s t. s * 3 + t)
        (ap₂ (digit_add (k + n)) (upper x k a) (upper y k b)
          ∙ digit_add_split k n x y (a / 3) (b / 3) (third-lt k a h) (third-lt k b l))
        (ap₂ (λ s t. (s + t) % 3) (lower x k a) (lower y k b))
    ∙ omega
        (arith, mul_assoc (digit_add n x y) (3 ^ k) 3, ap (λ t. digit_add n x y * t) (pow-suc 3 k))

digit_add_more : (m e x y : ℕ) → x < 3 ^ m → y < 3 ^ m → digit_add (m + e) x y ≡ digit_add m x y
digit_add_more m e x y h l =
    ap₂ (digit_add (m + e)) {x = x} {y = 0 * 3 ^ m + x} (omega arith) (omega arith)
    ∙ digit_add_split m e 0 0 x y h l
    ∙ omega (arith, ap (λ t. t * 3 ^ m) (digit_add_zero e))

abbrev ternary_add : ℕ → ℕ → ℕ
ternary_add x y = digit_add 32 x y

ternary_add_small : (x y : ℕ) → x < 3 → y < 3 → ternary_add x y ≡ (x + y) % 3
ternary_add_small x y h l = digit_add_more 1 31 x y h l ∙ omega arith

ternary_add_split :
    (k m x y a b : ℕ)
    → k + m ≤ 32
    → x < 3 ^ m
    → y < 3 ^ m
    → a < 3 ^ k
    → b < 3 ^ k
    → ternary_add (x * 3 ^ k + a) (y * 3 ^ k + b) ≡ ternary_add x y * 3 ^ k + ternary_add a b
ternary_add_split k m x y a b c h l p q =
    ap (λ n. digit_add n (x * 3 ^ k + a) (y * 3 ^ k + b)) {x = 32} {y = k + (32 - k)} (omega arith)
    ∙ digit_add_split k (32 - k) x y a b p q
    ∙ ap₂ (λ s t. s * 3 ^ k + t)
        (at_width m (32 - k - m) (32 - k) x y (omega arith) h l
          ∙ sym (at_width m (32 - m) 32 x y (omega arith) h l))
        (sym (at_width k (32 - k) 32 a b (omega arith) p q))
  where
    at_width :
        (m e n x y : ℕ) → n ≡ m + e → x < 3 ^ m → y < 3 ^ m → digit_add n x y ≡ digit_add m x y
    at_width m e n x y g h l = ap (λ t. digit_add t x y) g ∙ digit_add_more m e x y h l

ternary_add-IsTernary : IsTernary ternary_add
ternary_add-IsTernary = record { digit = ternary_add_small; split = ternary_add_split }

-- Distributed point functions, with the first party's output alone.
abbrev library_dpf : TernaryDpf
library_dpf = record {
  base_ot_count = λ domain num. num * 4;
  expand = λ ots drawn points0 points1 values0 values1 domain num. (
    λ k i. spike (ternary_add (points0 k) (points1 k)) (values0 k ⊕ values1 k) i,
    λ k i. f4_ring.nil,
  );
}

library_dpf-IsDpf : IsDpf ternary_add library_dpf
library_dpf-IsDpf = record {
  shares = λ d num ots drawn points0 points1 values0 values1 dealt within k i h l.
      add-nil (spike (ternary_add (points0 k) (points1 k)) (values0 k ⊕ values1 k) i);
}

abbrev blocks : ℕ → Block
blocks i = if i == 4 then root ⊗ root else root

abbrev generator : Prng
generator = record { word = λ i. i * 7; block = blocks }

abbrev randomness : ℕ → Randomness
randomness i = record {
  share = blocks;
  messages = λ k. (blocks k, f4_ring.one);
  choices0 = λ k. k == 1;
  choices1 = λ k. k == 2;
  protocol = blocks;
}

abbrev tells_apart : Block → Block → Bool
tells_apart x y = not (same_block x y)

tells_apart-false : (x : Block) → tells_apart x x ≡ false
tells_apart-false x = ap not (same_block_refl x)

-- Outputs that are no shares: the sum is not the product.
abbrev wrong : Block → ℕ → Entry
wrong x i = record { additive = x; ole = f4_ring.nil }

nil_differs : tells_apart f4_ring.nil root ≡ true
unfolding root xor block of_ℕ
nil_differs = refl

wrong_differs : tells_apart (f4_ring.nil ⊗ f4_ring.nil) (root ⊕ f4_ring.nil) ≡ true
wrong_differs = ap₂ tells_apart (nil-mul f4_ring.nil) (add-nil root) ∙ nil_differs

one_and_one : Fits 1 1
one_and_one = record { digits = omega arith; points = omega arith; domain = omega arith }

abbrev two_points : ℕ → ℕ
two_points i = i + 1

two_points-lt : (i : ℕ) → i < 3 ^ 1 → two_points i < 3 ^ 2
two_points-lt i h = omega arith

dpf-sparse_product_example :
    (dpf ternary_add library_dpf
          (randomness 0)
          blocks
          blocks
          two_points
          two_points
          3
          9
          blocks
          blocks).0
        12
      ⊕ (dpf ternary_add library_dpf
            (randomness 0)
            blocks
            blocks
            two_points
            two_points
            3
            9
            blocks
            blocks).1
          12
    ≡ (blocks 12 ⊕ blocks 12)
      ⊕ sparse_product ternary_add 3
          (λ i. two_points i + i * 9)
          blocks
          (λ j. two_points j + j * 9)
          blocks
          12
dpf-sparse_product_example =
    dpf-sparse_product ternary_add ternary_add-IsTernary library_dpf library_dpf-IsDpf 1 2
      (record { digits = omega arith; points = omega arith; domain = omega arith }) (randomness 0)
      blocks blocks two_points two_points two_points-lt two_points-lt blocks blocks 12

sample_terms-IsSparse_example :
    IsSparse 9 3 (
      (sample_terms generator 3 9 2
          (record { drawn = 5; terms0 = λ i. blank_term; terms1 = λ i. blank_term })).terms0
        1)
    × IsSparse 9 3 (
        (sample_terms generator 3 9 2
            (record { drawn = 5; terms0 = λ i. blank_term; terms1 = λ i. blank_term })).terms1
          1)
sample_terms-IsSparse_example =
    sample_terms-IsSparse generator 3 9 (omega arith) 2 5 1 (omega arith)

ole_outputs_lem_example :
    let out =
      ole_outputs forward_fft ternary_add library_dpf tells_apart generator randomness 2 1 2 in
    (out.0 5).additive ⊕ (out.1 5).additive ≡ (out.0 5).ole ⊗ (out.1 5).ole
ole_outputs_lem_example =
    ole_outputs_lem forward_fft forward_fft-IsForwardFft ternary_add ternary_add-IsTernary
      library_dpf library_dpf-IsDpf tells_apart generator randomness 2 1 2 5 (omega arith)
      one_and_one (omega arith) (omega arith)

extension_field_ole-none_example :
    (extension_field_ole forward_fft ternary_add library_dpf tells_apart generator randomness 2 1 2
      ≡ none)
    × (first_mismatch tells_apart (wrong root) (wrong f4_ring.nil) 9 0 ≢ none)
extension_field_ole-none_example =
    extension_field_ole-none forward_fft forward_fft-IsForwardFft ternary_add ternary_add-IsTernary
      library_dpf library_dpf-IsDpf tells_apart generator randomness 2 1 2 (wrong root)
      (wrong f4_ring.nil) 4 tells_apart-false (omega arith) one_and_one (omega arith) (omega arith)
      wrong_differs

extension_field_ole_two-none_example :
    (extension_field_ole_two forward_fft ternary_add library_dpf tells_apart generator randomness 2
        1
      ≡ none)
    × (first_mismatch tells_apart (wrong root) (wrong f4_ring.nil) 9 0 ≢ none)
extension_field_ole_two-none_example =
    extension_field_ole_two-none forward_fft forward_fft-IsForwardFft ternary_add
      ternary_add-IsTernary library_dpf library_dpf-IsDpf tells_apart generator randomness 2 1
      (wrong root) (wrong f4_ring.nil) 4 tells_apart-false (omega arith) one_and_one (omega arith)
      wrong_differs
