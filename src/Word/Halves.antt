-- ===== src/Word/Halves.antt =====
-- The two 64-bit halves of a block.
use extension_field_pcg.Common.{ℕ, zero, suc, ◌+◌, ◌-◌, ◌/◌, ◌^◌, ◌≤◌, ◌<◌, ◌≡◌, refl, sym}
use extension_field_pcg.Common.{ap, ap₂, ◌∙◌, true, false, lt→ltb, ltb-false, inl, inr}
use extension_field_pcg.Common.{◌⊎◌, below_or_from, fun_ext, arith}
use native.Mathlib.Nat.{pow-suc}
use extension_field_pcg.Algebra.{◌⊕◌, ◌⊗◌, add-nil}
use extension_field_pcg.Algebra.Series.{
  series, shift, shift-cauchy, shift_above, shift_below, constant,
}
use extension_field_pcg.Word.Defs.{xor_self, f2, Bits, of_ℕ, block, extract_low, extract_high}

pub of_ℕ-lt : (i n k : ℕ) → n < 2 ^ k → k ≤ i → of_ℕ n i ≡ false
unfolding of_ℕ
of_ℕ-lt zero zero k h le = refl
of_ℕ-lt zero (suc n) zero h le = absurd (omega arith)
of_ℕ-lt zero (suc n) (suc k) h le = absurd (omega arith)
of_ℕ-lt (suc i) n zero h le = of_ℕ-lt i (n / 2) zero (omega arith) (omega arith)
of_ℕ-lt (suc i) n (suc k) h le = of_ℕ-lt i (n / 2) k (omega (arith, pow-suc 2 k)) (omega arith)

pub extract_low_below : (x : Bits) (i : ℕ) → i < 64 → extract_low x i ≡ x i
unfolding extract_low
extract_low_below x i h = rw (lt→ltb i 64 h)

pub extract_low_above : (x : Bits) (i : ℕ) → 64 ≤ i → extract_low x i ≡ false
unfolding extract_low
extract_low_above x i h = rw (ltb-false i 64 h)

pub extract_high_above : (x : Bits) (i : ℕ) → 64 ≤ i → extract_high x i ≡ false
unfolding extract_high
extract_high_above x i h = rw (ltb-false i 64 h)

pub extract_low-block : (h l : Bits) → extract_low (block h l) ≡ extract_low l
extract_low-block h l = fun_ext λ i. at i (below_or_from 64 i)
  where
    at : (i : ℕ) → (i < 64) ⊎ (64 ≤ i) → extract_low (block h l) i ≡ extract_low l i
    at i (inl p) = unfold extract_low block in rw (lt→ltb i 64 p)
    at i (inr p) = unfold extract_low in rw (ltb-false i 64 p)

pub extract_high-block : (h l : Bits) → extract_high (block h l) ≡ extract_low h
extract_high-block h l = fun_ext λ i. at i (below_or_from 64 i)
  where
    at : (i : ℕ) → (i < 64) ⊎ (64 ≤ i) → extract_high (block h l) i ≡ extract_low h i
    at i (inl p) =
        unfold extract_high extract_low block in
        rw (lt→ltb i 64 p, ltb-false (i + 64) 64 (omega arith), lt→ltb (i + 64) 128 (omega arith))
          (ap h {x = i + 64 - 64} (omega arith))
    at i (inr p) = unfold extract_high extract_low in rw (ltb-false i 64 p)

pub extract_low_idem : (x : Bits) → extract_low (extract_low x) ≡ extract_low x
unfolding extract_low
extract_low_idem x = fun_ext λ i. ground arith

pub extract_low-add : (x y : Bits) → extract_low (x ⊕ y) ≡ extract_low x ⊕ extract_low y
extract_low-add x y = fun_ext λ i. at i (below_or_from 64 i)
  where
    at : (i : ℕ) → (i < 64) ⊎ (64 ≤ i) → extract_low (x ⊕ y) i ≡ extract_low x i ⊕ extract_low y i
    at i (inl p) =
        extract_low_below (x ⊕ y) i p
        ∙ sym (ap₂ f2.add (extract_low_below x i p) (extract_low_below y i p))
    at i (inr p) =
        extract_low_above (x ⊕ y) i p
        ∙ sym (ap₂ f2.add (extract_low_above x i p) (extract_low_above y i p) ∙ xor_self false)

-- Up to 64 bits the low half is the whole.
pub extract_low_whole : (x : Bits) → ((i : ℕ) → 64 ≤ i → x i ≡ false) → extract_low x ≡ x
extract_low_whole x b = fun_ext λ i. at i (below_or_from 64 i)
  where
    at : (i : ℕ) → (i < 64) ⊎ (64 ≤ i) → extract_low x i ≡ x i
    at i (inl p) = extract_low_below x i p
    at i (inr p) = extract_low_above x i p ∙ sym (b i p)

-- x^64
abbrev pub power64 : Bits
power64 = shift 64 (constant true)

pub power64-mul : (x : Bits) → power64 ⊗ x ≡ shift 64 x
power64-mul x =
    fun_ext λ i. shift-cauchy 64 i (constant true) x ∙ ap (λ s. shift 64 s i) (series.one-mul x)

pub split_word :
    (x : Bits) → ((i : ℕ) → 128 ≤ i → x i ≡ false) → x ≡ extract_low x ⊕ power64 ⊗ extract_high x
split_word x b =
    fun_ext (λ i. at i (below_or_from 64 i) (below_or_from 128 i))
    ∙ ap (λ s. extract_low x ⊕ s) (sym (power64-mul (extract_high x)))
  where
    at :
        (i : ℕ)
        → (i < 64) ⊎ (64 ≤ i)
        → (i < 128) ⊎ (128 ≤ i)
        → x i ≡ f2.add (extract_low x i) (shift 64 (extract_high x) i)
    at i (inl p) q =
        sym (extract_low_below x i p)
        ∙ sym (add-nil _)
        ∙ ap (f2.add (extract_low x i)) (sym (shift_below 64 i (extract_high x) p))
    at i (inr p) (inl q) = sym (
        ap₂ f2.add (extract_low_above x i p) (shift_above 64 i (extract_high x) p)
        ∙ f2.nil-add _
        ∙ (unfold extract_high in
            rw (lt→ltb (i - 64) 64 (omega arith)) (ap x {x = i - 64 + 64} (omega arith))))
    at i (inr p) (inr q) =
        b i q
        ∙ sym (
            ap₂ f2.add (extract_low_above x i p) (shift_above 64 i (extract_high x) p)
            ∙ f2.nil-add _
            ∙ extract_high_above x (i - 64) (omega arith))
