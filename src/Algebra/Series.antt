-- ===== src/Algebra/Series.antt =====
-- Sequences of coefficients with the Cauchy product: formal power series, of which the polynomials
-- that the code multiplies without carries are the bounded ones.
use extension_field_pcg.Common.{
  ℕ, zero, suc, ◌+◌, ◌-◌, ◌≤◌, ◌<◌, ◌≡◌, refl, sym, ap, ap₂, ◌∙◌, fun_ext,
}
use extension_field_pcg.Common.{arith}
use extension_field_pcg.Algebra.{Ring2, ◌⊕◌, ◌⊗◌, add-nil, nil-mul, mul-nil}

abbrev pub Series {ℓ} : Type ℓ → Type ℓ
Series A = ℕ → A

module _ {ℓ} {A : Type ℓ} where
  abbrev pub tail : Series A → Series A
  tail a i = a (suc i)

module _ {ℓ} {A : Type ℓ} ⦃r : Ring2 A⦄ where
  -- The coefficient of x^i of a product.
  unfoldable pub cauchy : Series A → Series A → Series A
  cauchy a b zero = a 0 ⊗ b 0
  cauchy a b (suc i) = a 0 ⊗ b (suc i) ⊕ cauchy (tail a) b i

  abbrev pub plus : Series A → Series A → Series A
  plus a b i = a i ⊕ b i

  abbrev pub none_of : Series A
  none_of i = r.nil

  abbrev pub constant : A → Series A
  constant x zero = x
  constant x (suc i) = r.nil

  -- All coefficients from x^n on vanish.
  abbrev pub IsBounded : ℕ → Series A → Type ℓ
  IsBounded n a = (i : ℕ) → n ≤ i → a i ≡ r.nil

  add_interchange : (a b c d : A) → (a ⊕ b) ⊕ (c ⊕ d) ≡ (a ⊕ c) ⊕ (b ⊕ d)
  add_interchange a b c d =
      r.add_assoc a b (c ⊕ d)
      ∙ ap (r.add a)
          (sym (r.add_assoc b c d) ∙ ap (λ t. t ⊕ d) (r.add_comm b c) ∙ r.add_assoc c b d)
      ∙ sym (r.add_assoc a c (b ⊕ d))

  pub cauchy-add : (i : ℕ) (a b c : Series A) → cauchy a (plus b c) i ≡ cauchy a b i ⊕ cauchy a c i
  unfolding cauchy
  cauchy-add zero a b c = r.mul-add _ _ _
  cauchy-add (suc i) a b c =
      ap₂ r.add (r.mul-add _ _ _) (cauchy-add i (tail a) b c) ∙ add_interchange _ _ _ _

  pub nil-cauchy : (i : ℕ) (b : Series A) → cauchy none_of b i ≡ r.nil
  unfolding cauchy
  nil-cauchy zero b = nil-mul _
  nil-cauchy (suc i) b = ap₂ r.add (nil-mul _) (nil-cauchy i b) ∙ r.nil-add _

  cauchy-suc_right :
      (i : ℕ) (a b : Series A) → cauchy a b (suc i) ≡ cauchy a (tail b) i ⊕ a (suc i) ⊗ b 0
  unfolding cauchy
  cauchy-suc_right zero a b = refl
  cauchy-suc_right (suc i) a b =
      ap (r.add (a 0 ⊗ b (suc (suc i)))) (cauchy-suc_right i (tail a) b) ∙ sym (r.add_assoc _ _ _)

  pub cauchy_comm : (i : ℕ) (a b : Series A) → cauchy a b i ≡ cauchy b a i
  unfolding cauchy
  cauchy_comm zero a b = r.mul_comm _ _
  cauchy_comm (suc i) a b =
      cauchy-suc_right i a b
      ∙ ap₂ r.add (cauchy_comm i a (tail b)) (r.mul_comm _ _)
      ∙ r.add_comm _ _

  add-cauchy : (i : ℕ) (a b c : Series A) → cauchy (plus a b) c i ≡ cauchy a c i ⊕ cauchy b c i
  add-cauchy i a b c =
      cauchy_comm i (plus a b) c
      ∙ cauchy-add i c a b
      ∙ ap₂ r.add (cauchy_comm i c a) (cauchy_comm i c b)

  scale-cauchy : (i : ℕ) (x : A) (a b : Series A) → cauchy (λ j. x ⊗ a j) b i ≡ x ⊗ cauchy a b i
  unfolding cauchy
  scale-cauchy zero x a b = r.mul_assoc _ _ _
  scale-cauchy (suc i) x a b =
      ap₂ r.add (r.mul_assoc _ _ _) (scale-cauchy i x (tail a) b) ∙ sym (r.mul-add _ _ _)

  pub cauchy_assoc : (i : ℕ) (a b c : Series A) → cauchy (cauchy a b) c i ≡ cauchy a (cauchy b c) i
  unfolding cauchy
  cauchy_assoc zero a b c = r.mul_assoc _ _ _
  cauchy_assoc (suc i) a b c =
      ap (r.add (a 0 ⊗ b 0 ⊗ c (suc i))) (
        add-cauchy i (λ j. a 0 ⊗ b (suc j)) (cauchy (tail a) b) c
        ∙ ap₂ r.add (scale-cauchy i (a 0) (tail b) c) (cauchy_assoc i (tail a) b c))
      ∙ sym (r.add_assoc _ _ _)
      ∙ ap (λ t. t ⊕ cauchy (tail a) (cauchy b c) i)
          (ap (λ t. t ⊕ a 0 ⊗ cauchy (tail b) c i) (r.mul_assoc _ _ _) ∙ sym (r.mul-add _ _ _))

  pub constant-cauchy : (i : ℕ) (x : A) (b : Series A) → cauchy (constant x) b i ≡ x ⊗ b i
  unfolding cauchy
  constant-cauchy zero x b = refl
  constant-cauchy (suc i) x b = ap (r.add _) (nil-cauchy i b) ∙ add-nil _

  -- A product has fewer coefficients than both factors together.
  pub cauchy-IsBounded :
      (i n m : ℕ) (a b : Series A)
      → IsBounded n a
      → IsBounded m b
      → n + m ≤ suc i
      → cauchy a b i ≡ r.nil
  unfolding cauchy
  cauchy-IsBounded i zero m a b ha hb le =
      ap (λ s. cauchy s b i) (fun_ext λ j. ha j (omega arith)) ∙ nil-cauchy i b
  cauchy-IsBounded zero (suc n) m a b ha hb le = ap (r.mul (a 0)) (hb 0 (omega arith)) ∙ mul-nil _
  cauchy-IsBounded (suc i) (suc n) m a b ha hb le =
      ap₂ r.add (ap (r.mul (a 0)) (hb (suc i) (omega arith)) ∙ mul-nil _)
        (cauchy-IsBounded i n m (tail a) b (λ j h. ha (suc j) (omega arith)) hb (omega arith))
      ∙ r.nil-add _

  -- Series over a ring of characteristic two are one.
  instance abbrev pub series : Ring2 (Series A)
  series = record {
    nil = none_of;
    one = constant r.one;
    add = plus;
    mul = cauchy;
    add_assoc = λ a b c. fun_ext λ i. r.add_assoc _ _ _;
    add_comm = λ a b. fun_ext λ i. r.add_comm _ _;
    nil-add = λ a. fun_ext λ i. r.nil-add _;
    add_self = λ a. fun_ext λ i. r.add_self _;
    mul_assoc = λ a b c. fun_ext λ i. cauchy_assoc i a b c;
    mul_comm = λ a b. fun_ext λ i. cauchy_comm i a b;
    one-mul = λ a. fun_ext λ i. constant-cauchy i r.one a ∙ r.one-mul _;
    mul-add = λ a b c. fun_ext λ i. cauchy-add i a b c;
  }

  -- Multiplication by x^n.
  unfoldable pub shift : ℕ → Series A → Series A
  shift zero a i = a i
  shift (suc n) a zero = r.nil
  shift (suc n) a (suc i) = shift n a i

  pub shift-cauchy : (n i : ℕ) (a b : Series A) → cauchy (shift n a) b i ≡ shift n (cauchy a b) i
  unfolding cauchy shift
  shift-cauchy zero i a b = refl
  shift-cauchy (suc n) zero a b = nil-mul _
  shift-cauchy (suc n) (suc i) a b = ap₂ r.add (nil-mul _) (shift-cauchy n i a b) ∙ r.nil-add _

  pub shift_above : (n i : ℕ) (a : Series A) → n ≤ i → shift n a i ≡ a (i - n)
  unfolding shift
  shift_above zero i a h = ap a (omega arith)
  shift_above (suc n) zero a h = absurd (omega arith)
  shift_above (suc n) (suc i) a h = shift_above n i a (omega arith) ∙ ap a (omega arith)

  pub shift_below : (n i : ℕ) (a : Series A) → i < n → shift n a i ≡ r.nil
  unfolding shift
  shift_below zero i a h = absurd (omega arith)
  shift_below (suc n) zero a h = refl
  shift_below (suc n) (suc i) a h = shift_below n i a (omega arith)
