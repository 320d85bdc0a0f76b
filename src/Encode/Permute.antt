-- ===== src/Encode/Permute.antt =====
-- `RAA_encode_test_PCS` of test.h, for a context whose coefficients form a ring of characteristic two: the
-- message is repeated, permuted and accumulated twice. The shuffled permutations are arguments.
use extension_field_pcg.Common.{ℕ, suc, ◌+◌, ◌*◌, ◌%◌, ◌^◌, ◌≤◌, ◌<◌, ◌≡◌, sym, ap, ◌∙◌, arith}
use extension_field_pcg.Common.{◌-◌, below_or_from, inl, inr}
use native.Mathlib.Nat.{suc-mul, mul-le-mul_right, mul-add-mod_self_right, mod-eq_of_lt}
use extension_field_pcg.IntLoop.{int_product, int_product_small}
use extension_field_pcg.Loop.{loop, loop_from_zero, scatter, scatter_other, scatter_at}
use extension_field_pcg.Algebra.{Ring2}
use extension_field_pcg.Algebra.Sum.{sum, sum_congr}
use extension_field_pcg.Encode.Accumulate.{accumulate, accumulate_lem}

-- A permutation of the numbers below n, by the place of each and the number at each place.
pub record IsPermutation (n : ℕ) (place back : ℕ → ℕ) : Type 0 where
  pub back-lt : (t : ℕ) → t < n → back t < n
  pub place-back : (t : ℕ) → t < n → place (back t) ≡ t
  pub back-place : (i : ℕ) → i < n → back (place i) ≡ i

module _ {ℓ} {A : Type ℓ} ⦃r : Ring2 A⦄ where
  -- `copy(message.begin(), message.end(), codeword.begin() + i * n)` for each i.
  unfoldable pub repeat : ℕ → ℕ → (ℕ → A) → (ℕ → A) → ℕ → A
  repeat n inverse_rate message codeword =
      loop (λ i c. scatter (λ j. int_product i n + j) message n c) inverse_rate 0 codeword

  unfoldable pub raa_encode : ℕ → ℕ → (ℕ → ℕ) → (ℕ → ℕ) → (ℕ → A) → ℕ → A
  raa_encode n inverse_rate perm1 perm2 message =
      let length = int_product inverse_rate n in
      let codeword = repeat n inverse_rate message (λ i. r.nil) in
      let temp_codeword = accumulate length (scatter perm1 codeword length (λ i. r.nil)) in
      accumulate length (scatter perm2 temp_codeword length codeword)

  -- The copies: an entry is that of the message at the remainder.
  repeat_at :
      (n inverse_rate : ℕ) (message codeword : ℕ → A) (q : ℕ)
      → inverse_rate * n < 2 ^ 31
      → q < inverse_rate * n
      → repeat n inverse_rate message codeword q ≡ message (q % n)
  unfolding repeat
  repeat_at n inverse_rate message codeword q fits =
      loop_from_zero (λ i c. (q : ℕ) → q < i * n → c q ≡ message (q % n)) _ inverse_rate codeword
        (λ i c l before q h.
          ap (λ o. scatter (λ j. o + j) message n c q)
            (int_product_small i n
              (let up : i * n ≤ inverse_rate * n = mul-le-mul_right n (omega arith) in omega arith))
          ∙ elim (below_or_from (i * n) q) [
            | inl old ↦
                scatter_other (λ j. i * n + j) message n c q (λ j m e. omega (arith, e))
                ∙ before q old
            | inr new ↦ copied i c q new (omega (arith, suc-mul i n))
          ])
        (λ q h. absurd (omega (arith, h))) q
    where
      copied :
          (i : ℕ) (c : ℕ → A) (q : ℕ)
          → i * n ≤ q
          → q < i * n + n
          → scatter (λ j. i * n + j) message n c q ≡ message (q % n)
      copied i c q l h =
          let whole : q ≡ i * n + (q - i * n) = omega arith in
          ap (scatter (λ j. i * n + j) message n c) whole
          ∙ scatter_at (λ j. i * n + j) message n c (λ j k u v e. omega (arith, e)) (q - i * n)
              (omega arith)
          ∙ ap message (
              sym (
                ap (λ x. x % n) whole
                ∙ mul-add-mod_self_right i n (q - i * n)
                ∙ mod-eq_of_lt {n = q - i * n} {m = n} (omega arith)))

  permuted :
      (n : ℕ) (place back : ℕ → ℕ) (src dst : ℕ → A) (t : ℕ)
      → IsPermutation n place back
      → t < n
      → scatter place src n dst t ≡ src (back t)
  permuted n place back src dst t p h =
      ap (scatter place src n dst) (sym (p.place-back t h))
      ∙ scatter_at place src n dst
          (λ i j l m e. sym (p.back-place i l) ∙ ap back e ∙ p.back-place j m) (back t)
          (p.back-lt t h)

  -- Entry t of the codeword, for a length inverse_rate * n that an `int` holds, and for permutations of the
  -- length and their inverses: the sum of the entries up to t of the second permutation of the sums of the
  -- entries of the first permutation of the repeated message.
  pub raa_encode_lem :
      (n inverse_rate : ℕ) (perm1 perm2 back1 back2 : ℕ → ℕ) (message : ℕ → A) (t : ℕ)
      → inverse_rate * n < 2 ^ 31
      → IsPermutation (inverse_rate * n) perm1 back1
      → IsPermutation (inverse_rate * n) perm2 back2
      → t < inverse_rate * n
      → raa_encode n inverse_rate perm1 perm2 message t
        ≡ sum (suc t) (λ s. sum (suc (back2 s)) (λ i. message (back1 i % n)))
  unfolding raa_encode
  raa_encode_lem n inverse_rate perm1 perm2 back1 back2 message t fits p q h =
      let codeword = repeat n inverse_rate message (λ i. r.nil) in
      ap
        (λ len.
          accumulate len
            (scatter perm2 (accumulate len (scatter perm1 codeword len (λ i. r.nil))) len codeword)
            t)
        (int_product_small inverse_rate n fits)
      ∙ accumulate_lem (inverse_rate * n) _ t h
      ∙ sum_congr (suc t) _ _ (λ s l.
        permuted (inverse_rate * n) perm2 back2 _ _ s q (omega arith)
        ∙ accumulate_lem (inverse_rate * n) _ (back2 s) (q.back-lt s (omega arith))
        ∙ sum_congr (suc (back2 s)) _ _ (λ i m.
          permuted (inverse_rate * n) perm1 back1 _ _ i p (omega (arith, q.back-lt s (omega arith)))
          ∙ repeat_at n inverse_rate message (λ j. r.nil) (back1 i) fits
              (p.back-lt i (omega (arith, q.back-lt s (omega arith))))))
