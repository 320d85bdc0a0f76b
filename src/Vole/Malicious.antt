-- ===== src/Vole/Malicious.antt =====
-- The check against a malicious party in SilentWalshVoleReceiver.h and SilentWalshVoleSender.h, which is
-- there for blocks with the context `CoeffCtxGF128`: `ferretMalCheck` of both parties, and what
-- `sampleBaseVoleVals` adds to mBaseC for it. The product and the powers of `gf128Mul` and `gf128Pow`, the
-- wide product with its reduction, and the hash are the library's.
use extension_field_pcg.Common.{
  ℕ, suc, ◌+◌, ◌<◌, Bool, true, ◌==◌, ◌≡◌, refl, sym, ap, ap₂, ◌∙◌, arith, [], ◌∷◌, all_below,
  all_below-true,
}
use extension_field_pcg.Loop.{loop, loop_from_zero, scatter}
use extension_field_pcg.Algebra.{Ring2, ◌⊕◌, ◌⊗◌}
use extension_field_pcg.Algebra.Sum.{sum, sum_congr, sum-add, mul-sum, loop-sum_one}
use extension_field_pcg.Algebra.Scatter.{sum-scatter}
use extension_field_pcg.Algebra.Solver.{var, ◌:+◌, ◌:*◌, solve, norm}

-- The library's operations on blocks beside the sum and the product.
pub record Gf128 (A : Type 0) : Type 0 where
  pub pow : A → ℕ → A
  pub wide_mul : A → A → A × A
  pub reduce : A → A → A
  pub hash : A → ℕ → ℕ

-- `theirHash == myHash`, on 32 bytes.
unfoldable pub same_hash : (ℕ → ℕ) → (ℕ → ℕ) → Bool
same_hash theirs mine = all_below 32 (λ i. theirs i == mine i)

module _ {A : Type 0} ⦃r : Ring2 A⦄ (gf : Gf128 A) where
  -- The state of the loop of `ferretMalCheck`: xx, sum0 and sum1.
  pub record Sums : Type 0 where
    pub xx : A
    pub sum0 : A
    pub sum1 : A

  unfoldable pub mal_round : A → (ℕ → A) → ℕ → Sums → Sums
  mal_round x values i s =
      let (low, high) = gf.wide_mul s.xx (values i) in
      record { xx = s.xx ⊗ x; sum0 = s.sum0 ⊕ low; sum1 = s.sum1 ⊕ high }

  -- `mySum` of a vector of n blocks.
  unfoldable pub mal_sum : A → (ℕ → A) → ℕ → A
  unfolding mal_round
  mal_sum x values n =
      let s = loop (mal_round x values) n 0 (record { xx = x; sum0 = r.nil; sum1 = r.nil }) in
      gf.reduce s.sum0 s.sum1

  -- `ferretMalCheck` of either party, where `last` is the last one of its base shares.
  unfoldable pub ferret_mal_check : A → (ℕ → A) → ℕ → A → ℕ → ℕ
  ferret_mal_check x values n last = gf.hash (mal_sum x values n ⊕ last)

  -- The last entry of mBaseC, for the points s of the noisy values c.
  unfoldable pub mal_base_c : A → (ℕ → ℕ) → (ℕ → A) → ℕ → A
  mal_base_c x s c num_partitions =
      loop (λ i last. let xs = gf.pow x (s i + 1) in last ⊕ xs ⊗ c i) num_partitions 0 r.nil

  -- What the library documents: powers are repeated products, and the reduction of a sum of wide products
  -- is the sum of the products.
  pub record IsGf128 : Type 0 where
    pub pow_one : (x : A) → gf.pow x 1 ≡ x
    pub pow_suc : (x : A) (n : ℕ) → gf.pow x (suc n) ≡ gf.pow x n ⊗ x
    pub reduce-nil : gf.reduce r.nil r.nil ≡ r.nil
    pub reduce-add : (a b c d : A) → gf.reduce (a ⊕ b) (c ⊕ d) ≡ gf.reduce a c ⊕ gf.reduce b d
    pub reduce-wide : (x y : A) → gf.reduce (gf.wide_mul x y).0 (gf.wide_mul x y).1 ≡ x ⊗ y

  module _ (field : IsGf128) where
    -- The sum is the polynomial with the given coefficients at X, without its constant term.
    pub mal_sum_lem :
        (x : A) (values : ℕ → A) (n : ℕ)
        → mal_sum x values n ≡ sum n (λ i. gf.pow x (suc i) ⊗ values i)
    unfolding mal_sum mal_round sum
    mal_sum_lem x values n =
        (loop_from_zero
          (λ j s.
            (s.xx ≡ gf.pow x (suc j))
            × (gf.reduce s.sum0 s.sum1 ≡ sum j (λ i. gf.pow x (suc i) ⊗ values i)))
          (mal_round x values) n (record { xx = x; sum0 = r.nil; sum1 = r.nil })
          (λ j s l (p, q). (
            ap (λ y. y ⊗ x) p ∙ sym (field.pow_suc x (suc j)),
            field.reduce-add s.sum0 (gf.wide_mul s.xx (values j)).0 s.sum1
                  (gf.wide_mul s.xx (values j)).1
                ∙ ap₂ ◌⊕◌ q (field.reduce-wide s.xx (values j) ∙ ap (λ y. y ⊗ values j) p),
          ))
          (sym (field.pow_one x), field.reduce-nil)).1

    mal_base_c_lem :
        (x : A) (s : ℕ → ℕ) (c : ℕ → A) (count : ℕ)
        → mal_base_c x s c count ≡ sum count (λ t. gf.pow x (suc (s t)) ⊗ c t)
    unfolding mal_base_c
    mal_base_c_lem x s c count =
        loop-sum_one _ (λ t. gf.pow x (s t + 1) ⊗ c t) count r.nil (λ i last l. refl)
        ∙ r.nil-add _
        ∙ sum_congr count _ _
            (λ t l. ap (λ k. gf.pow x k ⊗ c t) {x = s t + 1} {y = suc (s t)} (omega arith))

    -- If mA = mB + delta mC in each of the n entries, where mC holds the noisy values at distinct points below n
    -- and is zero elsewhere, and the additional entry of the noisy VOLE is correct too, a = b + delta c for the
    -- entry of mBaseC that the receiver computes, the hashes of the two parties are the same: the check passes,
    -- whatever the seed is.
    pub same_hash-ferret_mal_check :
        (x delta : A) (n count : ℕ) (s : ℕ → ℕ) (c mA mB : ℕ → A) (last_a last_b : A)
        → ((t : ℕ) → t < count → s t < n)
        → ((t u : ℕ) → t < count → u < count → s t ≡ s u → t ≡ u)
        → ((i : ℕ) → i < n → mA i ≡ mB i ⊕ delta ⊗ scatter s c count (λ j. r.nil) i)
        → last_a ≡ last_b ⊕ delta ⊗ mal_base_c x s c count
        → same_hash (ferret_mal_check x mB n (r.nil ⊕ last_b)) (ferret_mal_check x mA n last_a)
          ≡ true
    unfolding ferret_mal_check same_hash norm
    same_hash-ferret_mal_check x delta n count s c mA mB last_a last_b inside distinct correlated
          last =
        ap (λ z. all_below 32 (λ i. gf.hash (mal_sum x mB n ⊕ (r.nil ⊕ last_b)) i == gf.hash z i))
          same_sum
        ∙ all_below-true 32 _ (λ i. equal (gf.hash (mal_sum x mB n ⊕ (r.nil ⊕ last_b)) i))
      where
        equal : (k : ℕ) → (k == k) ≡ true
        equal k = ground arith

        w : ℕ → A
        w i = gf.pow x (suc i)

        spread : sum n (λ i. w i ⊗ mA i) ≡ sum n (λ i. w i ⊗ mB i) ⊕ delta ⊗ mal_base_c x s c count
        spread =
            sum_congr n _ (λ i. w i ⊗ mB i ⊕ delta ⊗ (w i ⊗ scatter s c count (λ j. r.nil) i))
              (λ i l.
                ap (λ y. w i ⊗ y) (correlated i l)
                ∙ solve (w i ∷ mB i ∷ delta ∷ scatter s c count (λ j. r.nil) i ∷ [])
                    (var 0 :* (var 1 :+ var 2 :* var 3))
                    (var 0 :* var 1 :+ var 2 :* (var 0 :* var 3)) refl)
            ∙ sum-add n _ _
            ∙ ap (λ y. sum n (λ i. w i ⊗ mB i) ⊕ y)
                (sym (mul-sum delta n _)
                  ∙ ap (λ y. delta ⊗ y)
                      (sum-scatter n w s c count inside distinct
                        ∙ sym (mal_base_c_lem x s c count)))

        same_sum : mal_sum x mA n ⊕ last_a ≡ mal_sum x mB n ⊕ (r.nil ⊕ last_b)
        same_sum =
            ap₂ ◌⊕◌ (mal_sum_lem x mA n ∙ spread) last
            ∙ solve (sum n (λ i. w i ⊗ mB i) ∷ delta ⊗ mal_base_c x s c count ∷ last_b ∷ [])
                (var 0 :+ var 1 :+ (var 2 :+ var 1)) (var 0 :+ var 2) refl
            ∙ ap₂ ◌⊕◌ (sym (mal_sum_lem x mB n)) (sym (r.nil-add last_b))
