-- ===== src/Encode/QuasiAbelian.antt =====
-- `QA_encode_test_PCS`, `QA_encode_test` and `test_inverse_FFT` of test.h, for blocks with the context
-- `CoeffCtxGF128_F4`. The random vectors are arguments.
use extension_field_pcg.Common.{
  ℕ, ◌+◌, ◌/◌, ◌^◌, ◌<◌, ◌≡◌, refl, sym, ap, ap₂, ◌∙◌, arith, Bool, false, if◌then◌else◌, List, [],
  ◌∷◌,
}
use extension_field_pcg.Common.{◌-◌, write, write_self, inr}
use extension_field_pcg.Loop.{
  scatter, scatter_at, loop, loop_from_zero, update_all, update_all_at, update_all_from,
}
use extension_field_pcg.Algebra.{◌⊕◌, ◌⊗◌}
use extension_field_pcg.F4.Ring.{Block, f4_ring}
use extension_field_pcg.Fft.{Store, inv_foleage_fft}
use extension_field_pcg.Algebra.Cube.{evaluate}
use extension_field_pcg.Algebra.Cube.Inverse.{evaluate-interpolate}
use extension_field_pcg.Fft.Root.{root}
use extension_field_pcg.Algebra.Solver.{var, ◌:+◌, ◌:*◌, solve, norm}
use extension_field_pcg.Fft.Sparse.{foleage_fft-add}
use extension_field_pcg.Fft.View.{cube, cube_at}
use extension_field_pcg.Fft.Inverse.{
  IsForwardFft, inv_foleage_fft-IsInterpolated, inv_foleage_fft-foleage_fft,
}

module _ (foleage_fft : ℕ → ℕ → ℕ → Store → Store) where
  -- The encoder of rate 1/2, with two loops: the message is copied to the second half of the codeword, and
  -- the first half becomes the inverse transform of a times the message's transform.
  unfoldable pub qa_encode_half : ℕ → ℕ → Store → Store → Store → Store
  qa_encode_half num_var n a msg codeword =
      let copied = scatter (λ i. n + i) msg n codeword in
      let transformed = foleage_fft num_var (n / 3) 0 msg in
      let product = update_all (λ i old. a i ⊗ transformed i) n copied in
      inv_foleage_fft num_var (n / 3) 0 product

  -- The encoder of rate 1/inverse_rate: the codeword is a list of vectors, the last of which is the message.
  unfoldable pub qa_encode : ℕ → ℕ → ℕ → (ℕ → Store) → Store → (ℕ → Store) → ℕ → Store
  qa_encode num_var n inverse_rate a msg codeword =
      let last = inverse_rate - 1 in
      let copied = write codeword last msg in
      let transformed = foleage_fft num_var (n / 3) 0 msg in
      update_all
        (λ h old.
          inv_foleage_fft num_var (n / 3) 0 (update_all (λ i x. a h i ⊗ transformed i) n old))
        last copied

  -- `QA_encode_test`: the syndrome of s and e, which are transformed first.
  unfoldable pub qa_syndrome : ℕ → ℕ → Store → Store → Store → Store → Store
  qa_syndrome num_var n a s e f =
      let transformed_s = foleage_fft num_var (n / 3) 0 s in
      let transformed_e = foleage_fft num_var (n / 3) 0 e in
      update_all (λ i old. transformed_s i ⊗ a i ⊕ transformed_e i) n f

  -- The numbers of the entries that `test_inverse_FFT` prints, last first.
  unfoldable pub test_inverse_fft : (Block → Block → Bool) → ℕ → ℕ → Store → List ℕ
  test_inverse_fft differ n num_var verify =
      let there = foleage_fft num_var (n / 3) 0 verify in
      let coeff = inv_foleage_fft num_var (n / 3) 0 there in
      loop (λ i printed. if differ (verify i) (coeff i) then i ∷ printed else printed) n 0 []

  module _ (forward : IsForwardFft foleage_fft) where
    -- The transform of an inverse transform.
    foleage_fft-inv :
        (k : ℕ) (x : Store) (t : ℕ)
        → t < 3 ^ k
        → foleage_fft k (3 ^ k / 3) 0 (inv_foleage_fft k (3 ^ k / 3) 0 x) t ≡ x t
    foleage_fft-inv k x t l =
        cube_at k 0 _ x
          (forward.evaluates k 0 (inv_foleage_fft k (3 ^ k / 3) 0 x)
            ∙ ap (evaluate f4_ring root k) (inv_foleage_fft-IsInterpolated k 0 x).inside
            ∙ evaluate-interpolate f4_ring root k (cube k 0 x))
          t (omega arith) (omega arith)

    -- For a forward transform that evaluates as the library describes it and 3^k blocks: the transform of the
    -- first half of the codeword is a times the transform of the message, entry by entry, and the second half
    -- is the message.
    pub qa_encode_half_lem :
        (k : ℕ) (a msg codeword : Store) (t : ℕ)
        → t < 3 ^ k
        → (foleage_fft k (3 ^ k / 3) 0 (qa_encode_half k (3 ^ k) a msg codeword) t
            ≡ a t ⊗ foleage_fft k (3 ^ k / 3) 0 msg t)
          × (qa_encode_half k (3 ^ k) a msg codeword (3 ^ k + t) ≡ msg t)
    unfolding qa_encode_half
    qa_encode_half_lem k a msg codeword t l =
        let copied = scatter (λ i. 3 ^ k + i) msg (3 ^ k) codeword in
        let product =
          update_all (λ i old. a i ⊗ foleage_fft k (3 ^ k / 3) 0 msg i) (3 ^ k) copied in
        (
          foleage_fft-inv k product t l ∙ update_all_at _ (3 ^ k) copied t l,
          (inv_foleage_fft-IsInterpolated k 0 product).outside (3 ^ k + t) (inr (omega arith))
              ∙ update_all_from _ (3 ^ k) copied (3 ^ k + t) (omega arith)
              ∙ scatter_at (λ i. 3 ^ k + i) msg (3 ^ k) codeword (λ i j h m e. omega (arith, e)) t
                  l,
        )

    -- For a forward transform that evaluates as the library describes it and 3^k blocks: the transform of each
    -- vector of the codeword but the last is the corresponding vector of a times the transform of the message,
    -- entry by entry, and the last one is the message.
    pub qa_encode_lem :
        (k inverse_rate : ℕ) (a : ℕ → Store) (msg : Store) (codeword : ℕ → Store) (h t : ℕ)
        → h < inverse_rate - 1
        → t < 3 ^ k
        → (foleage_fft k (3 ^ k / 3) 0 (qa_encode k (3 ^ k) inverse_rate a msg codeword h) t
            ≡ a h t ⊗ foleage_fft k (3 ^ k / 3) 0 msg t)
          × (qa_encode k (3 ^ k) inverse_rate a msg codeword (inverse_rate - 1) t ≡ msg t)
    unfolding qa_encode
    qa_encode_lem k inverse_rate a msg codeword h t m l =
        let last = inverse_rate - 1 in
        (
          ap (λ x. foleage_fft k (3 ^ k / 3) 0 x t)
                (update_all_at _ last (write codeword last msg) h m)
              ∙ foleage_fft-inv k _ t l
              ∙ update_all_at _ (3 ^ k) _ t l,
          ap (λ x. x t)
              (update_all_from _ last (write codeword last msg) last (omega arith)
                ∙ write_self codeword last msg),
        )

    -- For a forward transform that evaluates as the library describes it, 3^k blocks and a test `!=` that
    -- tells no block from itself: `test_inverse_FFT` prints no entry.
    pub test_inverse_fft-nil :
        (differ : Block → Block → Bool)
        → ((x : Block) → differ x x ≡ false)
        → (k : ℕ) (verify : Store) → test_inverse_fft differ (3 ^ k) k verify ≡ []
    unfolding test_inverse_fft
    test_inverse_fft-nil differ same k verify =
        loop_from_zero (λ j p. p ≡ []) _ (3 ^ k) []
          (λ j p l h.
            ap (λ b. if b then j ∷ p else p)
              (ap (differ (verify j)) (
                  cube_at k 0 _ verify (inv_foleage_fft-foleage_fft foleage_fft forward k 0 verify)
                    j (omega arith) (omega arith))
                ∙ same (verify j))
            ∙ h)
          refl

    -- For a forward transform that evaluates as the library describes it and 3^k blocks: the syndrome of two
    -- sums is the sum of the syndromes.
    pub qa_syndrome-add :
        (k : ℕ) (a s s1 e e1 f f1 f2 : Store) (t : ℕ)
        → t < 3 ^ k
        → qa_syndrome k (3 ^ k) a (λ i. s i ⊕ s1 i) (λ i. e i ⊕ e1 i) f t
          ≡ qa_syndrome k (3 ^ k) a s e f1 t ⊕ qa_syndrome k (3 ^ k) a s1 e1 f2 t
    unfolding qa_syndrome norm
    qa_syndrome-add k a s s1 e e1 f f1 f2 t l =
        let g = foleage_fft k (3 ^ k / 3) 0 in
        update_all_at _ (3 ^ k) f t l
        ∙ ap₂ (λ x y. x ⊗ a t ⊕ y) (foleage_fft-add foleage_fft forward k s s1 t l)
            (foleage_fft-add foleage_fft forward k e e1 t l)
        ∙ solve (g s t ∷ g s1 t ∷ g e t ∷ g e1 t ∷ a t ∷ [])
            ((var 0 :+ var 1) :* var 4 :+ (var 2 :+ var 3))
            (var 0 :* var 4 :+ var 2 :+ (var 1 :* var 4 :+ var 3)) refl
        ∙ sym (ap₂ ◌⊕◌ (update_all_at _ (3 ^ k) f1 t l) (update_all_at _ (3 ^ k) f2 t l))
