-- ===== src/Ole/Correct.antt =====
-- The two parties' outputs in `Extension_Field_OLE`: shares of the product of the two linear
-- combinations.
use extension_field_pcg.Common.{
  ℕ, ◌+◌, ◌-◌, ◌*◌, ◌/◌, ◌%◌, ◌^◌, ◌<◌, ◌≤◌, ◌≡◌, sym, ap, ap₂, ◌∙◌, subst, arith, Bool, true,
  false, ◌≢◌, none,
}
use extension_field_pcg.Loop.{update_all, update_all_at}
use extension_field_pcg.Algebra.{◌⊕◌, ◌⊗◌}
use extension_field_pcg.F4.Ring.{Block, f4_ring}
use extension_field_pcg.Fft.{Store}
use extension_field_pcg.Fft.Inverse.{IsForwardFft}
use extension_field_pcg.Fft.Ternary.{IsTernary, pow_pos}
use extension_field_pcg.Ole.Dpf.{Randomness, TernaryDpf}
use extension_field_pcg.Ole.Products.{IsDpf, Fits}
use extension_field_pcg.Ole.Sampling.{
  Prng, Term, Terms, draw_a, sample_terms, blank_term, IsSparse, sample_terms-IsSparse,
}
use extension_field_pcg.Ole.Pair.{foleage_fft-dpf}
use extension_field_pcg.Ole.Run.{
  zeros, Entry, cross_products, combine, thread, cross_terms, ole_outputs, extension_field_ole,
  first_mismatch,
}
use extension_field_pcg.Ole.Combine.{
  row-lt, column-lt, cross_products_at, combine_lem, first_mismatch-none, first_mismatch-found,
}

module _ (foleage_fft : ℕ → ℕ → ℕ → Store → Store) (forward : IsForwardFft foleage_fft)
    (add : ℕ → ℕ → ℕ) (ternary : IsTernary add) (lib : TernaryDpf) (is_dpf : IsDpf add lib)
    (differ : Block → Block → Bool) (prng : Prng) (rands : ℕ → Randomness) where
  thread_at :
      (depth length c : ℕ) (a a_cross cross_term s : ℕ → Store) (i : ℕ)
      → i < length
      → thread foleage_fft add lib differ prng rands depth length c a a_cross cross_term s i
        ≡ combine c a a_cross
            (update_all (λ j x. foleage_fft depth (length / 3) 0 x) (c * c) cross_term)
            (update_all (λ j x. foleage_fft depth (length / 3) 0 x) c s)
            i
  unfolding thread
  thread_at depth length c a a_cross cross_term s i l = update_all_at _ length _ i l

  -- One pair of terms: the transforms of the two parties' `cross_term[j]` are shares.
  module _ (b d c : ℕ) (fits : Fits b d) (few : c * c < 2 ^ 31) (t : Terms)
      (sparse0 : (k : ℕ) → k < c → IsSparse (3 ^ d) (3 ^ b) (t.terms0 k))
      (sparse1 : (k : ℕ) → k < c → IsSparse (3 ^ d) (3 ^ b) (t.terms1 k)) where
    abbrev cross : ℕ → Store × Store
    cross = cross_terms foleage_fft add lib differ prng rands (3 ^ b) (3 ^ d) c t

    abbrev transform : Store → Store
    transform x = foleage_fft (b + d) (3 ^ (b + d) / 3) 0 x

    transform_shares :
        (j i : ℕ)
        → j < c * c
        → i < 3 ^ (b + d)
        → transform (cross j).0 i ⊕ transform (cross j).1 i
          ≡ transform (t.terms0 (j / c)).dense i ⊗ transform (t.terms1 (j % c)).dense i
    unfolding cross_terms
    transform_shares j i h l =
        let p = t.terms0 (j / c) in
        let q = t.terms1 (j % c) in
        ap (λ (y : Store × Store). transform y.0 i ⊕ transform y.1 i)
          (update_all_at _ (c * c) (λ n. (zeros, zeros)) j h)
        ∙ foleage_fft-dpf foleage_fft forward add ternary lib is_dpf b d fits (rands j) p q
            (sparse0 (j / c) (row-lt c j h)) (sparse1 (j % c) (column-lt c j h)) i l

    threads_lem :
        (a : ℕ → Store) (i : ℕ)
        → i < 3 ^ (b + d)
        → let len = 3 ^ (b + d) in
          let run =
            thread foleage_fft add lib differ prng rands (b + d) len c a (cross_products a c len) in
          let out0 = run (λ j. (cross j).0) (λ k. (t.terms0 k).dense) i in
          let out1 = run (λ j. (cross j).1) (λ k. (t.terms1 k).dense) i in
          out0.additive ⊕ out1.additive ≡ out0.ole ⊗ out1.ole
    threads_lem a i l =
        let len = 3 ^ (b + d) in
        let a_cross = cross_products a c len in
        let each : ℕ → (ℕ → Store) → ℕ → Store =
          update_all (λ j x. foleage_fft (b + d) (len / 3) 0 x) in
        let fft_at : (n : ℕ) (s : ℕ → Store) (j : ℕ) → j < n → each n s j i ≡ transform (s j) i =
          λ n s j h. ap (λ x. x i) (update_all_at _ n s j h) in
        let x0 : ℕ → Store = λ j. (cross j).0 in
        let x1 : ℕ → Store = λ j. (cross j).1 in
        let s0 : ℕ → Store = λ k. (t.terms0 k).dense in
        let s1 : ℕ → Store = λ k. (t.terms1 k).dense in
        subst (λ (o : Entry × Entry). o.0.additive ⊕ o.1.additive ≡ o.0.ole ⊗ o.1.ole)
          (sym (
            ap₂ (λ o u. (o, u)) (thread_at (b + d) len c a a_cross x0 s0 i l)
              (thread_at (b + d) len c a a_cross x1 s1 i l)))
          (combine_lem c a a_cross (each (c * c) x0) (each (c * c) x1) (each c s0) (each c s1) i
            (λ j h. cross_products_at a c len j i few h l)
            (λ j h.
              ap₂ ◌⊕◌ (fft_at (c * c) x0 j h) (fft_at (c * c) x1 j h)
              ∙ transform_shares j i h l
              ∙ sym (
                  ap₂ ◌⊗◌ (fft_at c s0 (j / c) (row-lt c j h))
                    (fft_at c s1 (j % c) (column-lt c j h)))))

  -- Entry i of the two outputs, with the numbers that `ole_outputs` computes from its arguments.
  abbrev Shared : ℕ → ℕ → ℕ → ℕ → ℕ → Type 0
  Shared depth b d c i =
      let drawn = draw_a prng c (3 ^ depth) (0, λ k. zeros) in
      let a = drawn.1 in
      let nothing : ℕ → Term = λ k. blank_term in
      let start : Terms = record { drawn = drawn.0; terms0 = nothing; terms1 = nothing } in
      let t = sample_terms prng (3 ^ b) (3 ^ d) c start in
      let x = cross_terms foleage_fft add lib differ prng rands (3 ^ b) (3 ^ d) c t in
      let run =
        thread foleage_fft add lib differ prng rands depth (3 ^ depth) c a
          (cross_products a c (3 ^ depth)) in
      let out0 = run (λ j. (x j).0) (λ k. (t.terms0 k).dense) i in
      let out1 = run (λ j. (x j).1) (λ k. (t.terms1 k).dense) i in
      out0.additive ⊕ out1.additive ≡ out0.ole ⊗ out1.ole

  outputs-Shared :
      (b d c i : ℕ) → Fits b d → c * c < 2 ^ 31 → i < 3 ^ (b + d) → Shared (b + d) b d c i
  outputs-Shared b d c i fits few l =
      let drawn = draw_a prng c (3 ^ (b + d)) (0, λ k. zeros) in
      threads_lem b d c fits few _
        (λ k h. (sample_terms-IsSparse prng (3 ^ b) (3 ^ d) (pow_pos d) c drawn.0 k h).0)
        (λ k h. (sample_terms-IsSparse prng (3 ^ b) (3 ^ d) (pow_pos d) c drawn.0 k h).1) drawn.1 i
        l

  -- For a forward transform that evaluates, an addition of ternary digits and distributed point functions
  -- as the library describes them, and whatever is drawn at random: at each index below 3^depth, the sum of
  -- the two parties' `additive` is the product of their `ole`, when block_length is at most depth, and
  -- both it and the difference are at most 19, so that an `int` holds the powers of three, depth at most
  -- 32, and c * c below 2^31.
  pub ole_outputs_lem :
      (depth block_length c i : ℕ)
      → block_length ≤ depth
      → Fits block_length (depth - block_length)
      → c * c < 2 ^ 31
      → i < 3 ^ depth
      → let out = ole_outputs foleage_fft add lib differ prng rands depth block_length c in
        (out.0 i).additive ⊕ (out.1 i).additive ≡ (out.0 i).ole ⊗ (out.1 i).ole
  unfolding ole_outputs
  ole_outputs_lem depth block_length c i h fits few m =
      let d = depth - block_length in
      let e : block_length + d ≡ depth = omega arith in
      subst (λ n. Shared n block_length d c i) e
        (outputs-Shared block_length d c i fits few (subst (λ n. i < 3 ^ n) (sym e) m))

  -- For a forward transform that evaluates, an addition of ternary digits and distributed point functions
  -- as the library describes them, when the test `!=` tells no block from itself, block_length is at most
  -- depth, and both it and the difference are at most 19, depth at most 32, and c * c below 2^31: the run ends
  -- without an exception, although its check throws for any outputs that `!=` finds wrong at some index
  -- below 3^depth.
  pub extension_field_ole-none :
      (depth block_length c : ℕ) (out0 out1 : ℕ → Entry) (i : ℕ)
      → ((x : Block) → differ x x ≡ false)
      → block_length ≤ depth
      → Fits block_length (depth - block_length)
      → c * c < 2 ^ 31
      → i < 3 ^ depth
      → differ ((out0 i).ole ⊗ (out1 i).ole) ((out0 i).additive ⊕ (out1 i).additive) ≡ true
      → (extension_field_ole foleage_fft add lib differ prng rands depth block_length c ≡ none)
        × (first_mismatch differ out0 out1 (3 ^ depth) 0 ≢ none)
  unfolding extension_field_ole
  extension_field_ole-none depth block_length c out0 out1 i same h fits few l wrong = (
    first_mismatch-none differ _ _ (3 ^ depth) (3 ^ depth) 0 same
        (λ j m. ole_outputs_lem depth block_length c j h fits few m) (omega arith),
    first_mismatch-found differ out0 out1 (3 ^ depth) 0 i (omega arith) (omega arith) wrong,
  )
