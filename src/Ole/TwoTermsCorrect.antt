-- ===== src/Ole/TwoTermsCorrect.antt =====
-- The outputs of `Extension_Field_OLE` with two terms of each party.
use native.Mathlib.Nat.{mod-lt}
use extension_field_pcg.Common.{
  ℕ, ◌+◌, ◌-◌, ◌/◌, ◌^◌, ◌<◌, ◌≤◌, ◌≡◌, refl, sym, ap, ap₂, ◌∙◌, subst, arith, [], ◌∷◌, Bool, true,
  false, ◌≢◌, none, inl, inr,
}
use extension_field_pcg.Common.{write, write_self, write_other, equal_or_not}
use extension_field_pcg.Loop.{loop, loop_from_zero, update_all, update_all_at}
use extension_field_pcg.Algebra.{◌⊕◌, ◌⊗◌}
use extension_field_pcg.Algebra.Solver.{var, ◌:+◌, ◌:*◌, solve, norm}
use extension_field_pcg.F4.Ring.{Block, f4_ring}
use extension_field_pcg.Fft.{Store}
use extension_field_pcg.Fft.Inverse.{IsForwardFft}
use extension_field_pcg.Fft.Ternary.{IsTernary, pow_pos}
use extension_field_pcg.Ole.Dpf.{Randomness, TernaryDpf}
use extension_field_pcg.Ole.Products.{IsDpf, Fits}
use extension_field_pcg.Ole.Sampling.{Prng, blank_term, IsSparse, set_term-IsSparse, blank-IsSparse}
use extension_field_pcg.Ole.Run.{zeros, Entry, first_mismatch}
use extension_field_pcg.Ole.Combine.{first_mismatch-none, first_mismatch-found}
use extension_field_pcg.Ole.Pair.{foleage_fft-dpf}
use extension_field_pcg.Ole.TwoTerms.{
  Dense, draw_square, TwoTerms, sample_two, combine_two, thread_two, four_terms, two_outputs,
  extension_field_ole_two,
}

draw_square_at :
    (prng : Prng) (length : ℕ) (start : Dense) (i : ℕ)
    → i < length
    → (draw_square prng length start).a_square i
      ≡ (draw_square prng length start).a i ⊗ (draw_square prng length start).a i
unfolding draw_square
draw_square_at prng length start =
    loop_from_zero (λ j u. (i : ℕ) → i < j → u.a_square i ≡ u.a i ⊗ u.a i) _ length start
      (λ j u l before i m. elim (equal_or_not i j) [
        | inl e ↦
            ap (write u.a_square j _) e
            ∙ write_self u.a_square j _
            ∙ ap (λ x. write u.a j (prng.block u.drawn) x ⊗ write u.a j (prng.block u.drawn) x)
                (sym e)
        | inr d ↦
            write_other u.a_square j i _ d
            ∙ before i (omega arith)
            ∙ sym (ap₂ ◌⊗◌ (write_other u.a j i _ d) (write_other u.a j i _ d))
      ])
      (λ i l. absurd (omega arith))

-- The four terms are sparse.
record AreSparse (domain n : ℕ) (t : TwoTerms) : Type 0 where
  s0 : IsSparse domain n t.s0
  s1 : IsSparse domain n t.s1
  e0 : IsSparse domain n t.e0
  e1 : IsSparse domain n t.e1

sample_two-AreSparse :
    (prng : Prng) (domain n drawn : ℕ)
    → 0 < domain
    → AreSparse domain n (
        loop (sample_two prng domain) n 0 (record {
          drawn = drawn;
          s0 = blank_term;
          s1 = blank_term;
          e0 = blank_term;
          e1 = blank_term;
        }))
unfolding sample_two
sample_two-AreSparse prng domain n drawn pos =
    let one : IsSparse domain 0 blank_term = blank-IsSparse prng n domain pos in
    loop_from_zero (AreSparse domain) (sample_two prng domain) n _
      (λ j r l before. record {
        s0 = set_term-IsSparse domain j _ _ r.s0 (mod-lt (prng.word r.drawn) pos) before.s0;
        s1 = set_term-IsSparse domain j _ _ r.s1 (mod-lt (prng.word (r.drawn + 1)) pos) before.s1;
        e0 = set_term-IsSparse domain j _ _ r.e0 (mod-lt (prng.word (r.drawn + 2)) pos) before.e0;
        e1 = set_term-IsSparse domain j _ _ r.e1 (mod-lt (prng.word (r.drawn + 3)) pos) before.e1;
      })
      (record { s0 = one; s1 = one; e0 = one; e1 = one })

-- When the four products are shared at index i, so is the product of the combinations.
combine_two_lem :
    (d : Dense) (x y : ℕ → Store) (s0 s1 e0 e1 : Store) (i : ℕ)
    → d.a_square i ≡ d.a i ⊗ d.a i
    → x 0 i ⊕ y 0 i ≡ s0 i ⊗ s1 i
    → x 1 i ⊕ y 1 i ≡ s0 i ⊗ e1 i
    → x 2 i ⊕ y 2 i ≡ e0 i ⊗ s1 i
    → x 3 i ⊕ y 3 i ≡ e0 i ⊗ e1 i
    → (combine_two d x s0 e0 i).additive ⊕ (combine_two d y s1 e1 i).additive
      ≡ (combine_two d x s0 e0 i).ole ⊗ (combine_two d y s1 e1 i).ole
unfolding combine_two norm
combine_two_lem d x y s0 s1 e0 e1 i square h0 h1 h2 h3 =
    solve
      (d.a_square i ∷ d.a i ∷ x 0 i ∷ x 1 i ∷ x 2 i ∷ x 3 i ∷ y 0 i ∷ y 1 i ∷ y 2 i ∷ y 3 i ∷ [])
      (var 0 :* var 2
        :+ var 1 :* var 3
        :+ var 1 :* var 4
        :+ var 5
        :+ (var 0 :* var 6 :+ var 1 :* var 7 :+ var 1 :* var 8 :+ var 9))
      (var 0 :* (var 2 :+ var 6)
        :+ var 1 :* (var 3 :+ var 7)
        :+ var 1 :* (var 4 :+ var 8)
        :+ (var 5 :+ var 9))
      refl
    ∙ ap₂ ◌⊕◌
        (ap₂ ◌⊕◌ (ap₂ ◌⊕◌ (ap₂ ◌⊗◌ square h0) (ap (λ z. d.a i ⊗ z) h1)) (ap (λ z. d.a i ⊗ z) h2)) h3
    ∙ solve (d.a i ∷ s0 i ∷ s1 i ∷ e0 i ∷ e1 i ∷ [])
        (var 0 :* var 0 :* (var 1 :* var 2)
          :+ var 0 :* (var 1 :* var 4)
          :+ var 0 :* (var 3 :* var 2)
          :+ var 3 :* var 4)
        ((var 3 :+ var 0 :* var 1) :* (var 4 :+ var 0 :* var 2)) refl

module _ (foleage_fft : ℕ → ℕ → ℕ → Store → Store) (forward : IsForwardFft foleage_fft)
    (add : ℕ → ℕ → ℕ) (ternary : IsTernary add) (lib : TernaryDpf) (is_dpf : IsDpf add lib)
    (differ : Block → Block → Bool) (prng : Prng) (rands : ℕ → Randomness) where
  -- Entry i of the two outputs, for numbers of the code and any terms.
  abbrev SharedTwo : ℕ → ℕ → ℕ → ℕ → Dense → TwoTerms → Type 0
  SharedTwo depth n domain i d t =
      let x = four_terms foleage_fft add lib differ prng rands n domain t in
      let run = thread_two foleage_fft add lib differ prng rands depth (3 ^ depth) d in
      let out0 = run (λ j. (x j).0) t.s0.dense t.e0.dense i in
      let out1 = run (λ j. (x j).1) t.s1.dense t.e1.dense i in
      out0.additive ⊕ out1.additive ≡ out0.ole ⊗ out1.ole

  four_terms-SharedTwo :
      (b d i : ℕ) (a : Dense) (t : TwoTerms)
      → Fits b d
      → i < 3 ^ (b + d)
      → AreSparse (3 ^ d) (3 ^ b) t
      → a.a_square i ≡ a.a i ⊗ a.a i
      → SharedTwo (b + d) (3 ^ b) (3 ^ d) i a t
  unfolding four_terms thread_two
  four_terms-SharedTwo b d i a t fits l h square =
      let len = 3 ^ (b + d) in
      let transform : Store → Store = foleage_fft (b + d) (len / 3) 0 in
      let four : (ℕ → Store) → ℕ → Store = update_all (λ j y. transform y) 4 in
      let x = four_terms foleage_fft add lib differ prng rands (3 ^ b) (3 ^ d) t in
      let x0 : ℕ → Store = λ j. (x j).0 in
      let x1 : ℕ → Store = λ j. (x j).1 in
      let fft_at : (j : ℕ)
          → j < 4
          → four x0 j i ⊕ four x1 j i ≡ transform (x0 j) i ⊕ transform (x1 j) i =
        λ j m.
          ap₂ ◌⊕◌ (ap (λ y. y i) (update_all_at _ 4 x0 j m))
            (ap (λ y. y i) (update_all_at _ 4 x1 j m)) in
      let pair = foleage_fft-dpf foleage_fft forward add ternary lib is_dpf b d fits in
      subst (λ (o : Entry × Entry). o.0.additive ⊕ o.1.additive ≡ o.0.ole ⊗ o.1.ole)
        (sym (ap₂ (λ o u. (o, u)) (update_all_at _ len _ i l) (update_all_at _ len _ i l)))
        (combine_two_lem a (four x0) (four x1) (transform t.s0.dense) (transform t.s1.dense)
          (transform t.e0.dense) (transform t.e1.dense) i square
          (fft_at 0 (omega arith) ∙ pair (rands 0) t.s0 t.s1 h.s0 h.s1 i l)
          (fft_at 1 (omega arith) ∙ pair (rands 1) t.s0 t.e1 h.s0 h.e1 i l)
          (fft_at 2 (omega arith) ∙ pair (rands 2) t.e0 t.s1 h.e0 h.s1 i l)
          (fft_at 3 (omega arith) ∙ pair (rands 3) t.e0 t.e1 h.e0 h.e1 i l))

  -- For a forward transform that evaluates, an addition of ternary digits and distributed point functions
  -- as the library describes them, and whatever is drawn at random: at each index below 3^depth, the sum of
  -- the two parties' `additive` is the product of their `ole`, when block_length is at most depth, and
  -- both it and the difference are at most 19, so that an `int` holds the powers of three, and depth at most 32.
  pub two_outputs_lem :
      (depth block_length i : ℕ)
      → block_length ≤ depth
      → Fits block_length (depth - block_length)
      → i < 3 ^ depth
      → let out = two_outputs foleage_fft add lib differ prng rands depth block_length in
        (out.0 i).additive ⊕ (out.1 i).additive ≡ (out.0 i).ole ⊗ (out.1 i).ole
  unfolding two_outputs
  two_outputs_lem depth block_length i h fits m =
      let d = depth - block_length in
      let e : block_length + d ≡ depth = omega arith in
      let a = draw_square prng (3 ^ depth) (record { drawn = 0; a = zeros; a_square = zeros }) in
      let blank : TwoTerms = record {
        drawn = a.drawn;
        s0 = blank_term;
        s1 = blank_term;
        e0 = blank_term;
        e1 = blank_term;
      } in
      let t = loop (sample_two prng (3 ^ d)) (3 ^ block_length) 0 blank in
      subst (λ n. SharedTwo n (3 ^ block_length) (3 ^ d) i a t) e
        (four_terms-SharedTwo block_length d i a t fits (subst (λ n. i < 3 ^ n) (sym e) m)
          (sample_two-AreSparse prng (3 ^ d) (3 ^ block_length) a.drawn (pow_pos d))
          (draw_square_at prng (3 ^ depth) _ i m))

  -- For a forward transform that evaluates, an addition of ternary digits and distributed point functions
  -- as the library describes them, when the test `!=` tells no block from itself, block_length is at most
  -- depth, both it and the difference are at most 19, and depth at most 32: the run ends without an exception,
  -- although its check throws for any outputs that `!=` finds wrong at some index below 3^depth.
  pub extension_field_ole_two-none :
      (depth block_length : ℕ) (out0 out1 : ℕ → Entry) (i : ℕ)
      → ((x : Block) → differ x x ≡ false)
      → block_length ≤ depth
      → Fits block_length (depth - block_length)
      → i < 3 ^ depth
      → differ ((out0 i).ole ⊗ (out1 i).ole) ((out0 i).additive ⊕ (out1 i).additive) ≡ true
      → (extension_field_ole_two foleage_fft add lib differ prng rands depth block_length ≡ none)
        × (first_mismatch differ out0 out1 (3 ^ depth) 0 ≢ none)
  unfolding extension_field_ole_two
  extension_field_ole_two-none depth block_length out0 out1 i same h fits l wrong = (
    first_mismatch-none differ _ _ (3 ^ depth) (3 ^ depth) 0 same
        (λ j m. two_outputs_lem depth block_length j h fits m) (omega arith),
    first_mismatch-found differ out0 out1 (3 ^ depth) 0 i (omega arith) (omega arith) wrong,
  )
