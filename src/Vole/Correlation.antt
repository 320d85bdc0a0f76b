-- ===== src/Vole/Correlation.antt =====
-- The outputs of the two parties, after the encoding, and what they ask of the library.
use extension_field_pcg.Common.{equal_or_not}
use extension_field_pcg.Common.{
  ℕ, zero, suc, ◌+◌, ◌*◌, ◌/◌, ◌^◌, ◌≤◌, ◌<◌, ◌≡◌, refl, sym, ap, ap₂, ◌∙◌, arith,
}
use extension_field_pcg.Common.{◌⊎◌, inl, inr, [], ◌∷◌, subst}
use extension_field_pcg.Algebra.{◌⊕◌, ◌⊗◌, mul-nil, add-nil}
use extension_field_pcg.Algebra.Solver.{var, ◌:+◌, ◌:*◌, solve, norm}
use extension_field_pcg.Algebra.Cube.{Triple-eq, evaluate}
use extension_field_pcg.Algebra.Cube.Linear.{scaled_sum, evaluate-scaled_sum}
use extension_field_pcg.F4.Ring.{Block, f4_ring}
use extension_field_pcg.Fft.{Store}
use extension_field_pcg.Fft.Root.{root}
use extension_field_pcg.Fft.View.{cube, cube_congr, cube_at}
use extension_field_pcg.Fft.Inverse.{IsForwardFft}
use extension_field_pcg.Vole.Defs.{
  Vector, negated, noise_loop, round_log3, int_size, int_size_small, encode, receiver_output,
  sender_output,
}
use extension_field_pcg.Vole.Noise.{IsDistinct, Avoids, noise_loop_at, noise_loop_other, negated_at}

-- b + delta c, as a store.
abbrev pub shifted : Block → Store → Store → Store
shifted delta b c i = b i ⊕ delta ⊗ c i

cube-shifted :
    (delta : Block) (b c : Store) (k base : ℕ)
    → cube k base (shifted delta b c) ≡ scaled_sum f4_ring k delta (cube k base b) (cube k base c)
cube-shifted delta b c zero base = refl
cube-shifted delta b c (suc k) base =
    Triple-eq (cube-shifted delta b c k base) (cube-shifted delta b c k (base + 3 ^ k))
      (cube-shifted delta b c k (base + 2 * 3 ^ k))

-- A transform that evaluates keeps the correlation of a span.
module _ (foleage_fft : ℕ → ℕ → ℕ → Store → Store) (forward : IsForwardFft foleage_fft) where
  fft_correlation :
      (delta : Block) (a b c : Store) (k : ℕ)
      → ((t : ℕ) → t < 3 ^ k → a t ≡ shifted delta b c t)
      → (i : ℕ) → i < 3 ^ k
      → foleage_fft k (3 ^ k / 3) 0 a i
        ≡ shifted delta (foleage_fft k (3 ^ k / 3) 0 b) (foleage_fft k (3 ^ k / 3) 0 c) i
  fft_correlation delta a b c k h i l =
      let f = foleage_fft k (3 ^ k / 3) 0 in
      cube_at k 0 (f a) (shifted delta (f b) (f c))
        (forward.evaluates k 0 a
          ∙ ap (evaluate f4_ring root k)
              (cube_congr k 0 a (shifted delta b c) (λ t u. h' t u) ∙ cube-shifted delta b c k 0)
          ∙ evaluate-scaled_sum f4_ring root k delta (cube k 0 b) (cube k 0 c)
          ∙ ap₂ (scaled_sum f4_ring k delta) (sym (forward.evaluates k 0 b))
              (sym (forward.evaluates k 0 c))
          ∙ sym (cube-shifted delta (f b) (f c) k 0))
        i (omega arith) (omega arith)
    where
      h' : (t : ℕ) → t < 3 ^ k → a (0 + t) ≡ shifted delta b c (0 + t)
      h' t u = h (0 + t) (omega arith)

-- What the noisy VOLE gives: a = b + delta c, in each of the first `count` entries.
pub record IsNoisyVole (delta : Block) (count : ℕ) (b base_a base_c : Vector) : Type 0 where
  pub enough : count ≤ b.size
  pub correlated : (t : ℕ) → t < count → base_a.at t ≡ b.at t ⊕ delta ⊗ base_c.at t

-- What the expansion of the PPRF gives, by the comments of `silentReceiveInplace`: the two parties'
-- blocks agree, but at the punctured positions they differ by the sender's values.
pub record IsExpansion (s : ℕ → ℕ) (count : ℕ) (value sender receiver : Vector) : Type 0 where
  pub distinct : IsDistinct s count
  pub same_size : receiver.size ≡ sender.size
  pub punctured : (t : ℕ) → t < count → receiver.at (s t) ≡ sender.at (s t) ⊕ value.at t
  pub elsewhere : (i : ℕ) → i < sender.size → Avoids s 0 count i → receiver.at i ≡ sender.at i

-- A position is one of those listed, or none.
find : (s : ℕ → ℕ) (count i : ℕ) → ((t : ℕ) × (t < count) × (i ≡ s t)) ⊎ Avoids s 0 count i
find s zero i = inr (λ t l u. absurd (omega arith))
find s (suc n) i = elim (find s n i) [
  | inl (t, h, e) ↦ inl (t, omega arith, e)
  | inr none_before ↦ elim (equal_or_not i (s n)) [
    | inl e ↦ inl (n, omega arith, e)
    | inr d ↦ inr λ t l u. elim (equal_or_not t n) [
      | inl e ↦ λ p. d (p ∙ ap s e)
      | inr d' ↦ none_before t l (omega arith)
    ]
  ]
]

-- The noisy coordinates complete the correlation of the expanded vectors.
module _ (delta : Block) (s : ℕ → ℕ) (count : ℕ) (b base_a base_c sender receiver : Vector)
    (vole : IsNoisyVole delta count b base_a base_c)
    (expansion : IsExpansion s count (negated b) sender receiver) where
  abbrev noisy : Store × Store
  noisy = noise_loop s base_a.at base_c.at count 0 (receiver.at, λ i. f4_ring.nil)

  at_noise : (t : ℕ) → t < count → noisy.0 (s t) ≡ shifted delta sender.at noisy.1 (s t)
  unfolding norm
  at_noise t h =
      let (p, q) =
        noise_loop_at s base_a.at base_c.at count 0 (receiver.at, λ i. f4_ring.nil)
          (λ v w x y d. expansion.distinct v w (omega arith) (omega arith) d) t (omega arith)
          (omega arith) in
      let env = sender.at (s t) ∷ b.at t ∷ delta ∷ base_c.at t ∷ [] in
      p
      ∙ ap₂ ◌⊕◌
          (expansion.punctured t h
            ∙ ap (λ x. sender.at (s t) ⊕ x) (negated_at b t (omega (arith, vole.enough))))
          (vole.correlated t h)
      ∙ solve env (var 0 :+ var 1 :+ (var 1 :+ var 2 :* var 3)) (var 0 :+ var 2 :* var 3) refl
      ∙ ap (λ x. sender.at (s t) ⊕ delta ⊗ x) (sym q)

  off_noise :
      (i : ℕ) → i < sender.size → Avoids s 0 count i → noisy.0 i ≡ shifted delta sender.at noisy.1 i
  off_noise i l h =
      let (p, q) =
        noise_loop_other s base_a.at base_c.at count 0 (receiver.at, λ i. f4_ring.nil) i h in
      p
      ∙ expansion.elsewhere i l h
      ∙ sym (add-nil (sender.at i))
      ∙ ap (λ x. sender.at i ⊕ x) (sym (ap (λ x. delta ⊗ x) q ∙ mul-nil delta))

  noise_correlation : (i : ℕ) → i < sender.size → noisy.0 i ≡ shifted delta sender.at noisy.1 i
  noise_correlation i l = elim (find s count i) [
    | inl (t, h, e) ↦
        subst (λ x. noisy.0 x ≡ shifted delta sender.at noisy.1 x) (sym e) (at_noise t h)
    | inr h ↦ off_noise i l h
  ]

-- If the forward transform evaluates as the library describes it, the small VOLE gives a = b + delta c
-- for each noisy position, and the expansion gives two vectors that differ exactly by the sender's
-- negated values at distinct positions, then the buffers that the receiver and the sender end with
-- satisfy mA[i] = mB[i] + delta mC[i], for every i below the power of three that they are encoded to,
-- provided that this power is at most the length of the vectors, and that an `int` holds it.
pub receiver_output-sender_output :
    (foleage_fft : ℕ → ℕ → ℕ → Store → Store)
    → IsForwardFft foleage_fft
    → (delta : Block) (s : ℕ → ℕ) (count : ℕ) (b base_a base_c sender receiver : Vector)
    → IsNoisyVole delta count b base_a base_c
    → IsExpansion s count (negated b) sender receiver
    → 3 ^ round_log3 sender.size ≤ sender.size
    → 3 ^ round_log3 sender.size < 2 ^ 31
    → (i : ℕ) → i < 3 ^ round_log3 sender.size
    → ((receiver_output foleage_fft s count base_a base_c receiver).0).at i
      ≡ (sender_output foleage_fft sender).at i
        ⊕ delta ⊗ ((receiver_output foleage_fft s count base_a base_c receiver).1).at i
unfolding receiver_output sender_output encode
receiver_output-sender_output fft forward delta s count b base_a base_c sender receiver vole
      expansion fits small i l =
    let ac = noise_loop s base_a.at base_c.at count 0 (receiver.at, λ i. f4_ring.nil) in
    let k = round_log3 sender.size in
    subst
      (λ n.
        fft (round_log3 n) (int_size (3 ^ round_log3 n) / 3) 0 ac.0 i
        ≡ shifted delta (fft k (int_size (3 ^ k) / 3) 0 sender.at)
            (fft (round_log3 n) (int_size (3 ^ round_log3 n) / 3) 0 ac.1) i)
      (sym expansion.same_size)
      (subst
        (λ z.
          fft k (z / 3) 0 ac.0 i
          ≡ shifted delta (fft k (z / 3) 0 sender.at) (fft k (z / 3) 0 ac.1) i)
        (sym (int_size_small (3 ^ k) small))
        (fft_correlation fft forward delta ac.0 sender.at ac.1 k
          (λ t h.
            noise_correlation delta s count b base_a base_c sender receiver vole expansion t
              (omega arith))
          i l))
