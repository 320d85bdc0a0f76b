-- ===== src/Vole/Noise.antt =====
-- The loop over the noisy positions and the sender's loop: what each address holds afterwards.
use extension_field_pcg.Common.{first_or_later}
use extension_field_pcg.Common.{
  ℕ, zero, suc, ◌+◌, ◌≤◌, ◌<◌, ◌≡◌, ◌≢◌, refl, sym, ap, ◌∙◌, subst, arith,
}
use extension_field_pcg.Common.{inl, inr}
use extension_field_pcg.Algebra.{◌⊕◌}
use extension_field_pcg.F4.Ring.{f4_ring}
use extension_field_pcg.Fft.{Store}
use extension_field_pcg.Common.{write}
use extension_field_pcg.Common.{write_self, write_other}
use extension_field_pcg.Vole.Defs.{noise_loop, minus_loop, negated, Vector}

-- The position `at` is none of those with index from i to i + left.
abbrev pub Avoids : (ℕ → ℕ) → ℕ → ℕ → ℕ → Type 0
Avoids s i left at = (t : ℕ) → i ≤ t → t < i + left → at ≢ s t

pub noise_loop_other :
    (s : ℕ → ℕ) (base_a base_c : Store) (left i : ℕ) (ac : Store × Store) (at : ℕ)
    → Avoids s i left at
    → ((noise_loop s base_a base_c left i ac).0 at ≡ ac.0 at)
      × ((noise_loop s base_a base_c left i ac).1 at ≡ ac.1 at)
unfolding noise_loop
noise_loop_other s base_a base_c zero i ac at h = (refl, refl)
noise_loop_other s base_a base_c (suc left) i ac at h =
    let away : at ≢ s i = h i (omega arith) (omega arith) in
    let (p, q) =
      noise_loop_other s base_a base_c left (suc i)
        (write ac.0 (s i) (ac.0 (s i) ⊕ base_a i), write ac.1 (s i) (base_c i)) at
        (λ t l u. h t (omega arith) (omega arith)) in
    (p ∙ write_other ac.0 (s i) at _ away, q ∙ write_other ac.1 (s i) at _ away)

-- Positions that differ.
abbrev pub IsDistinct : (ℕ → ℕ) → ℕ → Type 0
IsDistinct s count = (t u : ℕ) → t < count → u < count → s t ≡ s u → t ≡ u

pub noise_loop_at :
    (s : ℕ → ℕ) (base_a base_c : Store) (left i : ℕ) (ac : Store × Store)
    → IsDistinct s (i + left)
    → (t : ℕ) → i ≤ t
    → t < i + left
    → ((noise_loop s base_a base_c left i ac).0 (s t) ≡ ac.0 (s t) ⊕ base_a t)
      × ((noise_loop s base_a base_c left i ac).1 (s t) ≡ base_c t)
unfolding noise_loop
noise_loop_at s base_a base_c zero i ac h t l u = absurd (omega arith)
noise_loop_at s base_a base_c (suc left) i ac h t l u =
    let next : Store × Store =
      (write ac.0 (s i) (ac.0 (s i) ⊕ base_a i), write ac.1 (s i) (base_c i)) in
    elim (first_or_later i t l) [
      | inl e ↦
          let (p, q) =
            noise_loop_other s base_a base_c left (suc i) next (s i)
              (λ v x y d. absurd (omega (arith, h i v (omega arith) (omega arith) d))) in
          subst
            (λ v.
              ((noise_loop s base_a base_c left (suc i) next).0 (s v) ≡ ac.0 (s v) ⊕ base_a v)
              × ((noise_loop s base_a base_c left (suc i) next).1 (s v) ≡ base_c v))
            (sym e) (p ∙ write_self ac.0 (s i) _, q ∙ write_self ac.1 (s i) _)
      | inr later ↦
          let (p, q) =
            noise_loop_at s base_a base_c left (suc i) next
              (λ v w x y d. h v w (omega arith) (omega arith) d) t later (omega arith) in
          let away : s t ≢ s i = λ d. absurd (omega (arith, h t i (omega arith) (omega arith) d)) in
          (p ∙ ap (λ z. z ⊕ base_a t) (write_other ac.0 (s i) (s t) _ away), q)
    ]

minus_loop_before :
    (b : Store) (left i : ℕ) (base_b : Store) (t : ℕ)
    → t < i
    → minus_loop b left i base_b t ≡ base_b t
unfolding minus_loop
minus_loop_before b zero i base_b t h = refl
minus_loop_before b (suc left) i base_b t h =
    minus_loop_before b left (suc i) (write base_b i (base_b i ⊕ b i)) t (omega arith)
    ∙ write_other base_b i t _ (omega arith)

minus_loop_at :
    (b : Store) (left i : ℕ) (base_b : Store) (t : ℕ)
    → i ≤ t
    → t < i + left
    → minus_loop b left i base_b t ≡ base_b t ⊕ b t
unfolding minus_loop
minus_loop_at b zero i base_b t l u = absurd (omega arith)
minus_loop_at b (suc left) i base_b t l u =
    let next = write base_b i (base_b i ⊕ b i) in
    elim (first_or_later i t l) [
      | inl e ↦
          subst (λ v. minus_loop b left (suc i) next v ≡ base_b v ⊕ b v) (sym e)
            (minus_loop_before b left (suc i) next i (omega arith) ∙ write_self base_b i _)
      | inr later ↦
          minus_loop_at b left (suc i) next t later (omega arith)
          ∙ ap (λ z. z ⊕ b t) (write_other base_b i t _ (omega arith))
    ]

-- Every entry is subtracted from zero, which leaves it as it is.
pub negated_at : (b : Vector) (t : ℕ) → t < b.size → (negated b).at t ≡ b.at t
unfolding negated
negated_at b t h =
    minus_loop_at b.at b.size 0 (λ i. f4_ring.nil) t (omega arith) (omega arith)
    ∙ f4_ring.nil-add (b.at t)
