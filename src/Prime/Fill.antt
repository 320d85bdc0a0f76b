-- ===== src/Prime/Fill.antt =====
-- A loop that writes an array from one end to the other, as those of the vector and matrix operations
-- of Coeff128.h do: the result is an array of its own, and keeps what the loop does not write.
use extension_field_pcg.Common.{first_or_later}
use extension_field_pcg.Common.{ℕ, zero, suc, ◌+◌, ◌≤◌, ◌<◌, ◌≡◌, refl, sym, ap, ◌∙◌, subst, arith}
use extension_field_pcg.Common.{inl, inr, write, write_self, write_other}

-- `ret[i] = f(i)` for i from `i` on, with `left` rounds to go.
unfoldable pub fill {ℓ} : {A : Type ℓ} → (ℕ → A → A) → ℕ → ℕ → (ℕ → A) → ℕ → A
fill f zero i ret = ret
fill f (suc left) i ret = fill f left (suc i) (write ret i (f i (ret i)))

fill_before {ℓ} :
    {A : Type ℓ} (f : ℕ → A → A) (left i : ℕ) (ret : ℕ → A) (t : ℕ)
    → t < i
    → fill f left i ret t ≡ ret t
unfolding fill
fill_before f zero i ret t h = refl
fill_before f (suc left) i ret t h =
    fill_before f left (suc i) (write ret i (f i (ret i))) t (omega arith)
    ∙ write_other ret i t _ (omega arith)

-- An entry that is written holds what its round computes.
pub fill_at {ℓ} :
    {A : Type ℓ} (f : ℕ → A → A) (left i : ℕ) (ret : ℕ → A) (t : ℕ)
    → i ≤ t
    → t < i + left
    → fill f left i ret t ≡ f t (ret t)
unfolding fill
fill_at f zero i ret t l u = absurd (omega arith)
fill_at f (suc left) i ret t l u =
    let next = write ret i (f i (ret i)) in
    elim (first_or_later i t l) [
      | inl e ↦
          subst (λ x. fill f left (suc i) next x ≡ f x (ret x)) (sym e)
            (fill_before f left (suc i) next i (omega arith) ∙ write_self ret i _)
      | inr later ↦
          fill_at f left (suc i) next t later (omega arith)
          ∙ ap (f t) (write_other ret i t _ (omega arith))
    ]
