-- ===== src/Vole/Sharing.antt =====
-- `VOLE_QASD` of test.h for blocks: each party's combination of its two VOLEs by a public vector, and
-- the check of the result. `vol` stands for `Vol`.
use extension_field_pcg.Common.{first_or_later}
use extension_field_pcg.Common.{
  ℕ, zero, suc, ◌+◌, ◌≤◌, ◌<◌, ◌≡◌, refl, sym, ap, ap₂, ◌∙◌, arith, [], ◌∷◌,
}
use extension_field_pcg.Common.{Bool, true, ◌&&◌, inl, inr, subst}
use extension_field_pcg.Algebra.{◌⊕◌, ◌⊗◌}
use extension_field_pcg.Algebra.Solver.{var, ◌:+◌, ◌:*◌, solve, norm}
use extension_field_pcg.F4.Ring.{Block, f4_ring}
use extension_field_pcg.Fft.{Store}
use extension_field_pcg.Common.{write}
use extension_field_pcg.Common.{write_self, write_other}

-- `mul(v[i], a[i], s[i]); plus(v[i], v[i], e[i]);` for i from `i` on, with `left` rounds to go. The
-- receiver's loop does this for `Vol` and for `addshare1`, which are separate vectors.
unfoldable pub combine_loop : Store → Store → Store → ℕ → ℕ → Store → Store
combine_loop a s e zero i v = v
combine_loop a s e (suc left) i v =
    let w = write v i (a i ⊗ s i) in combine_loop a s e left (suc i) (write w i (w i ⊕ e i))

combine_loop_before :
    (a s e : Store) (left i : ℕ) (v : Store) (t : ℕ) → t < i → combine_loop a s e left i v t ≡ v t
unfolding combine_loop
combine_loop_before a s e zero i v t h = refl
combine_loop_before a s e (suc left) i v t h =
    combine_loop_before a s e left (suc i) _ t (omega arith)
    ∙ write_other _ i t _ (omega arith)
    ∙ write_other v i t _ (omega arith)

combine_loop_at :
    (a s e : Store) (left i : ℕ) (v : Store) (t : ℕ)
    → i ≤ t
    → t < i + left
    → combine_loop a s e left i v t ≡ a t ⊗ s t ⊕ e t
unfolding combine_loop
combine_loop_at a s e zero i v t l u = absurd (omega arith)
combine_loop_at a s e (suc left) i v t l u =
    let w = write v i (a i ⊗ s i) in
    elim (first_or_later i t l) [
      | inl p ↦
          subst (λ x. combine_loop a s e left (suc i) (write w i (w i ⊕ e i)) x ≡ a x ⊗ s x ⊕ e x)
            (sym p)
            (combine_loop_before a s e left (suc i) (write w i (w i ⊕ e i)) i (omega arith)
              ∙ write_self w i _
              ∙ ap (λ x. x ⊕ e i) (write_self v i _))
      | inr later ↦ combine_loop_at a s e left (suc i) (write w i (w i ⊕ e i)) t later (omega arith)
    ]

-- The test of round i: `exp = d * Vol[i] + addshare2[i]` is `addshare1[i]`, by the context's `eq`.
-- A failure throws.
unfoldable pub check_loop : (Block → Block → Bool) → Block → Store → Store → Store → ℕ → ℕ → Bool
check_loop eq d vol addshare1 addshare2 zero i = true
check_loop eq d vol addshare1 addshare2 (suc left) i =
    let rest = check_loop eq d vol addshare1 addshare2 left (suc i) in
    let exp = d ⊗ vol i in let exp' = exp ⊕ addshare2 i in eq (addshare1 i) exp' && rest

-- The whole computation on the outputs of the two runs of the silent VOLE: s, s1 and e, e1 of the
-- receiver, s2 and e2 of the sender.
unfoldable pub vole_qasd :
    (Block → Block → Bool)
    → ℕ
    → Block
    → Store
    → Store
    → Store
    → Store
    → Store
    → Store
    → Store
    → Bool
vole_qasd eq n d a s e s1 e1 s2 e2 =
    let none_yet = λ (i : ℕ). f4_ring.nil in
    let vol = combine_loop a s e n 0 none_yet in
    let addshare1 = combine_loop a s1 e1 n 0 none_yet in
    let addshare2 = combine_loop a s2 e2 n 0 none_yet in check_loop eq d vol addshare1 addshare2 n 0

check_loop-true :
    (eq : Block → Block → Bool)
    → ((x : Block) → eq x x ≡ true)
    → (d : Block) (vol addshare1 addshare2 : Store) (left i : ℕ)
    → ((t : ℕ) → i ≤ t → t < i + left → addshare1 t ≡ d ⊗ vol t ⊕ addshare2 t)
    → check_loop eq d vol addshare1 addshare2 left i ≡ true
unfolding check_loop
check_loop-true eq reflexive d vol addshare1 addshare2 zero i h = refl
check_loop-true eq reflexive d vol addshare1 addshare2 (suc left) i h =
    ap₂ ◌&&◌
      (ap (λ x. eq x (d ⊗ vol i ⊕ addshare2 i)) (h i (omega arith) (omega arith))
        ∙ reflexive (d ⊗ vol i ⊕ addshare2 i))
      (check_loop-true eq reflexive d vol addshare1 addshare2 left (suc i)
        (λ t l u. h t (omega arith) (omega arith)))

-- The two shares of an entry differ by d times the entry, if those of s and e do.
share_correlation :
    (d a s e s1 e1 s2 e2 : Block)
    → s1 ≡ s2 ⊕ d ⊗ s
    → e1 ≡ e2 ⊕ d ⊗ e
    → a ⊗ s1 ⊕ e1 ≡ d ⊗ (a ⊗ s ⊕ e) ⊕ (a ⊗ s2 ⊕ e2)
unfolding norm
share_correlation d a s e s1 e1 s2 e2 p q =
    ap₂ (λ x y. a ⊗ x ⊕ y) p q
    ∙ solve (d ∷ a ∷ s ∷ e ∷ s2 ∷ e2 ∷ [])
        (var 1 :* (var 4 :+ var 0 :* var 2) :+ (var 5 :+ var 0 :* var 3))
        (var 0 :* (var 1 :* var 2 :+ var 3) :+ (var 1 :* var 4 :+ var 5)) refl

-- If both silent VOLEs are correct in their first n entries (s1 = s2 + d s and e1 = e2 + d e) and the
-- context's `eq` is reflexive, the check at the end of `VOLE_QASD` passes for all n entries, whatever the
-- public vector.
pub vole_qasd-true :
    (eq : Block → Block → Bool)
    → ((x : Block) → eq x x ≡ true)
    → (n : ℕ) (d : Block) (a s e s1 e1 s2 e2 : Store) → ((t : ℕ) → t < n → s1 t ≡ s2 t ⊕ d ⊗ s t)
    → ((t : ℕ) → t < n → e1 t ≡ e2 t ⊕ d ⊗ e t)
    → vole_qasd eq n d a s e s1 e1 s2 e2 ≡ true
unfolding vole_qasd
vole_qasd-true eq reflexive n d a s e s1 e1 s2 e2 p q =
    check_loop-true eq reflexive d _ _ _ n 0 λ t l u.
      combine_loop_at a s1 e1 n 0 _ t l u
      ∙ share_correlation d (a t) (s t) (e t) (s1 t) (e1 t) (s2 t) (e2 t) (p t (omega arith))
          (q t (omega arith))
      ∙ sym (
          ap₂ (λ x y. d ⊗ x ⊕ y) (combine_loop_at a s e n 0 _ t l u)
            (combine_loop_at a s2 e2 n 0 _ t l u))
