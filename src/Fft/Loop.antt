-- ===== src/Fft/Loop.antt =====
-- The loop of `inv_foleageFft` on three spans that lie behind one another: what each address holds
-- afterwards.
use extension_field_pcg.Common.{write_self, write_other}
use extension_field_pcg.Common.{ℕ, zero, suc, ◌+◌, ◌*◌, ◌≤◌, ◌<◌, ◌≡◌, refl}
use extension_field_pcg.Common.{subst, ◌∙◌, ◌⊎◌, inl, inr, arith, ◌≢◌}
use extension_field_pcg.Algebra.{◌⊕◌}
use extension_field_pcg.F4.Ring.{Block, f4_ring}
use extension_field_pcg.Fft.Defs.{Store, mult, inv_butterfly, inv_loop}

-- The three results of the body.
abbrev pub new_left : Block → Block → Block → Block
new_left l m r = l ⊕ m ⊕ r

abbrev pub new_middle : Block → Block → Block → Block
new_middle l m r = l ⊕ m ⊕ mult (m ⊕ r)

abbrev pub new_right : Block → Block → Block → Block
new_right l m r = l ⊕ r ⊕ mult (m ⊕ r)

module _ (base n : ℕ) where
  abbrev at_left : ℕ → ℕ
  at_left j = base + j

  abbrev at_middle : ℕ → ℕ
  at_middle j = base + n + j

  abbrev at_right : ℕ → ℕ
  at_right j = base + 2 * n + j

  -- The loop from j on leaves the three results at the places j to j + left of the spans, and
  -- changes nothing else.
  pub record IsTransformed (j left : ℕ) (a b : Store) : Type 0 where
    pub left_span :
        (t : ℕ)
        → j ≤ t
        → t < j + left
        → b (at_left t) ≡ new_left (a (at_left t)) (a (at_middle t)) (a (at_right t))
    pub middle_span :
        (t : ℕ)
        → j ≤ t
        → t < j + left
        → b (at_middle t) ≡ new_middle (a (at_left t)) (a (at_middle t)) (a (at_right t))
    pub right_span :
        (t : ℕ)
        → j ≤ t
        → t < j + left
        → b (at_right t) ≡ new_right (a (at_left t)) (a (at_middle t)) (a (at_right t))
    pub elsewhere :
        (i : ℕ)
        → ((t : ℕ) → j ≤ t → t < j + left → (i ≢ at_left t) × (i ≢ at_middle t) × (i ≢ at_right t))
        → b i ≡ a i

  module _ (j : ℕ) (a : Store) (inside : j < n) where
    butterfly_left :
        inv_butterfly base n j a (at_left j)
        ≡ new_left (a (at_left j)) (a (at_middle j)) (a (at_right j))
    unfolding inv_butterfly
    butterfly_left =
        write_other _ (at_right j) (at_left j) _ (omega arith) ∙ write_self _ (at_left j) _

    butterfly_middle :
        inv_butterfly base n j a (at_middle j)
        ≡ new_middle (a (at_left j)) (a (at_middle j)) (a (at_right j))
    unfolding inv_butterfly
    butterfly_middle =
        write_other _ (at_right j) (at_middle j) _ (omega arith)
        ∙ write_other _ (at_left j) (at_middle j) _ (omega arith)
        ∙ write_self _ (at_middle j) _

    butterfly_right :
        inv_butterfly base n j a (at_right j)
        ≡ new_right (a (at_left j)) (a (at_middle j)) (a (at_right j))
    unfolding inv_butterfly
    butterfly_right = write_self _ (at_right j) _

    butterfly_other :
        (i : ℕ)
        → i ≢ at_left j
        → i ≢ at_middle j
        → i ≢ at_right j
        → inv_butterfly base n j a i ≡ a i
    unfolding inv_butterfly
    butterfly_other i p q s =
        write_other _ (at_right j) i _ s
        ∙ write_other _ (at_left j) i _ p
        ∙ write_other _ (at_middle j) i _ q

  -- Equal places, the spans' results at the first one, and at the later ones.
  module _ (j left : ℕ) (a b : Store) (fits : j + suc left ≤ n)
      (rest : IsTransformed (suc j) left (inv_butterfly base n j a) b) where
    later_left :
        (t : ℕ)
        → suc j ≤ t
        → t < j + suc left
        → inv_butterfly base n j a (at_left t) ≡ a (at_left t)
    later_left t p q =
        butterfly_other j a (omega arith) (at_left t) (omega arith) (omega arith) (omega arith)

    later_middle :
        (t : ℕ)
        → suc j ≤ t
        → t < j + suc left
        → inv_butterfly base n j a (at_middle t) ≡ a (at_middle t)
    later_middle t p q =
        butterfly_other j a (omega arith) (at_middle t) (omega arith) (omega arith) (omega arith)

    later_right :
        (t : ℕ)
        → suc j ≤ t
        → t < j + suc left
        → inv_butterfly base n j a (at_right t) ≡ a (at_right t)
    later_right t p q =
        butterfly_other j a (omega arith) (at_right t) (omega arith) (omega arith) (omega arith)

    later :
        (f : Block → Block → Block → Block) (t : ℕ)
        → suc j ≤ t
        → t < j + suc left
        → f
            (inv_butterfly base n j a (at_left t))
            (inv_butterfly base n j a (at_middle t))
            (inv_butterfly base n j a (at_right t))
          ≡ f (a (at_left t)) (a (at_middle t)) (a (at_right t))
    later f t p q i = f (later_left t p q i) (later_middle t p q i) (later_right t p q i)

    abbrev Span : (ℕ → ℕ) → (Block → Block → Block → Block) → ℕ → Type 0
    Span at f t = b (at t) ≡ f (a (at_left t)) (a (at_middle t)) (a (at_right t))

    split : (t : ℕ) → j ≤ t → (j ≡ t) ⊎ (suc j ≤ t)
    split t p = omega arith

    first_or_later :
        (at : ℕ → ℕ) (f : Block → Block → Block → Block)
        → Span at f j
        → ((t : ℕ)
            → suc j ≤ t
            → t < suc j + left
            → b (at t)
              ≡ f
                  (inv_butterfly base n j a (at_left t))
                  (inv_butterfly base n j a (at_middle t))
                  (inv_butterfly base n j a (at_right t)))
        → (t : ℕ) → j ≤ t
        → t < j + suc left
        → Span at f t
    first_or_later at f first others t p q = elim (split t p) [
      | inl e ↦ subst (Span at f) e first
      | inr l ↦ others t l (omega arith) ∙ later f t l q
    ]

    IsTransformed-suc : IsTransformed j (suc left) a b
    IsTransformed-suc = record {
      left_span =
          first_or_later at_left new_left
            (rest.elsewhere (at_left j) (λ t p q. (omega arith, omega arith, omega arith))
              ∙ butterfly_left j a (omega arith))
            rest.left_span;
      middle_span =
          first_or_later at_middle new_middle
            (rest.elsewhere (at_middle j) (λ t p q. (omega arith, omega arith, omega arith))
              ∙ butterfly_middle j a (omega arith))
            rest.middle_span;
      right_span =
          first_or_later at_right new_right
            (rest.elsewhere (at_right j) (λ t p q. (omega arith, omega arith, omega arith))
              ∙ butterfly_right j a (omega arith))
            rest.right_span;
      elsewhere = λ i p.
          let (x, y, z) = p j (omega arith) (omega arith) in
          rest.elsewhere i (λ t l q. p t (omega arith) (omega arith))
          ∙ butterfly_other j a (omega arith) i x y z;
    }

  pub loop-IsTransformed :
      (left j : ℕ) (a : Store) → j + left ≤ n → IsTransformed j left a (inv_loop base n left j a)
  unfolding inv_loop
  loop-IsTransformed zero j a h = record {
    left_span = λ t p q. absurd (omega arith);
    middle_span = λ t p q. absurd (omega arith);
    right_span = λ t p q. absurd (omega arith);
    elsewhere = λ i p. refl;
  }
  loop-IsTransformed (suc left) j a h =
      IsTransformed-suc j left a _ h
        (loop-IsTransformed left (suc j) (inv_butterfly base n j a) (omega arith))
