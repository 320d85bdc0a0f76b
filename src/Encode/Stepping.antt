-- ===== src/Encode/Stepping.antt =====
-- One round of the accumulation that `EC_encode_test` of test.h computes by itself: an entry is added to
-- those after it that its bits select, and to the one that follows these, which is multiplied by a
-- constant.
use native.Mathlib.Nat.{div-div-eq-div-mul, div-one, pow-suc}
use extension_field_pcg.Common.{
  ℕ, suc, ◌+◌, ◌/◌, ◌%◌, ◌^◌, ◌≤◌, ◌<◌, ◌==◌, ltb, Bool, true, false, if◌then◌else◌, ◌≡◌, ◌≢◌, refl,
  sym, ap, ap₂, ◌∙◌, arith, write, write_self, below_or_from, equal_or_not, inl, inr, lt→ltb,
  ltb-false,
}
use extension_field_pcg.Encode.Places.{
  distance, place, place-distance, distance_self, write-place, write-place_other,
}
use extension_field_pcg.Loop.{loop, loop_from_zero}
use extension_field_pcg.Algebra.{Ring2, ◌⊕◌}

abbrev pub bit : ℕ → ℕ → Bool
bit bits a = bits / 2 ^ a % 2 == 1

-- The state of the inner loop: the vector, the bits that are left, and j.
pub record Inner (A : Type 0) : Type 0 where
  pub x : ℕ → A
  pub bits : ℕ
  pub j : ℕ

module _ {A : Type 0} ⦃r : Ring2 A⦄ where
  -- `if (bits & 1) plus(x[j % n], x[j % n], x[i]); bits >>= 1; ++j`.
  unfoldable pub inner_round : ℕ → ℕ → Inner A → Inner A
  inner_round n i s = record {
    x = if s.bits % 2 == 1 then write s.x (s.j % n) (s.x (s.j % n) ⊕ s.x i) else s.x;
    bits = s.bits / 2;
    j = s.j + 1;
  }

  -- What the inner loop is to do, entry by entry.
  abbrev pub selected : ℕ → ℕ → ℕ → (ℕ → A) → ℕ → A
  selected n i bits x t = if bit bits (distance n i t) then x t ⊕ x i else x t

module _ {A : Type 0} ⦃r : Ring2 A⦄ (mul_const : A → A) where
  -- The whole round at i.
  unfoldable pub acc_step : ℕ → ℕ → ℕ → ℕ → (ℕ → A) → ℕ → A
  unfolding inner_round
  acc_step n aw i bits x =
      let s =
        loop (λ a s. inner_round {A = A} ⦃r = r⦄ n i s) aw 0
          (record { x = x; bits = bits; j = i + 1 }) in
      let w = write s.x (s.j % n) (s.x (s.j % n) ⊕ s.x i) in
      write w (s.j % n) (mul_const (w (s.j % n)))

  -- One of three values.
  abbrev chosen : Bool → Bool → Bool → A → A → A → A
  chosen p q c a b z = if p then (if q then a else if c then b else z) else z

  -- And the whole round.
  abbrev pub stepped : ℕ → ℕ → ℕ → ℕ → (ℕ → A) → ℕ → A
  stepped n aw i bits x t =
      chosen (ltb t n) (ltb (distance n i t) aw) (distance n i t == aw) (selected n i bits x t)
        (mul_const (x t ⊕ x i)) (x t)

-- The bits after a shifts, and one more.
shift-suc : (bits a : ℕ) → bits / 2 ^ a / 2 ≡ bits / 2 ^ suc a
shift-suc bits a = div-div-eq-div-mul bits (2 ^ a) 2 ∙ ap (λ d. bits / d) (sym (pow-suc 2 a))

module _ {A : Type 0} ⦃r : Ring2 A⦄ (n i bits : ℕ) (x : ℕ → A) (l : i < n) where
  -- After a rounds of the inner loop.
  record IsPartial (a : ℕ) (s : Inner A) : Type 0 where
    pub bits_left : s.bits ≡ bits / 2 ^ a
    pub next : s.j ≡ i + 1 + a
    pub done : (t : ℕ) → t < n → distance n i t < a → s.x t ≡ selected n i bits x t
    pub not_yet : (t : ℕ) → (t < n → a ≤ distance n i t) → s.x t ≡ x t

  inner_round-IsPartial :
      (a : ℕ) (s : Inner A) → suc a < n → IsPartial a s → IsPartial (suc a) (inner_round n i s)
  unfolding inner_round
  inner_round-IsPartial a s m p = record {
    bits_left = ap (λ b. b / 2) p.bits_left ∙ shift-suc bits a;
    next = omega (arith, p.next);
    done = λ t u d. elim (equal_or_not (distance n i t) a) [
      | inl e ↦
          here (s.bits % 2 == 1) t u e
          ∙ ap (λ b. if b then s.x t ⊕ s.x i else s.x t)
              (ap (λ b. b % 2 == 1) p.bits_left ∙ ap (bit bits) (sym e))
          ∙ ap₂ (λ y z. if bit bits (distance n i t) then y ⊕ z else y)
              (p.not_yet t (λ u'. omega (arith, e)))
              (p.not_yet i (λ u'. omega (arith, distance_self n i l)))
      | inr e ↦ elsewhere (s.bits % 2 == 1) t (λ u'. e) ∙ p.done t u (omega (arith, d))
    ];
    not_yet = λ t h.
        elsewhere (s.bits % 2 == 1) t (λ u e. absurd (omega (arith, h u, e)))
        ∙ p.not_yet t (λ u. omega (arith, h u));
  }
    where
      here :
          (b : Bool) (t : ℕ)
          → t < n
          → distance n i t ≡ a
          → (if b then write s.x (s.j % n) (s.x (s.j % n) ⊕ s.x i) else s.x) t
            ≡ (if b then s.x t ⊕ s.x i else s.x t)
      here false t u e = refl
      here true t u e =
          ap (λ j. write s.x (j % n) (s.x (j % n) ⊕ s.x i) t) p.next
          ∙ write-place n i a t s.x _ l u e
          ∙ ap (λ z. s.x z ⊕ s.x i) (ap (place n i) (sym e) ∙ place-distance n i t l u)

      elsewhere :
          (b : Bool) (t : ℕ)
          → (t < n → distance n i t ≢ a)
          → (if b then write s.x (s.j % n) (s.x (s.j % n) ⊕ s.x i) else s.x) t ≡ s.x t
      elsewhere false t d = refl
      elsewhere true t d =
          ap (λ j. write s.x (j % n) (s.x (j % n) ⊕ s.x i) t) p.next
          ∙ write-place_other n i a t s.x _ l (omega arith) d

  inner_loop-IsPartial :
      (aw : ℕ)
      → aw < n
      → IsPartial aw
          (loop (λ a s. inner_round n i s) aw 0 (record { x = x; bits = bits; j = i + 1 }))
  inner_loop-IsPartial aw m =
      loop_from_zero IsPartial (λ a s. inner_round n i s) aw
        (record { x = x; bits = bits; j = i + 1 })
        (λ a s u p. inner_round-IsPartial a s (omega arith) p)
        (record {
          bits_left = sym (div-one bits);
          next = omega arith;
          done = λ t u d. absurd (omega arith);
          not_yet = λ t h. refl;
        })

  -- A round of the accumulation adds the entry at i to those that its bits select of the aw entries after it,
  -- in a circle of n, and to the one after these, which it multiplies by the constant; no other entry changes.
  pub acc_step-stepped :
      (mul_const : A → A) (aw : ℕ)
      → aw + 1 < n
      → (t : ℕ) → acc_step mul_const n aw i bits x t ≡ stepped mul_const n aw i bits x t
  unfolding acc_step inner_round
  acc_step-stepped mul_const aw m t = elim (below_or_from n t) [
    | inr h ↦
        untouched (λ u. absurd (omega arith))
        ∙ p.not_yet t (λ u. absurd (omega arith))
        ∙ sym (ap (λ b. pick b (ltb d aw) (d == aw)) (ltb-false t n h))
    | inl u ↦ elim (below_or_from aw d) [
      | inl k ↦
          untouched (λ u' e. absurd (omega (arith, e)))
          ∙ p.done t u k
          ∙ sym (ap₂ (λ b c. pick b c (d == aw)) (lt→ltb t n u) (lt→ltb d aw k))
      | inr k ↦ elim (equal_or_not d aw) [
        | inl e ↦
            touched u e
            ∙ sym (
                ap₂ (λ b c. pick b c (d == aw)) (lt→ltb t n u) (ltb-false d aw k)
                ∙ ap (pick true false) (same d aw e))
        | inr e ↦
            untouched (λ u'. e)
            ∙ p.not_yet t (λ u'. k)
            ∙ sym (
                ap₂ (λ b c. pick b c (d == aw)) (lt→ltb t n u) (ltb-false d aw k)
                ∙ ap (pick true false) (differ d aw e))
      ]
    ]
  ]
    where
      d : ℕ
      d = distance n i t

      s : Inner A
      s = loop (λ a s. inner_round n i s) aw 0 (record { x = x; bits = bits; j = i + 1 })

      p : IsPartial aw s
      p = inner_loop-IsPartial aw (omega arith)

      pick : Bool → Bool → Bool → A
      pick b c e = chosen mul_const b c e (selected n i bits x t) (mul_const (x t ⊕ x i)) (x t)

      same : (a b : ℕ) → a ≡ b → (a == b) ≡ true
      same a b e = ground arith

      differ : (a b : ℕ) → a ≢ b → (a == b) ≡ false
      differ a b e = ground arith

      -- The entry t at the end, if the last place is z.
      after : ℕ → A
      after z = let w = write s.x z (s.x z ⊕ s.x i) in write w z (mul_const (w z)) t

      untouched : (t < n → d ≢ aw) → acc_step mul_const n aw i bits x t ≡ s.x t
      untouched h =
          ap (λ j. after (j % n)) p.next
          ∙ write-place_other n i aw t _ _ l (omega arith) h
          ∙ write-place_other n i aw t s.x _ l (omega arith) h

      touched : t < n → d ≡ aw → acc_step mul_const n aw i bits x t ≡ mul_const (x t ⊕ x i)
      touched u e =
          ap (λ j. after (j % n)) p.next
          ∙ write-place n i aw t _ _ l u e
          ∙ ap mul_const (
              write_self s.x (place n i aw) _
              ∙ ap (λ z. s.x z ⊕ s.x i) (ap (place n i) (sym e) ∙ place-distance n i t l u)
              ∙ ap₂ ◌⊕◌ (p.not_yet t (λ u'. omega (arith, e)))
                  (p.not_yet i (λ u'. omega (arith, distance_self n i l))))
