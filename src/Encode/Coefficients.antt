-- ===== src/Encode/Coefficients.antt =====
-- The pass of the accumulation that `EC_encode_test` of test.h computes by itself: the rounds, and the buffer
-- that their bits are read from. The generator of the buffer is the library's.
use native.Mathlib.Nat.{
  mul-add-div, mul-add-mod_self_left, mod-eq_of_lt, mod-add-mod, mul-suc, div-lt_iff_lt-mul,
}
use extension_field_pcg.Common.{
  ℕ, zero, suc, ◌+◌, ◌-◌, ◌*◌, ◌/◌, ◌%◌, ◌≤◌, ◌<◌, ◌==◌, ltb, if◌then◌else◌, ◌≡◌, refl, sym, ap,
  ap₂, ◌∙◌, fun_ext, arith, write, below_or_from, inl, inr, lt→ltb, ltb-false,
}
use extension_field_pcg.Loop.{loop, loop_related}
use extension_field_pcg.Algebra.{Ring2, ◌⊕◌}
use extension_field_pcg.Encode.Stepping.{Inner, inner_round, acc_step, stepped, acc_step-stepped}

-- The library's buffer: a number of bytes from a position on, and the next contents.
pub record Buffer (Coeff : Type 0) : Type 0 where
  pub bytes : ℕ
  pub read : Coeff → ℕ → ℕ → ℕ
  pub refill : Coeff → Coeff

abbrev pub div_ceil : ℕ → ℕ → ℕ
div_ceil a b = (a + b - 1) / b

-- After some contents.
unfoldable pub refilled : {Coeff : Type 0} → Buffer Coeff → Coeff → ℕ → Coeff
refilled buffer g zero = g
refilled buffer g (suc q) = buffer.refill (refilled buffer g q)

-- `mtxCoeffEnd`, as a position.
abbrev pub last_position : {Coeff : Type 0} → Buffer Coeff → ℕ → ℕ
last_position buffer aw = buffer.bytes - div_ceil aw 8

-- The bits of round i: each position up to the last one is read once in each contents.
abbrev pub coefficient : {Coeff : Type 0} → Buffer Coeff → Coeff → ℕ → ℕ → ℕ
coefficient buffer g aw i =
    let period = suc (last_position buffer aw) in
    buffer.read (refilled buffer g (i / period)) (i % period) (div_ceil aw 8)

-- The vector, the contents and the position.
pub record Pass (Coeff A : Type 0) : Type 0 where
  pub x : ℕ → A
  pub gen : Coeff
  pub position : ℕ

module _ {A Coeff : Type 0} ⦃r : Ring2 A⦄ (mul_const : A → A) (buffer : Buffer Coeff) where
  -- `if (bits & 1) plus(x[j], x[j], x[i]); bits >>= 1; j = (j + 1) % size`.
  unfoldable pub ring_round : ℕ → ℕ → Inner A → Inner A
  ring_round size i s = record {
    x = if s.bits % 2 == 1 then write s.x s.j (s.x s.j ⊕ s.x i) else s.x;
    bits = s.bits / 2;
    j = (s.j + 1) % size;
  }

  -- The body of the loop at i after the bits are read.
  unfoldable pub ring_step : ℕ → ℕ → ℕ → ℕ → (ℕ → A) → ℕ → A
  unfolding ring_round
  ring_step size aw i bits x =
      let s =
        loop (λ a s. ring_round size i s) aw 0
          (record { x = x; bits = bits; j = (i + 1) % size }) in
      let w = write s.x s.j (s.x s.j ⊕ s.x i) in write w s.j (mul_const (w s.j))

  -- `if (iter > end) { refill; iter = begin; }`.
  unfoldable pub refresh : ℕ → Pass Coeff A → Pass Coeff A
  refresh aw s =
      if ltb (last_position buffer aw) s.position
      then record s { gen = buffer.refill s.gen; position = 0 }
      else s

  unfoldable pub pass_round : ℕ → ℕ → ℕ → Pass Coeff A → Pass Coeff A
  unfolding ring_step refresh
  pass_round size aw i s =
      let s' = refresh aw s in
      let bits = buffer.read s'.gen s'.position (div_ceil aw 8) in
      record s' { x = ring_step size aw i bits s'.x; position = s'.position + 1 }

  -- The whole pass over `size` entries.
  unfoldable pub acc_pass : ℕ → ℕ → Coeff → (ℕ → A) → ℕ → A
  unfolding pass_round
  acc_pass size aw g x =
      (loop (pass_round size aw) size 0 (record { x = x; gen = g; position = 0 })).x

  -- What the pass is to do: round i with coefficient i.
  unfoldable pub accumulated : ℕ → ℕ → Coeff → (ℕ → A) → ℕ → A
  accumulated size aw g x =
      loop (λ i y. stepped mul_const size aw i (coefficient buffer g aw i) y) size 0 x

  -- The loop with j kept below the size is the one with j that is reduced at each use.
  reduced : ℕ → Inner A → Inner A
  reduced size s = record s { j = s.j % size }

  ring_round-reduced :
      (size i : ℕ) (s : Inner A)
      → ring_round size i (reduced size s) ≡ reduced size (inner_round size i s)
  unfolding ring_round inner_round reduced
  ring_round-reduced size i s =
      ap
        (λ j. record {
          x = if s.bits % 2 == 1 then write s.x (s.j % size) (s.x (s.j % size) ⊕ s.x i) else s.x;
          bits = s.bits / 2;
          j = j;
        })
        (mod-add-mod s.j size 1)

  loop-reduced :
      (size i rounds a : ℕ) (s : Inner A)
      → loop (λ a s. ring_round size i s) rounds a (reduced size s)
        ≡ reduced size (loop (λ a s. inner_round size i s) rounds a s)
  unfolding loop
  loop-reduced size i zero a s = refl
  loop-reduced size i (suc rounds) a s =
      ap (loop (λ a s. ring_round size i s) rounds (suc a)) (ring_round-reduced size i s)
      ∙ loop-reduced size i rounds (suc a) (inner_round size i s)

  ring_step-acc_step :
      (size aw i bits : ℕ) (x : ℕ → A)
      → ring_step size aw i bits x ≡ acc_step mul_const size aw i bits x
  unfolding ring_step acc_step reduced
  ring_step-acc_step size aw i bits x =
      ap (λ s. let w = write s.x s.j (s.x s.j ⊕ s.x i) in write w s.j (mul_const (w s.j)))
        (loop-reduced size i aw 0 (record { x = x; bits = bits; j = i + 1 }))

  -- Where round i finds the buffer.
  record IsAt (g : Coeff) (aw i : ℕ) (s : Pass Coeff A) : Type 0 where
    pub contents : ℕ
    pub counted : i ≡ suc (last_position buffer aw) * contents + s.position
    pub within : s.position ≤ suc (last_position buffer aw)
    pub gen_of : s.gen ≡ refilled buffer g contents

  -- What round i reads, in the contents q at the position p.
  read_lem :
      (g gen : Coeff) (aw i q p : ℕ)
      → gen ≡ refilled buffer g q
      → i ≡ suc (last_position buffer aw) * q + p
      → p < suc (last_position buffer aw)
      → buffer.read gen p (div_ceil aw 8) ≡ coefficient buffer g aw i
  read_lem g gen aw i q p e c l =
      let period = suc (last_position buffer aw) in
      let quotient : i / period ≡ q =
        ap (λ z. z / period) c
        ∙ mul-add-div (omega arith) q p
        ∙ omega (
          arith,
          (div-lt_iff_lt-mul {k = period} {x = p} {y = 1} (omega arith)).1 (omega arith),
        ) in
      let remainder : i % period ≡ p =
        ap (λ z. z % period) c ∙ mul-add-mod_self_left period q p ∙ mod-eq_of_lt l in
      ap₂ (λ h z. buffer.read h z (div_ceil aw 8)) (e ∙ ap (refilled buffer g) (sym quotient))
        (sym remainder)

  refresh-IsAt :
      (g : Coeff) (aw i : ℕ) (s : Pass Coeff A)
      → IsAt g aw i s
      → (buffer.read (refresh aw s).gen (refresh aw s).position (div_ceil aw 8)
          ≡ coefficient buffer g aw i)
        × IsAt g aw (suc i) (record (refresh aw s) { position = (refresh aw s).position + 1 })
        × ((refresh aw s).x ≡ s.x)
  unfolding refresh refilled
  refresh-IsAt g aw i s p = elim (below_or_from (suc (last_position buffer aw)) s.position) [
    | inl l ↦ rw (ltb-false (last_position buffer aw) s.position (omega arith)) (
      read_lem g s.gen aw i p.contents s.position p.gen_of p.counted l,
      record {
        contents = p.contents;
        counted = omega (arith, p.counted);
        within = omega arith;
        gen_of = p.gen_of;
      },
      refl,
    )
    | inr l ↦ rw (lt→ltb (last_position buffer aw) s.position (omega arith)) (
      read_lem g (buffer.refill s.gen) aw i (suc p.contents) 0 (ap buffer.refill p.gen_of)
          (next p.contents s.position p.counted p.within l) (omega arith),
      record {
        contents = suc p.contents;
        counted = omega (arith, next p.contents s.position p.counted p.within l);
        within = omega arith;
        gen_of = ap buffer.refill p.gen_of;
      },
      refl,
    )
  ]
    where
      next :
          (q m : ℕ)
          → i ≡ suc (last_position buffer aw) * q + m
          → m ≤ suc (last_position buffer aw)
          → suc (last_position buffer aw) ≤ m
          → i ≡ suc (last_position buffer aw) * suc q + 0
      next q m c w l = omega (arith, c, mul-suc (suc (last_position buffer aw)) q)

  -- The pass does each round with its coefficient: the buffer is refilled exactly where its positions end,
  -- and each round is the one that is to be done, for a size of at least two more than the bits of a round.
  pub acc_pass-accumulated :
      (size aw : ℕ) (g : Coeff) (x : ℕ → A)
      → aw + 1 < size
      → acc_pass size aw g x ≡ accumulated size aw g x
  unfolding acc_pass pass_round accumulated refilled
  acc_pass-accumulated size aw g x h =
      (loop_related (λ i s y. (s.x ≡ y) × IsAt g aw i s) (pass_round size aw) _ size
        (record { x = x; gen = g; position = 0 }) x
        (λ i s y l (e, p).
          let (read, after, same) = refresh-IsAt g aw i s p in
          (
            ap₂ (λ bits z. ring_step size aw i bits z) read (same ∙ e)
                ∙ ring_step-acc_step size aw i (coefficient buffer g aw i) y
                ∙ fun_ext (acc_step-stepped size i (coefficient buffer g aw i) y l mul_const aw h),
            record {
              contents = after.contents;
              counted = after.counted;
              within = after.within;
              gen_of = after.gen_of;
            },
          ))
        (
          refl,
          record { contents = 0; counted = omega arith; within = omega arith; gen_of = refl },
        )).0
