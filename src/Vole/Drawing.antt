-- ===== src/Vole/Drawing.antt =====
-- The loop of `sampleBaseVoleVals` that draws until the block is not zero.
use extension_field_pcg.Common.{
  ℕ, zero, suc, false, if◌then◌else◌, ◌≡◌, ◌≤◌, ap, ◌∙◌, arith, Bool-cases, inl, inr,
}
use extension_field_pcg.F4.Ring.{Block, f4_ring}
use extension_field_pcg.Vole.Receiver.{ReceiverCalls, draw_nonzero}

module _ {Gen Message Prng : Type 0} (lib : ReceiverCalls Gen Message Prng) where
  -- The block after k other draws.
  abbrev pub nth_draw : ℕ → Prng → Block
  nth_draw zero g = (lib.draw g).0
  nth_draw (suc k) g = nth_draw k (lib.draw g).1

  -- If one of the first fuel + 1 draws is a block that `eq` tells from zero, so is the block that the loop
  -- ends with: that many rounds are enough.
  pub draw_nonzero_lem :
      (fuel k : ℕ) (g : Prng)
      → k ≤ fuel
      → lib.eq f4_ring.nil (nth_draw k g) ≡ false
      → lib.eq f4_ring.nil (draw_nonzero lib fuel g).0 ≡ false
  unfolding draw_nonzero
  draw_nonzero_lem zero zero g l h = h
  draw_nonzero_lem zero (suc k) g l h = absurd (omega arith)
  draw_nonzero_lem (suc fuel) zero g l h =
      ap
        (λ b. lib.eq f4_ring.nil (if b then draw_nonzero lib fuel (lib.draw g).1 else lib.draw g).0)
        h
      ∙ h
  draw_nonzero_lem (suc fuel) (suc k) g l h =
      elim (Bool-cases (lib.eq f4_ring.nil (lib.draw g).0)) [
        | inl e ↦
            ap
              (λ b.
                lib.eq f4_ring.nil
                  (if b then draw_nonzero lib fuel (lib.draw g).1 else lib.draw g).0)
              e
            ∙ draw_nonzero_lem fuel k (lib.draw g).1 (omega arith) h
        | inr e ↦
            ap
              (λ b.
                lib.eq f4_ring.nil
                  (if b then draw_nonzero lib fuel (lib.draw g).1 else lib.draw g).0)
              e
            ∙ e
      ]
