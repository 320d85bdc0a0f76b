-- ===== src/Word/Lanes.antt =====
-- What the bit gather and scatter instructions do at the masks of every second bit.
use extension_field_pcg.Common.{ℕ, zero, suc, ◌+◌, ◌*◌, ◌≤◌, ◌<◌, ◌≡◌, refl, sym, ap, ap₂, ◌∙◌}
use extension_field_pcg.Common.{
  Bool, true, false, not, ◌&&◌, ltb, lt→ltb, ltb-suc, ltb-false, if◌then◌else◌, arith,
}
use extension_field_pcg.Word.Defs.{Bits, rank, pdep, select, pext}

abbrev pub twice : ℕ → ℕ
twice zero = zero
twice (suc k) = suc (suc (twice k))

pub twice_lem : (k : ℕ) → twice k ≡ 2 * k
twice_lem zero = refl
twice_lem (suc k) = omega (arith, twice_lem k)

-- The mask holds one bit of each pair: the upper one, or the lower.
pub record IsLane (up : Bool) (mask : Bits) : Type 0 where
  pub lower : (k : ℕ) → k < 32 → mask (twice k) ≡ not up
  pub upper : (k : ℕ) → k < 32 → mask (suc (twice k)) ≡ up

abbrev pub place : Bool → ℕ → ℕ
place up k = if up then suc (twice k) else twice k

-- Below bit 2k there are k bits of the mask.
rank-twice : (up : Bool) (mask : Bits) → IsLane up mask → (k : ℕ) → k ≤ 32 → rank mask (twice k) ≡ k
unfolding rank
rank-twice up mask lane zero h = refl
rank-twice up mask lane (suc k) h =
    let ih = rank-twice up mask lane k (omega arith) in
    rw (lane.upper k (omega arith), lane.lower k (omega arith)) (ground arith)

module _ (up : Bool) (mask w : Bits) (lane : IsLane up mask) where
  w_place : (i j : ℕ) → i ≡ j → w (place up i) ≡ w (place up j)
  w_place i j e = ap (λ t. w (place up t)) e

  select_skip :
      (left at k : ℕ)
      → at < 32
      → select w mask (suc (suc left)) (twice at) (suc k) ≡ select w mask left (twice (suc at)) k
  unfolding select
  select_skip left at k h =
      ap (λ b. select w mask (suc left) (suc (twice at)) (if b then k else suc k)) (lane.lower at h)
      ∙ finish up k (lane.upper at h)
    where
      finish :
          (b : Bool) (j : ℕ)
          → mask (suc (twice at)) ≡ b
          → select w mask (suc left) (suc (twice at)) (if not b then j else suc j)
            ≡ select w mask left (twice (suc at)) j
      finish true j e = ap (λ b. select w mask left (twice (suc at)) (if b then j else suc j)) e
      finish false zero e =
          ap (λ b. if b then w (suc (twice at)) else select w mask left (twice (suc at)) zero) e
      finish false (suc j) e =
          ap (λ b. select w mask left (twice (suc at)) (if b then j else suc j)) e

  select_here :
      (left at : ℕ) → at < 32 → select w mask (suc (suc left)) (twice at) 0 ≡ w (place up at)
  unfolding select
  select_here left at h = finish up (lane.lower at h) (lane.upper at h)
    where
      finish :
          (b : Bool)
          → mask (twice at) ≡ not b
          → mask (suc (twice at)) ≡ b
          → select w mask (suc (suc left)) (twice at) 0 ≡ w (place b at)
      finish true e f = rw (e, f)
      finish false e f = rw e

  select_lane :
      (left at k : ℕ)
      → at + left ≡ 32
      → select w mask (twice left) (twice at) k ≡ (ltb k left && w (place up (at + k)))
  select_lane zero at k h =
      unfold select in sym (ap (λ b. b && w (place up (at + k))) (ltb-false k 0 (omega arith)))
  select_lane (suc left) at zero h =
      select_here (twice left) at (omega arith)
      ∙ ap₂ ◌&&◌ (sym (lt→ltb 0 (suc left) (omega arith))) (w_place at (at + 0) (omega arith))
  select_lane (suc left) at (suc k) h =
      select_skip (twice left) at k (omega arith)
      ∙ select_lane left (suc at) k (omega arith)
      ∙ ap₂ ◌&&◌ (sym (ltb-suc k left)) (w_place (suc at + k) (at + suc k) (omega arith))

  -- Gathering the lane: bit k is the mask's bit of pair k.
  pub pext_lane : (k : ℕ) → pext w mask k ≡ (ltb k 32 && w (place up k))
  unfolding pext
  pext_lane k = select_lane 32 0 k refl ∙ ap (λ b. ltb k 32 && b) (w_place (0 + k) k (omega arith))

twice-lt : (k : ℕ) → k < 32 → suc (twice k) < 64
twice-lt k h = omega (arith, twice_lem k)

module _ (mask w : Bits) where
  -- Scattering: bit k goes to the mask's bit of pair k, and the other bit is clear.
  pub pdep_lane : (up : Bool) → IsLane up mask → (k : ℕ) → k < 32 → pdep w mask (place up k) ≡ w k
  unfolding pdep
  pdep_lane true lane k h =
      rw (lt→ltb (suc (twice k)) 64 (twice-lt k h), lane.upper k h, lane.lower k h)
        (ap w (rank-twice true mask lane k (omega arith)))
  pdep_lane false lane k h =
      rw (lt→ltb (twice k) 64 (omega (arith, twice-lt k h)), lane.lower k h)
        (ap w (rank-twice false mask lane k (omega arith)))

  pub pdep_other :
      (up : Bool) → IsLane up mask → (k : ℕ) → k < 32 → pdep w mask (place (not up) k) ≡ false
  unfolding pdep
  pdep_other true lane k h = rw (lane.lower k h) (ground arith)
  pdep_other false lane k h = rw (lane.upper k h) (ground arith)

  pub pdep_outside : (i : ℕ) → 64 ≤ i → pdep w mask i ≡ false
  unfolding pdep
  pdep_outside i h = rw (ltb-false i 64 h)
