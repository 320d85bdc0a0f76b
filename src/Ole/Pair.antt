-- ===== src/Ole/Pair.antt =====
-- One call of `dpf` on a term of each party, and the transforms of its two results.
use extension_field_pcg.Common.{ℕ, ◌+◌, ◌/◌, ◌^◌, ◌<◌, ◌≡◌, ap, ◌∙◌}
use extension_field_pcg.Algebra.{◌⊕◌, ◌⊗◌}
use extension_field_pcg.F4.Ring.{Block, f4_ring}
use extension_field_pcg.Fft.{Store}
use extension_field_pcg.Fft.Inverse.{IsForwardFft}
use extension_field_pcg.Fft.Ternary.{IsTernary}
use extension_field_pcg.Fft.Sparse.{fft-sparse_product}
use extension_field_pcg.Ole.Dpf.{Randomness, TernaryDpf, dpf}
use extension_field_pcg.Ole.Products.{IsDpf, Fits}
use extension_field_pcg.Ole.Total.{dpf-sparse_product}
use extension_field_pcg.Ole.Sampling.{Term, places, IsSparse}
use extension_field_pcg.Ole.Run.{zeros}
use extension_field_pcg.Ole.Combine.{place-lt}

nil_nil-add : (x : Block) → f4_ring.nil ⊕ f4_ring.nil ⊕ x ≡ x
nil_nil-add x = ap (λ y. y ⊕ x) (f4_ring.nil-add f4_ring.nil) ∙ f4_ring.nil-add x

-- For a forward transform that evaluates, an addition of ternary digits and distributed point functions
-- as the library describes them: the transforms of the two polynomials that `dpf` makes from zeros add up,
-- at each index below 3^(b + d), to the product of the transforms of the two parties' dense arrays.
pub foleage_fft-dpf :
    (foleage_fft : ℕ → ℕ → ℕ → Store → Store)
    → IsForwardFft foleage_fft
    → (add : ℕ → ℕ → ℕ) → IsTernary add
    → (lib : TernaryDpf) → IsDpf add lib
    → (b d : ℕ) → Fits b d
    → (rand : Randomness) (p q : Term) → IsSparse (3 ^ d) (3 ^ b) p
    → IsSparse (3 ^ d) (3 ^ b) q
    → (i : ℕ) → i < 3 ^ (b + d)
    → let x = dpf add lib rand p.coeff q.coeff p.points q.points (3 ^ b) (3 ^ d) zeros zeros in
      let transform : Store → Store = foleage_fft (b + d) (3 ^ (b + d) / 3) 0 in
      transform x.0 i ⊕ transform x.1 i ≡ transform p.dense i ⊗ transform q.dense i
foleage_fft-dpf foleage_fft forward add ternary lib is_dpf b d fits rand p q sparse0 sparse1 i l =
    fft-sparse_product add ternary (b + d) (3 ^ b) fits.digits (places (3 ^ d) p) (places (3 ^ d) q)
      p.coeff q.coeff (λ k m. place-lt b d k _ m (sparse0.within k m))
      (λ k m. place-lt b d k _ m (sparse1.within k m)) foleage_fft forward _ _ p.dense q.dense
      (λ t m.
        dpf-sparse_product add ternary lib is_dpf b d fits rand p.coeff q.coeff p.points q.points
          sparse0.within sparse1.within zeros zeros t
        ∙ nil_nil-add _)
      (λ t m. sparse0.same t) (λ t m. sparse1.same t) i l
