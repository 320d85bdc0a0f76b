-- ===== src/Ole/Products.antt =====
-- What the two polynomials of `dpf` add up to: the product of two sparse polynomials.
use native.Mathlib.Nat.{mod-eq_of_lt, add_comm}
use extension_field_pcg.Common.{
  ℕ, suc, ◌+◌, ◌*◌, ◌^◌, ◌%◌, ◌<◌, ◌≤◌, ◌≡◌, refl, sym, ap, ap₂, ◌∙◌, arith,
}
use extension_field_pcg.Common.{Bool, write, write_self, write_other, equal_or_not, inl, inr}
use extension_field_pcg.Loop.{loop, loop_from_zero}
use extension_field_pcg.IntLoop.{int_rounds_small}
use extension_field_pcg.Algebra.{◌⊕◌, add-nil}
use extension_field_pcg.Algebra.Sum.{sum, sum_congr, sum-add, sum_single, loop-sum}
use extension_field_pcg.F4.Ring.{Block, f4_ring}
use extension_field_pcg.Fft.{Store}
use extension_field_pcg.Fft.Ternary.{IsTernary, add-lt}
use extension_field_pcg.Fft.Spike.{spike, spike_self, spike_other}
use extension_field_pcg.Ole.Dpf.{
  BaseOts, Randomness, pick, deal_base_ots, TernaryDpf, add_output, add_outputs,
}

-- Base OTs of which each party got the message that it chose.
pub record IsDealt (count : ℕ) (ots : BaseOts) : Type 0 where
  pub chosen0 : (i : ℕ) → i < count → ots.recv0 i ≡ pick (ots.send1 i) (ots.choice0 i)
  pub chosen1 : (i : ℕ) → i < count → ots.recv1 i ≡ pick (ots.send0 i) (ots.choice1 i)

-- One more message and choice.
one_more_chosen :
    (send : ℕ → Block × Block) (recv : Store) (choice : ℕ → Bool) (j : ℕ) (m : Block × Block)
    → ((i : ℕ) → i < j → recv i ≡ pick (send i) (choice i))
    → (i : ℕ) → i < suc j
    → write recv j (pick (write send j m j) (choice j)) i ≡ pick (write send j m i) (choice i)
one_more_chosen send recv choice j m before i l = elim (equal_or_not i j) [
  | inl e ↦
      ap (write recv j (pick (write send j m j) (choice j))) e
      ∙ write_self recv j _
      ∙ ap (λ x. pick (write send j m x) (choice x)) (sym e)
  | inr d ↦
      write_other recv j i _ d
      ∙ before i (omega arith)
      ∙ ap (λ x. pick x (choice i)) (sym (write_other send j i m d))
]

-- After the loop, the first `base_count` OTs are dealt.
pub deal_base_ots-IsDealt :
    (rand : Randomness) (base_count : ℕ) (ots : BaseOts)
    → IsDealt base_count (deal_base_ots rand base_count ots)
unfolding deal_base_ots
deal_base_ots-IsDealt rand count ots =
    loop_from_zero IsDealt _ count ots
      (λ j o l before. record {
        chosen0 =
            one_more_chosen o.send1 o.recv0 o.choice0 j (rand.messages (2 * j + 1)) before.chosen0;
        chosen1 =
            one_more_chosen o.send0 o.recv1 o.choice1 j (rand.messages (2 * j)) before.chosen1;
      })
      (record { chosen0 = λ i l. absurd (omega arith); chosen1 = λ i l. absurd (omega arith) })

-- What is asked of the distributed point functions: for base OTs that are dealt, points of the domain
-- and any shares of values, the outputs add up to the value at the sum of the points, and to zero
-- elsewhere.
pub record IsDpf (add : ℕ → ℕ → ℕ) (lib : TernaryDpf) : Type 0 where
  pub shares :
      (d num : ℕ) (ots : BaseOts) (drawn : ℕ → Block) (points0 points1 : ℕ → ℕ)
      (values0 values1 : Store)
      → IsDealt (lib.base_ot_count (3 ^ d) num) ots
      → ((k : ℕ) → k < num → (points0 k < 3 ^ d) × (points1 k < 3 ^ d))
      → (k i : ℕ) → k < num
      → i < 3 ^ d
      → (lib.expand ots drawn points0 points1 values0 values1 (3 ^ d) num).0 k i
          ⊕ (lib.expand ots drawn points0 points1 values0 values1 (3 ^ d) num).1 k i
        ≡ spike (add (points0 k) (points1 k)) (values0 k ⊕ values1 k) i

spike_nil : (i t : ℕ) → spike i f4_ring.nil t ≡ f4_ring.nil
spike_nil i t = ground arith

spike-add : (i : ℕ) (u v : Block) (t : ℕ) → spike i u t ⊕ spike i v t ≡ spike i (u ⊕ v) t
spike-add i u v t = elim (equal_or_not t i) [
  | inl e ↦ ap₂ ◌⊕◌ (spike_self i u t e) (spike_self i v t e) ∙ sym (spike_self i (u ⊕ v) t e)
  | inr d ↦
      ap₂ ◌⊕◌ (spike_other i u t d) (spike_other i v t d)
      ∙ f4_ring.nil-add f4_ring.nil
      ∙ sym (spike_other i (u ⊕ v) t d)
]

pub write-spike :
    (s : Store) (i : ℕ) (v : Block) (t : ℕ) → write s i (s i ⊕ v) t ≡ s t ⊕ spike i v t
write-spike s i v t = elim (equal_or_not t i) [
  | inl e ↦
      ap (write s i (s i ⊕ v)) e
      ∙ write_self s i (s i ⊕ v)
      ∙ sym (ap₂ ◌⊕◌ (ap s e) (spike_self i v t e))
  | inr d ↦
      write_other s i t (s i ⊕ v) d
      ∙ sym (add-nil (s t))
      ∙ ap (λ b. s t ⊕ b) (sym (spike_other i v t d))
]

add_output_lem :
    (domain temp : ℕ) (output : ℕ → Block) (poly : Store) (t : ℕ)
    → domain < 2 ^ 31
    → add_output domain temp output poly t
      ≡ poly t ⊕ sum domain (λ k. spike (k + temp) (output k) t)
unfolding add_output
add_output_lem domain temp output poly t fits =
    ap (λ n. loop (λ k s. write s (k + temp) (s (k + temp) ⊕ output k)) n 0 poly t)
      (int_rounds_small domain fits)
    ∙ loop-sum _ (λ k. spike (k + temp) (output k)) domain poly
        (λ k s x l. write-spike s (k + temp) (output k) x) t

-- All that one party adds to an entry of its polynomial.
abbrev pub added : (ℕ → ℕ → ℕ) → ℕ → ℕ → (ℕ → ℕ → Block) → Store
added add n domain output t =
    sum n (λ i.
      sum n (λ j. sum domain (λ k. spike (k + add i j % n * domain) (output (i * n + j) k) t)))

pub add_outputs_lem :
    (add : ℕ → ℕ → ℕ) (n domain : ℕ) (output : ℕ → ℕ → Block) (poly : Store) (t : ℕ)
    → n < 2 ^ 31
    → domain < 2 ^ 31
    → add_outputs add n domain output poly t ≡ poly t ⊕ added add n domain output t
unfolding add_outputs
add_outputs_lem add n domain output poly t fits fits_domain =
    ap
      (λ m.
        loop
          (λ i s.
            loop (λ j u. add_output domain (add i j % n * domain) (output (i * n + j)) u) m 0 s)
          m 0 poly t)
      (int_rounds_small n fits)
    ∙ loop-sum _ _ n poly
        (λ i s x l.
          loop-sum _ _ n s
            (λ j u y m.
              add_output_lem domain (add i j % n * domain) (output (i * n + j)) u y fits_domain)
            x)
        t

-- Two sums, one of each party, term by term.
pub added-add :
    (add : ℕ → ℕ → ℕ) (n domain : ℕ) (a b : ℕ → ℕ → Block) (t : ℕ)
    → added add n domain a t ⊕ added add n domain b t ≡ added add n domain (λ r k. a r k ⊕ b r k) t
added-add add n domain a b t =
    sym (sum-add n _ _)
    ∙ sum_congr n _ _ (λ i l.
      sym (sum-add n _ _)
      ∙ sum_congr n _ _ (λ j m.
        sym (sum-add domain _ _)
        ∙ sum_congr domain _ _ (λ k h. spike-add (k + add i j % n * domain) _ _ t)))

-- The numbers of digits that the code has room for: a point has 32 digits, and the `int`s of the loops
-- hold the number 3^b of points and the size 3^d of the domain.
pub record Fits (b d : ℕ) : Type 0 where
  pub digits : b + d ≤ 32
  pub points : b ≤ 19
  pub domain : d ≤ 19

module _ (add : ℕ → ℕ → ℕ) (ternary : IsTernary add) (b d : ℕ) (small : b + d ≤ 32) where
  -- The address that a pair of points is added to.
  address :
      (i j p q : ℕ)
      → i < 3 ^ b
      → j < 3 ^ b
      → p < 3 ^ d
      → q < 3 ^ d
      → add p q + add i j % 3 ^ b * 3 ^ d ≡ add (p + i * 3 ^ d) (q + j * 3 ^ d)
  address i j p q h l u v =
      ap (λ r. add p q + r * 3 ^ d) (mod-eq_of_lt (add-lt add ternary b i j (omega arith) h l))
      ∙ add_comm (add p q) (add i j * 3 ^ d)
      ∙ sym (ternary.split d b i j p q (omega arith) h l u v)
      ∙ ap₂ add (add_comm (i * 3 ^ d) p) (add_comm (j * 3 ^ d) q)

  pub one_pair :
      (i j p q : ℕ) (v : Block) (out : ℕ → Block) (t : ℕ)
      → i < 3 ^ b
      → j < 3 ^ b
      → p < 3 ^ d
      → q < 3 ^ d
      → ((k : ℕ) → k < 3 ^ d → out k ≡ spike (add p q) v k)
      → sum (3 ^ d) (λ k. spike (k + add i j % 3 ^ b * 3 ^ d) (out k) t)
        ≡ spike (add (p + i * 3 ^ d) (q + j * 3 ^ d)) v t
  one_pair i j p q v out t h l hp hq same =
      let far = add i j % 3 ^ b * 3 ^ d in
      sum_single (3 ^ d) (add p q) _ (add-lt add ternary d p q (omega arith) hp hq) (λ k m e.
        ap (λ x. spike (k + far) x t) (same k m ∙ spike_other (add p q) v k e)
        ∙ spike_nil (k + far) t)
      ∙ ap (λ x. spike (add p q + far) x t)
          (same (add p q) (add-lt add ternary d p q (omega arith) hp hq)
            ∙ spike_self (add p q) v (add p q) refl)
      ∙ ap (λ x. spike x v t) (address i j p q h l hp hq)
