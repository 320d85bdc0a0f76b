-- ===== src/Ole/Run.antt =====
-- `Extension_Field_OLE(depth, block_length, c)` of OLE.h, the two parties' threads one after the other.
use extension_field_pcg.Common.{
  ℕ, zero, suc, ◌-◌, ◌*◌, ◌/◌, ◌%◌, ◌^◌, Bool, Option, none, some, if◌then◌else◌,
}
use extension_field_pcg.Loop.{loop, update_all}
use extension_field_pcg.IntLoop.{int_rounds}
use extension_field_pcg.Algebra.{◌⊕◌, ◌⊗◌}
use extension_field_pcg.F4.Ring.{Block, f4_ring}
use extension_field_pcg.Fft.{Store}
use extension_field_pcg.Ole.Dpf.{Randomness, TernaryDpf, dpf}
use extension_field_pcg.Ole.Sampling.{Prng, Term, Terms, draw_a, sample_terms, blank_term}

abbrev pub zeros : Store
zeros i = f4_ring.nil

-- `ctx.mul(a_cross[i][j], a[i/c][j], a[i%c][j])` for all i and j.
unfoldable pub cross_products : (ℕ → Store) → ℕ → ℕ → ℕ → Store
cross_products a c length =
    update_all (λ i row. update_all (λ j old. a (i / c) j ⊗ a (i % c) j) length row)
      (int_rounds (c * c)) (λ i. zeros)

-- An entry of a party's `additive` and of its `ole`.
pub record Entry : Type 0 where
  pub additive : Block
  pub ole : Block

-- The body at index i: `sum = temp + sum` over the products, then `sum = sum + temp` over the terms.
unfoldable pub combine : ℕ → (ℕ → Store) → (ℕ → Store) → (ℕ → Store) → (ℕ → Store) → ℕ → Entry
combine c a a_cross cross_term s i = record {
  additive = loop (λ j sum. a_cross j i ⊗ cross_term j i ⊕ sum) (c * c) 0 f4_ring.nil;
  ole = loop (λ j sum. sum ⊕ a j i ⊗ s j i) c 0 f4_ring.nil;
}

-- The check at the end, where a mismatch throws: the index of the first one.
unfoldable pub first_mismatch :
    (Block → Block → Bool) → (ℕ → Entry) → (ℕ → Entry) → ℕ → ℕ → Option ℕ
first_mismatch differ out0 out1 zero i = none
first_mismatch differ out0 out1 (suc left) i =
    let rest = first_mismatch differ out0 out1 left (suc i) in
    let act = (out0 i).additive ⊕ (out1 i).additive in
    let exp = (out0 i).ole ⊗ (out1 i).ole in if differ exp act then some i else rest

-- The library's functions, as arguments: the forward transform, the addition of `F3x32`, the distributed
-- point functions and the test `!=` on blocks. `rands` has the random numbers of the calls of `dpf`.
module _ (foleage_fft : ℕ → ℕ → ℕ → Store → Store) (add : ℕ → ℕ → ℕ) (lib : TernaryDpf)
    (differ : Block → Block → Bool) (prng : Prng) (rands : ℕ → Randomness) where
  -- One party's thread.
  unfoldable pub thread :
      ℕ → ℕ → ℕ → (ℕ → Store) → (ℕ → Store) → (ℕ → Store) → (ℕ → Store) → ℕ → Entry
  thread depth length c a a_cross cross_term s =
      let cross' = update_all (λ i x. foleage_fft depth (length / 3) 0 x) (c * c) cross_term in
      let s' = update_all (λ i x. foleage_fft depth (length / 3) 0 x) c s in
      let none_yet : ℕ → Entry = λ i. record { additive = f4_ring.nil; ole = f4_ring.nil } in
      update_all (λ i old. combine c a a_cross cross' s' i) length none_yet

  -- The calls of `dpf`, for all pairs of terms: the two parties' `cross_term[i]`.
  unfoldable pub cross_terms : ℕ → ℕ → ℕ → Terms → ℕ → Store × Store
  cross_terms num_points domain c t =
      update_all
        (λ i x.
          let p = t.terms0 (i / c) in
          let q = t.terms1 (i % c) in
          dpf add lib (rands i) p.coeff q.coeff p.points q.points num_points domain x.0 x.1)
        (c * c) (λ i. (zeros, zeros))

  -- The outputs of the two parties.
  unfoldable pub ole_outputs : ℕ → ℕ → ℕ → (ℕ → Entry) × (ℕ → Entry)
  ole_outputs depth block_length c =
      let num_points = 3 ^ block_length in
      let domain = 3 ^ (depth - block_length) in
      let length = 3 ^ depth in
      let drawn = draw_a prng c length (0, λ k. zeros) in
      let a = drawn.1 in
      let a_cross = cross_products a c length in
      let nothing : ℕ → Term = λ k. blank_term in
      let t =
        sample_terms prng num_points domain c
          (record { drawn = drawn.0; terms0 = nothing; terms1 = nothing }) in
      let cross = cross_terms num_points domain c t in
      (
        thread depth length c a a_cross (λ i. (cross i).0) (λ k. (t.terms0 k).dense),
        thread depth length c a a_cross (λ i. (cross i).1) (λ k. (t.terms1 k).dense),
      )

  -- The whole run: none, or the index at which it throws.
  unfoldable pub extension_field_ole : ℕ → ℕ → ℕ → Option ℕ
  extension_field_ole depth block_length c =
      let out = ole_outputs depth block_length c in first_mismatch differ out.0 out.1 (3 ^ depth) 0
