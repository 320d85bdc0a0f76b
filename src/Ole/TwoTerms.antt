-- ===== src/Ole/TwoTerms.antt =====
-- `Extension_Field_OLE(depth, block_length)` of OLE.h, with two terms of each party, s and e: the
-- combination is a * s + e.
use extension_field_pcg.Common.{
  ℕ, suc, ◌+◌, ◌-◌, ◌/◌, ◌%◌, ◌^◌, ◌==◌, Bool, Option, if◌then◌else◌, write,
}
use extension_field_pcg.Loop.{loop, update_all}
use extension_field_pcg.Algebra.{◌⊕◌, ◌⊗◌}
use extension_field_pcg.F4.Ring.{Block, f4_ring}
use extension_field_pcg.Fft.{Store}
use extension_field_pcg.Ole.Dpf.{Randomness, TernaryDpf, dpf}
use extension_field_pcg.Ole.Sampling.{Prng, Term, set_term, blank_term}
use extension_field_pcg.Ole.Run.{zeros, Entry, first_mismatch}

pub record Dense : Type 0 where
  pub drawn : ℕ
  pub a : Store
  pub a_square : Store

-- `a[i] = prng.get(); ctx.mul(a_square[i], a[i], a[i]);`
unfoldable pub draw_square : Prng → ℕ → Dense → Dense
draw_square prng length s =
    loop
      (λ i u.
        let a = write u.a i (prng.block u.drawn) in
        record { drawn = suc u.drawn; a = a; a_square = write u.a_square i (a i ⊗ a i) })
      length 0 s

pub record TwoTerms : Type 0 where
  pub drawn : ℕ
  pub s0 : Term
  pub s1 : Term
  pub e0 : Term
  pub e1 : Term

-- The body at index i, which draws four points and then four coefficients.
unfoldable pub sample_two : Prng → ℕ → ℕ → TwoTerms → TwoTerms
sample_two prng domain i r = record {
  drawn = r.drawn + 8;
  s0 = set_term domain i (prng.word r.drawn % domain) (prng.block (r.drawn + 4)) r.s0;
  s1 = set_term domain i (prng.word (r.drawn + 1) % domain) (prng.block (r.drawn + 5)) r.s1;
  e0 = set_term domain i (prng.word (r.drawn + 2) % domain) (prng.block (r.drawn + 6)) r.e0;
  e1 = set_term domain i (prng.word (r.drawn + 3) % domain) (prng.block (r.drawn + 7)) r.e1;
}

-- The body of a party's last loop at index i.
unfoldable pub combine_two : Dense → (ℕ → Store) → Store → Store → ℕ → Entry
combine_two d x s e i =
    let first = d.a_square i ⊗ x 0 i in
    let second = first ⊕ d.a i ⊗ x 1 i in
    let third = second ⊕ d.a i ⊗ x 2 i in
    record { additive = third ⊕ x 3 i; ole = e i ⊕ d.a i ⊗ s i }

module _ (foleage_fft : ℕ → ℕ → ℕ → Store → Store) (add : ℕ → ℕ → ℕ) (lib : TernaryDpf)
    (differ : Block → Block → Bool) (prng : Prng) (rands : ℕ → Randomness) where
  -- One party's thread.
  unfoldable pub thread_two : ℕ → ℕ → Dense → (ℕ → Store) → Store → Store → ℕ → Entry
  thread_two depth length d cross_term s e =
      let x = update_all (λ i y. foleage_fft depth (length / 3) 0 y) 4 cross_term in
      let s' = foleage_fft depth (length / 3) 0 s in
      let e' = foleage_fft depth (length / 3) 0 e in
      let none_yet : ℕ → Entry = λ i. record { additive = f4_ring.nil; ole = f4_ring.nil } in
      update_all (λ i old. combine_two d x s' e' i) length none_yet

  -- The four calls of `dpf`.
  unfoldable pub four_terms : ℕ → ℕ → TwoTerms → ℕ → Store × Store
  four_terms num_points domain t i =
      let call : Term → Term → Store × Store = λ p q.
        dpf add lib (rands i) p.coeff q.coeff p.points q.points num_points domain zeros zeros in
      if i == 0
      then call t.s0 t.s1
      else if i == 1
      then call t.s0 t.e1
      else if i == 2
      then call t.e0 t.s1
      else call t.e0 t.e1

  -- The outputs of the two parties.
  unfoldable pub two_outputs : ℕ → ℕ → (ℕ → Entry) × (ℕ → Entry)
  two_outputs depth block_length =
      let num_points = 3 ^ block_length in
      let domain = 3 ^ (depth - block_length) in
      let length = 3 ^ depth in
      let d = draw_square prng length (record { drawn = 0; a = zeros; a_square = zeros }) in
      let t = loop (sample_two prng domain) num_points 0 (record {
        drawn = d.drawn;
        s0 = blank_term;
        s1 = blank_term;
        e0 = blank_term;
        e1 = blank_term;
      }) in
      let cross = four_terms num_points domain t in
      (
        thread_two depth length d (λ i. (cross i).0) t.s0.dense t.e0.dense,
        thread_two depth length d (λ i. (cross i).1) t.s1.dense t.e1.dense,
      )

  -- The whole run: none, or the index at which it throws.
  unfoldable pub extension_field_ole_two : ℕ → ℕ → Option ℕ
  extension_field_ole_two depth block_length =
      let out = two_outputs depth block_length in first_mismatch differ out.0 out.1 (3 ^ depth) 0
