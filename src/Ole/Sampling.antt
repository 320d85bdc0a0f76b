-- ===== src/Ole/Sampling.antt =====
-- The random polynomials of `Extension_Field_OLE` in OLE.h: the dense ones, `a`, and each party's
-- sparse ones, with one point in each block of `domain` coefficients.
use native.Mathlib.Nat.{mod-lt, suc-mul, mul-le-mul_right}
use extension_field_pcg.Common.{
  ℕ, suc, ◌+◌, ◌*◌, ◌%◌, ◌<◌, ◌≤◌, ◌≡◌, ◌≢◌, refl, sym, ap, ap₂, ◌∙◌, subst, arith, inl, inr,
}
use extension_field_pcg.Common.{write, write_self, write_other, equal_or_not}
use extension_field_pcg.Loop.{loop, loop_from_zero}
use extension_field_pcg.Algebra.{◌⊕◌}
use extension_field_pcg.Algebra.Sum.{sum, sum_congr, sum-nil}
use extension_field_pcg.F4.Ring.{Block, f4_ring}
use extension_field_pcg.Fft.{Store}
use extension_field_pcg.Fft.Spike.{spike, spike_other}
use extension_field_pcg.Fft.Sparse.{sparse}
use extension_field_pcg.Ole.Products.{write-spike}

-- The generator: draw number k gives a word, for `prng.get<u64>()`, or a block.
pub record Prng : Type 0 where
  pub word : ℕ → ℕ
  pub block : ℕ → Block

-- `for (k < c) for (i < length) a[k][i] = prng.get();`
unfoldable pub draw_a : Prng → ℕ → ℕ → ℕ × (ℕ → Store) → ℕ × (ℕ → Store)
draw_a prng c length s =
    loop (λ k s. loop (λ i u. (suc u.0, write u.1 k (write (u.1 k) i (prng.block u.0)))) length 0 s)
      c 0 s

-- One sparse polynomial of one party: its `poly_points[k]`, `poly_s[k]` and `s[k]`.
pub record Term : Type 0 where
  pub points : ℕ → ℕ
  pub coeff : Store
  pub dense : Store

-- `poly_points[k][i] = p; poly_s[k][i] = v; s[k][poly_points[k][i].toInt() + i * domain] = v;`
unfoldable pub set_term : ℕ → ℕ → ℕ → Block → Term → Term
set_term domain i p v t = record {
  points = write t.points i p;
  coeff = write t.coeff i v;
  dense = write t.dense (p + i * domain) v;
}

pub record Row : Type 0 where
  pub drawn : ℕ
  pub term0 : Term
  pub term1 : Term

-- The body at index i, which draws two points and two coefficients.
unfoldable pub sample_one : Prng → ℕ → ℕ → Row → Row
sample_one prng domain i r = record {
  drawn = r.drawn + 4;
  term0 = set_term domain i (prng.word r.drawn % domain) (prng.block (r.drawn + 2)) r.term0;
  term1 = set_term domain i (prng.word (r.drawn + 1) % domain) (prng.block (r.drawn + 3)) r.term1;
}

pub record Terms : Type 0 where
  pub drawn : ℕ
  pub terms0 : ℕ → Term
  pub terms1 : ℕ → Term

-- `for (k < c) for (i < numPoints)`
unfoldable pub sample_terms : Prng → ℕ → ℕ → ℕ → Terms → Terms
sample_terms prng num_points domain c s =
    loop
      (λ k u.
        let start : Row = record { drawn = u.drawn; term0 = u.terms0 k; term1 = u.terms1 k } in
        let r = loop (sample_one prng domain) num_points 0 start in
        record {
          drawn = r.drawn;
          terms0 = write u.terms0 k r.term0;
          terms1 = write u.terms1 k r.term1;
        })
      c 0 s

abbrev pub places : ℕ → Term → ℕ → ℕ
places domain t i = t.points i + i * domain

-- The first n points and coefficients of a term describe its dense array.
pub record IsSparse (domain n : ℕ) (t : Term) : Type 0 where
  pub within : (i : ℕ) → i < n → t.points i < domain
  pub same : (x : ℕ) → t.dense x ≡ sparse n (places domain t) t.coeff x

-- What is left of a block's end is not yet set.
unset :
    (domain n : ℕ) (t : Term) (p : ℕ) → IsSparse domain n t → t.dense (p + n * domain) ≡ f4_ring.nil
unset domain n t p h =
    h.same (p + n * domain)
    ∙ sum-nil n _ (λ i l.
      let up : suc i * domain ≤ n * domain = mul-le-mul_right domain l in
      spike_other (places domain t i) (t.coeff i) (p + n * domain)
        (λ e. omega (arith, e, h.within i l, suc-mul i domain, up)))

pub set_term-IsSparse :
    (domain n p : ℕ) (v : Block) (t : Term)
    → p < domain
    → IsSparse domain n t
    → IsSparse domain (suc n) (set_term domain n p v t)
unfolding set_term sum
set_term-IsSparse domain n p v t l h = record {
  within = λ i m. elim (equal_or_not i n) [
    | inl e ↦ omega (arith, ap (write t.points n p) e, write_self t.points n p)
    | inr d ↦ omega (arith, write_other t.points n i p d, h.within i (omega arith))
  ];
  same = λ x.
      ap (λ b. write t.dense (p + n * domain) b x)
        (sym (ap (λ b. b ⊕ v) (unset domain n t p h) ∙ f4_ring.nil-add v))
      ∙ write-spike t.dense (p + n * domain) v x
      ∙ ap₂ ◌⊕◌
          (h.same x
            ∙ sum_congr n _ _ (λ i m. sym (
                ap₂ (λ q b. spike (q + i * domain) b x) (write_other t.points n i p (omega arith))
                  (write_other t.coeff n i v (omega arith)))))
          (sym (
            ap₂ (λ q b. spike (q + n * domain) b x) (write_self t.points n p)
              (write_self t.coeff n v)));
}

-- A term that holds nothing.
abbrev pub blank_term : Term
blank_term = record { points = λ i. 0; coeff = λ i. f4_ring.nil; dense = λ i. f4_ring.nil }

module _ (prng : Prng) (n domain : ℕ) (pos : 0 < domain) where
  abbrev BothAreSparse : ℕ → Term → Term → Type 0
  BothAreSparse j t0 t1 = IsSparse domain j t0 × IsSparse domain j t1

  row-IsSparse :
      (start : Row)
      → BothAreSparse 0 start.term0 start.term1
      → BothAreSparse n
          (loop (sample_one prng domain) n 0 start).term0
          (loop (sample_one prng domain) n 0 start).term1
  unfolding sample_one
  row-IsSparse start h =
      loop_from_zero (λ j r. BothAreSparse j r.term0 r.term1) (sample_one prng domain) n start
        (λ j r l before. (
          set_term-IsSparse domain j _ _ r.term0 (mod-lt (prng.word r.drawn) pos) before.0,
          set_term-IsSparse domain j _ _ r.term1 (mod-lt (prng.word (r.drawn + 1)) pos) before.1,
        ))
        h

  pub blank-IsSparse : IsSparse domain 0 blank_term
  unfolding sum
  blank-IsSparse = record { within = λ i l. absurd (omega arith); same = λ x. refl }

  -- The first j terms of both parties are sparse, and the others hold nothing.
  abbrev Sampled : ℕ → Terms → Type 0
  Sampled j u =
      (i : ℕ)
      → (i < j → BothAreSparse n (u.terms0 i) (u.terms1 i))
        × (j ≤ i → BothAreSparse 0 (u.terms0 i) (u.terms1 i))

  one_more_term :
      (j : ℕ) (u : Terms) (t0 t1 : Term)
      → Sampled j u
      → BothAreSparse n t0 t1
      → (i : ℕ)
      → (i < suc j → BothAreSparse n (write u.terms0 j t0 i) (write u.terms1 j t1 i))
        × (suc j ≤ i → BothAreSparse 0 (write u.terms0 j t0 i) (write u.terms1 j t1 i))
  one_more_term j u t0 t1 before now i = elim (equal_or_not i j) [
    | inl e ↦ (
      λ l.
          subst (λ x. BothAreSparse n (write u.terms0 j t0 x) (write u.terms1 j t1 x)) (sym e)
            (
              subst (IsSparse domain n) (sym (write_self u.terms0 j t0)) now.0,
              subst (IsSparse domain n) (sym (write_self u.terms1 j t1)) now.1,
            ),
      λ l. absurd (omega (arith, e)),
    )
    | inr d ↦
        (λ l. others n d ((before i).0 (omega arith)), λ l. others 0 d ((before i).1 (omega arith)))
  ]
    where
      others :
          (m : ℕ)
          → i ≢ j
          → BothAreSparse m (u.terms0 i) (u.terms1 i)
          → BothAreSparse m (write u.terms0 j t0 i) (write u.terms1 j t1 i)
      others m d h = (
        subst (IsSparse domain m) (sym (write_other u.terms0 j i t0 d)) h.0,
        subst (IsSparse domain m) (sym (write_other u.terms1 j i t1 d)) h.1,
      )

  -- The loops fill c terms of both parties, each of which is sparse after them: its points are below
  -- `domain`, for a domain that is not empty, and its dense array is zero outside the places of the points
  -- and holds the coefficients there, when the arrays were zero before.
  pub sample_terms-IsSparse :
      (c drawn k : ℕ)
      → k < c
      → IsSparse domain n (
          (sample_terms prng n domain c
              (record { drawn = drawn; terms0 = λ i. blank_term; terms1 = λ i. blank_term })).terms0
            k)
        × IsSparse domain n (
            (sample_terms prng n domain c (record {
              drawn = drawn;
              terms0 = λ i. blank_term;
              terms1 = λ i. blank_term;
            })).terms1
              k)
  unfolding sample_terms
  sample_terms-IsSparse c drawn k l =
      (loop_from_zero Sampled _ c
          (record { drawn = drawn; terms0 = λ i. blank_term; terms1 = λ i. blank_term })
          (λ j u m before. one_more_term j u _ _ before (
            row-IsSparse (record { drawn = u.drawn; term0 = u.terms0 j; term1 = u.terms1 j })
              ((before j).1 (omega arith))))
          (λ i. (λ m. absurd (omega arith), λ m. (blank-IsSparse, blank-IsSparse))) k).0
        l
