-- ===== src/Encode/EcExpansion.antt =====
-- The expansion that `EC_encode_test` of test.h computes by itself, row by row.
use extension_field_pcg.Common.{
  ℕ, suc, ◌+◌, ◌-◌, ◌*◌, ◌/◌, ◌<◌, ◌≡◌, refl, sym, ap, ap₂, ◌∙◌, subst, arith,
}
use extension_field_pcg.Loop.{loop}
use extension_field_pcg.Algebra.{Ring2, ◌⊕◌}
use extension_field_pcg.Algebra.Sum.{sum, sum_congr}
use extension_field_pcg.Encode.Drawing.{
  add_row, add_rows, Adds, Adds-Adds, Adds-append, nth, advance,
}
use extension_field_pcg.Encode.Slots.{slot, groups-Adds, drawn_sum, octet-Adds, single-Adds}
use extension_field_pcg.Encode.EcSyndrome.{
  ExConvCode, Expansion, reg_count, step, ex_size, expand_octet, expand_row, own_expansion,
}

module _ {A Coeff Gen : Type 0} ⦃r : Ring2 A⦄ (code : ExConvCode A Coeff Gen) where
  -- What the expansion is to add to row t: the regular draws, each from its part of the code, and the others.
  abbrev pub expanded : ℕ → ℕ → (ℕ → A) → ℕ → A
  expanded n k src t =
      sum (reg_count code) (λ j. src (
        nth code.get (code.regular_gen (ex_size code n)) (slot k (reg_count code) t j)
        + step code * j))
      ⊕ sum (code.expander_weight - reg_count code) (λ j. src (
          nth code.get (code.full_gen code.code_size)
            (slot k (code.expander_weight - reg_count code) t j)))

  module _ (n k offset : ℕ) (x y : ℕ → A) where
    abbrev regular_start : Gen
    regular_start = code.regular_gen (ex_size code n)

    abbrev full_start : Gen
    full_start = code.full_gen code.code_size

    abbrev others : ℕ
    others = code.expander_weight - reg_count code

    -- What row t gets.
    abbrev both_sums : ℕ → A
    both_sums t =
        drawn_sum code.get x (λ j. step code * j + offset) k (reg_count code) regular_start t
        ⊕ drawn_sum code.get x (λ j. offset) k others full_start t

    -- Both generators, after m draws for each j.
    abbrev AreAt : (ℕ → ℕ) → ℕ → Expansion Gen A → Type 0
    AreAt m q s =
        (s.regular ≡ advance code.get regular_start (reg_count code * m q))
        × (s.full ≡ advance code.get full_start (others * m q))

    octets-Adds :
        (s : Expansion Gen A)
        → (s.regular ≡ regular_start) × (s.full ≡ full_start)
        → let u : Expansion Gen A =
            loop (λ q v. expand_octet code x offset (8 * q) v) (k / 8) 0 s in
          AreAt (λ q. q * 8) (k / 8) u × Adds 0 (8 * (k / 8)) both_sums s.y u.y
    unfolding expand_octet advance
    octets-Adds s (e, f) =
        groups-Adds (λ v. v.y) (AreAt (λ q. q * 8)) (λ q v. expand_octet code x offset (8 * q) v) 0
          8 (k / 8) both_sums s
          (λ q v l (g, h).
            let (g', a) =
              octet-Adds code.get x (λ j. step code * j + offset) k (reg_count code) regular_start q
                (record { y = v.y; gen = v.regular }) l
                (g ∙ ap (advance code.get regular_start) (swap (reg_count code) q)) in
            let (h', b) =
              octet-Adds code.get x (λ j. offset) k others full_start q
                (record {
                  y =
                      (add_rows code.get x 8 (λ j. step code * j + offset) (reg_count code) (8 * q)
                        (record { y = v.y; gen = v.regular })).y;
                  gen = v.full;
                })
                l (h ∙ ap (advance code.get full_start) (swap others q)) in
            (
              (
                g' ∙ ap (advance code.get regular_start) (sym (swap (reg_count code) (suc q))),
                h' ∙ ap (advance code.get full_start) (sym (swap others (suc q))),
              ),
              subst (λ z. Adds z 8 both_sums v.y (expand_octet code x offset (8 * q) v).y)
                  {x = 8 * q} {y = 0 + 8 * q} (omega arith) (Adds-Adds a b),
            ))
          (
            e
                ∙ ap (advance code.get regular_start) {x = 0} {y = reg_count code * (0 * 8)}
                    (omega arith),
            f ∙ ap (advance code.get full_start) {x = 0} {y = others * (0 * 8)} (omega arith),
          )
      where
        swap : (w q : ℕ) → w * (q * 8) ≡ 8 * w * q
        swap w q = grind arith

    rows-Adds :
        (s : Expansion Gen A)
        → AreAt (λ q. q * 8) (k / 8) s
        → let u : Expansion Gen A =
            loop (λ q v. expand_row code x offset (k / 8 * 8 + q) v) (k - k / 8 * 8) 0 s in
          Adds (0 + 8 * (k / 8)) (1 * (k - k / 8 * 8)) both_sums s.y u.y
    unfolding expand_row
    rows-Adds s (e, f) =
        subst
          (λ z.
            Adds z (1 * (k - k / 8 * 8)) both_sums s.y
              (loop (λ q v. expand_row code x offset (k / 8 * 8 + q) v) (k - k / 8 * 8) 0 s).y)
          {x = k / 8 * 8} {y = 0 + 8 * (k / 8)} (omega arith)
          (groups-Adds (λ v. v.y) (AreAt (λ q. k / 8 * 8 + q))
            (λ q v. expand_row code x offset (k / 8 * 8 + q) v) (k / 8 * 8) 1 (k - k / 8 * 8)
            both_sums s
            (λ q v l (g, h).
              let (g', a) =
                single-Adds code.get x (λ j. step code * j + offset) k (reg_count code)
                  regular_start (k / 8 * 8 + q) (record { y = v.y; gen = v.regular }) (omega arith)
                  g in
              let (h', b) =
                single-Adds code.get x (λ j. offset) k others full_start (k / 8 * 8 + q)
                  (record {
                    y =
                        (add_row code.get x (λ j. step code * j + offset) (reg_count code)
                          (k / 8 * 8 + q) (record { y = v.y; gen = v.regular })).y;
                    gen = v.full;
                  })
                  (omega arith) h in
              (
                (
                  g'
                      ∙ ap (λ z. advance code.get regular_start (reg_count code * z))
                          {x = suc (k / 8 * 8 + q)} {y = k / 8 * 8 + suc q} (omega arith),
                  h'
                      ∙ ap (λ z. advance code.get full_start (others * z)) {x = suc (k / 8 * 8 + q)}
                          {y = k / 8 * 8 + suc q} (omega arith),
                ),
                subst (λ z. Adds z 1 both_sums v.y (expand_row code x offset (k / 8 * 8 + q) v).y)
                    {x = k / 8 * 8 + q} {y = k / 8 * 8 + 1 * q} (omega arith) (Adds-Adds a b),
              ))
            (
              e
                  ∙ ap (λ z. advance code.get regular_start (reg_count code * z)) {x = k / 8 * 8}
                      {y = k / 8 * 8 + 0} (omega arith),
              f
                  ∙ ap (λ z. advance code.get full_start (others * z)) {x = k / 8 * 8}
                      {y = k / 8 * 8 + 0} (omega arith),
            )).1

    both_sums-expanded : (t : ℕ) → both_sums t ≡ expanded n k (λ i. x (offset + i)) t
    both_sums-expanded t =
        ap₂ ◌⊕◌ (sum_congr (reg_count code) _ _ (λ j l. ap x (omega arith)))
          (sum_congr others _ _ (λ j l. ap x (omega arith)))

    -- The test's own expansion adds to each of k rows, from the entries behind an offset, what the expansion is
    -- to add: with the draws in turns of eight rows, and row by row for those that are left.
    pub own_expansion_lem :
        (t : ℕ)
        → t < k
        → own_expansion code n k x offset y t ≡ y t ⊕ expanded n k (λ i. x (offset + i)) t
    unfolding own_expansion
    own_expansion_lem t l =
        let start : Expansion Gen A = record {
          y = y;
          regular = regular_start;
          full = full_start;
        } in
        let (at, a) = octets-Adds start (refl, refl) in
        (Adds-append a (rows-Adds _ at)).inside t (omega arith) (omega arith)
        ∙ ap (λ z. y t ⊕ z) (both_sums-expanded t)
