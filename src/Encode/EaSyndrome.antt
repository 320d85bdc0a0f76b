-- ===== src/Encode/EaSyndrome.antt =====
-- `EA_encode_test` of test.h, without the clock: the library's code `EACode` encodes a vector, and the function
-- expands it by itself. What is drawn at random is an argument.
use extension_field_pcg.Common.{
  ℕ, suc, ◌+◌, ◌-◌, ◌*◌, ◌/◌, ◌≤◌, ◌<◌, ◌≡◌, refl, ap, ◌∙◌, subst, arith, inr,
}
use extension_field_pcg.Loop.{loop}
use extension_field_pcg.Algebra.{Ring2}
use extension_field_pcg.Algebra.Sum.{sum, sum_congr}
use extension_field_pcg.Encode.Drawing.{Drawn, add_row, add_rows, Adds, Adds-append, nth, advance}
use extension_field_pcg.Encode.Slots.{slot, groups-Adds, drawn_sum, octet-Adds, single-Adds}

-- The library's code after `config`, with its generator of indices.
pub record EaCode (A Gen : Type 0) : Type 0 where
  pub accumulate : (ℕ → A) → ℕ → A
  pub dual_encode : (ℕ → A) → ℕ → A
  pub expander_weight : ℕ
  pub expander : Gen
  pub get : Gen → ℕ × Gen

module _ {A Gen : Type 0} ⦃r : Ring2 A⦄ where
  -- The function's own expansion of k rows of x.
  unfoldable pub ea_expansion : EaCode A Gen → ℕ → (ℕ → A) → ℕ → A
  ea_expansion code k x =
      let start : Drawn Gen A = record { y = λ i. r.nil; gen = code.expander } in
      let main =
        loop (λ q s. add_rows code.get x 8 (λ j. 0) code.expander_weight (8 * q) s) (k / 8) 0
          start in
      (loop (λ q s. add_row code.get x (λ j. 0) code.expander_weight (k / 8 * 8 + q) s)
        (k - k / 8 * 8) 0 main).y

  -- m0 and m1, for the random vector c0.
  unfoldable pub ea_encode_test :
      (ℕ → ℕ → ℕ → EaCode A Gen) → (ℕ → A) → ℕ → ℕ → ℕ → (ℕ → A) × (ℕ → A)
  ea_encode_test config c0 k rate bw =
      let n = k * rate in
      let code = config k n bw in
      let a0 = code.accumulate c0 in (ea_expansion code k a0, code.dual_encode c0)

  module _ (config : ℕ → ℕ → ℕ → EaCode A Gen) (c0 : ℕ → A) (k rate bw : ℕ) where
    abbrev code : EaCode A Gen
    code = config k (k * rate) bw

    -- What row t is.
    abbrev row_sum : ℕ → A
    row_sum = drawn_sum code.get (code.accumulate c0) (λ j. 0) k code.expander_weight code.expander

    octets-Adds :
        (s : Drawn Gen A)
        → s.gen ≡ code.expander
        → let u : Drawn Gen A =
            loop
              (λ q v.
                add_rows code.get (code.accumulate c0) 8 (λ j. 0) code.expander_weight (8 * q) v)
              (k / 8)
              0
              s in
          (u.gen ≡ advance code.get code.expander (8 * code.expander_weight * (k / 8)))
          × Adds 0 (8 * (k / 8)) row_sum s.y u.y
    unfolding advance
    octets-Adds s e =
        groups-Adds (λ v. v.y)
          (λ q v. v.gen ≡ advance code.get code.expander (8 * code.expander_weight * q)) _ 0 8
          (k / 8) row_sum s
          (λ q v l g.
            let (g', a) =
              octet-Adds code.get (code.accumulate c0) (λ j. 0) k code.expander_weight code.expander
                q v l g in
            (
              g',
              subst
                  (λ z.
                    Adds z 8 row_sum v.y
                      (add_rows code.get (code.accumulate c0) 8 (λ j. 0) code.expander_weight
                        (8 * q) v).y)
                  {x = 8 * q} {y = 0 + 8 * q} (omega arith) a,
            ))
          (e
            ∙ ap (advance code.get code.expander) {x = 0} {y = 8 * code.expander_weight * 0}
                (omega arith))

    rows-Adds :
        (s : Drawn Gen A)
        → s.gen ≡ advance code.get code.expander (8 * code.expander_weight * (k / 8))
        → let u : Drawn Gen A =
            loop
              (λ q v.
                add_row code.get
                  (code.accumulate c0)
                  (λ j. 0)
                  code.expander_weight
                  (k / 8 * 8 + q)
                  v)
              (k - k / 8 * 8)
              0
              s in
          Adds (0 + 8 * (k / 8)) (1 * (k - k / 8 * 8)) row_sum s.y u.y
    rows-Adds s e =
        subst
          (λ z.
            Adds z (1 * (k - k / 8 * 8)) row_sum s.y
              (loop
                (λ q v.
                  add_row code.get (code.accumulate c0) (λ j. 0) code.expander_weight
                    (k / 8 * 8 + q) v)
                (k - k / 8 * 8) 0 s).y)
          {x = k / 8 * 8} {y = 0 + 8 * (k / 8)} (omega arith)
          (groups-Adds (λ v. v.y)
            (λ q v. v.gen ≡ advance code.get code.expander (code.expander_weight * (k / 8 * 8 + q)))
            (λ q v.
              add_row code.get (code.accumulate c0) (λ j. 0) code.expander_weight (k / 8 * 8 + q) v)
            (k / 8 * 8) 1 (k - k / 8 * 8) row_sum s
            (λ q v l g.
              let (g', a) =
                single-Adds code.get (code.accumulate c0) (λ j. 0) k code.expander_weight
                  code.expander (k / 8 * 8 + q) v (omega arith) g in
              (
                g'
                    ∙ ap (λ z. advance code.get code.expander (code.expander_weight * z))
                        {x = suc (k / 8 * 8 + q)} {y = k / 8 * 8 + suc q} (omega arith),
                subst
                    (λ z.
                      Adds z 1 row_sum v.y
                        (add_row code.get (code.accumulate c0) (λ j. 0) code.expander_weight
                          (k / 8 * 8 + q) v).y)
                    {x = k / 8 * 8 + q} {y = k / 8 * 8 + 1 * q} (omega arith) a,
              ))
            (e ∙ ap (advance code.get code.expander) (swap code.expander_weight (k / 8)))).1
      where
        swap : (w q : ℕ) → 8 * w * q ≡ w * (q * 8 + 0)
        swap w q = grind arith

    -- Entry t of m0, for t below k, is the sum of the accumulated vector at the indices that row t draws: eight
    -- rows take turns, and the rows after the last eight draw one after the other; all other entries are zero.
    pub ea_encode_test_lem :
        ((t : ℕ)
          → t < k
          → (ea_encode_test config c0 k rate bw).0 t
            ≡ sum code.expander_weight (λ j.
              code.accumulate c0 (nth code.get code.expander (slot k code.expander_weight t j))))
        × ((t : ℕ) → k ≤ t → (ea_encode_test config c0 k rate bw).0 t ≡ r.nil)
    unfolding ea_encode_test ea_expansion
    ea_encode_test_lem =
        let start : Drawn Gen A = record { y = λ i. r.nil; gen = code.expander } in
        let (at, a) = octets-Adds start refl in
        let all = Adds-append a (rows-Adds _ at) in
        (
          λ t l.
              all.inside t (omega arith) (omega arith)
              ∙ r.nil-add _
              ∙ sum_congr code.expander_weight _ _ (λ j u. ap (code.accumulate c0) (omega arith)),
          λ t l. all.outside t (inr (omega arith)),
        )
