-- ===== src/Encode/Slots.antt =====
-- Which draws a row of the expansion gets: eight rows take turns as long as eight are left, and the rows
-- after them draw one after the other.
use native.Mathlib.Nat.{mul-suc}
use extension_field_pcg.Common.{
  ℕ, suc, ◌+◌, ◌-◌, ◌*◌, ◌/◌, ◌%◌, ◌≤◌, ◌<◌, ◌≡◌, sym, ap, ◌∙◌, subst, arith, ltb, lt→ltb,
  ltb-false, if◌then◌else◌,
}
use extension_field_pcg.Loop.{loop, loop_from_zero}
use extension_field_pcg.Algebra.{Ring2}
use extension_field_pcg.Algebra.Sum.{sum, sum_congr}
use extension_field_pcg.Encode.Drawing.{
  advance, nth, advance-add, Drawn, Adds, Adds-none, Adds-append, Adds-congr, add_row, add_rows,
  add_rows-Adds, add_row-add_rows,
}

-- The number of the draw that row t gets for j, of k rows with `weight` draws each.
abbrev pub slot : ℕ → ℕ → ℕ → ℕ → ℕ
slot k weight t j =
    if ltb t (k / 8 * 8) then 8 * weight * (t / 8) + (8 * j + t % 8) else weight * t + j

module _ {A : Type 0} ⦃r : Ring2 A⦄ where
  -- Groups of `width` rows, from `base` on.
  pub groups-Adds :
      {S : Type 0} (y : S → ℕ → A) (G : ℕ → S → Type 0) (body : ℕ → S → S) (base width count : ℕ)
      (f : ℕ → A) (s : S)
      → ((q : ℕ) (u : S)
          → q < count
          → G q u
          → G (suc q) (body q u) × Adds (base + width * q) width f (y u) (y (body q u)))
      → G 0 s
      → G count (loop body count 0 s) × Adds base (width * count) f (y s) (y (loop body count 0 s))
  groups-Adds y G body base width count f s step start =
      loop_from_zero (λ q u. G q u × Adds base (width * q) f (y s) (y u)) body count s
        (λ q u l (g, a).
          let (g', b) = step q u l g in
          (
            g',
            subst (λ n. Adds base n f (y s) (y (body q u))) {x = width * q + width}
                {y = width * suc q} (sym (mul-suc width q)) (Adds-append a b),
          ))
        (
          start,
          subst (λ n. Adds base n f (y s) (y s)) {x = 0} {y = width * 0} (omega arith)
              (Adds-none base f (y s)),
        )

  module _ {Gen : Type 0} (get : Gen → ℕ × Gen) (x : ℕ → A) (shift : ℕ → ℕ) (k weight : ℕ)
      (g : Gen) where
    -- What row t is added.
    abbrev pub drawn_sum : ℕ → A
    drawn_sum t = sum weight (λ j. x (nth get g (slot k weight t j) + shift j))

    later :
        (u h : Gen) (m n p : ℕ)
        → u ≡ advance get h m
        → m + n ≡ p
        → (get (advance get u n)).0 ≡ nth get h p
    later u h m n p e same =
        ap (λ v. nth get v n) e ∙ ap (λ v. (get v).0) (advance-add get h m n) ∙ ap (nth get h) same

    -- Group q of eight rows.
    pub octet-Adds :
        (q : ℕ) (s : Drawn Gen A)
        → q < k / 8
        → s.gen ≡ advance get g (8 * weight * q)
        → ((add_rows get x 8 shift weight (8 * q) s).gen ≡ advance get g (8 * weight * suc q))
          × Adds (8 * q) 8 drawn_sum s.y (add_rows get x 8 shift weight (8 * q) s).y
    octet-Adds q s l e =
        let (after, adds) = add_rows-Adds get x 8 shift weight (8 * q) s in
        (
          after
              ∙ ap (λ h. advance get h (8 * weight)) e
              ∙ advance-add get g (8 * weight * q) (8 * weight)
              ∙ ap (advance get g) (sym (mul-suc (8 * weight) q)),
          Adds-congr
              (λ t m u. sum_congr weight _ _ (λ j v.
                ap (λ n. x (n + shift j))
                  (later s.gen g (8 * weight * q) (8 * j + (t - 8 * q)) _ e
                    (place t j (omega arith) (omega arith) (omega arith)))))
              adds,
        )
      where
        place :
            (t j : ℕ)
            → t / 8 ≡ q
            → t % 8 ≡ t - 8 * q
            → t < k / 8 * 8
            → 8 * weight * q + (8 * j + (t - 8 * q)) ≡ slot k weight t j
        place t j d m u = sym (
            ap (λ b. if b then 8 * weight * (t / 8) + (8 * j + t % 8) else weight * t + j)
              (lt→ltb t (k / 8 * 8) u)
            ∙ ap (λ z. 8 * weight * z + (8 * j + t % 8)) d
            ∙ ap (λ z. 8 * weight * q + (8 * j + z)) m)

    -- Row t of those that are left.
    pub single-Adds :
        (t : ℕ) (s : Drawn Gen A)
        → k / 8 * 8 ≤ t
        → s.gen ≡ advance get g (weight * t)
        → ((add_row get x shift weight t s).gen ≡ advance get g (weight * suc t))
          × Adds t 1 drawn_sum s.y (add_row get x shift weight t s).y
    single-Adds t s l e =
        let (after, adds) = add_rows-Adds get x 1 shift weight t s in
        subst (λ z. (z.gen ≡ advance get g (weight * suc t)) × Adds t 1 drawn_sum s.y z.y)
          (sym (add_row-add_rows get x shift weight t s))
          (
            after
                ∙ ap (λ h. advance get h (1 * weight)) e
                ∙ advance-add get g (weight * t) (1 * weight)
                ∙ ap (advance get g) (omega (arith, mul-suc weight t)),
            Adds-congr
                (λ v m u. sum_congr weight _ _ (λ j w.
                  ap (λ n. x (n + shift j))
                    (later s.gen g (weight * t) (1 * j + (v - t)) _ e (place v j (omega arith)))))
                adds,
          )
      where
        place : (v j : ℕ) → v ≡ t → weight * t + (1 * j + (v - t)) ≡ slot k weight v j
        place v j same =
            subst (λ z. weight * t + (1 * j + (z - t)) ≡ slot k weight z j) (sym same)
              (omega arith
                ∙ sym (
                    ap (λ b. if b then 8 * weight * (t / 8) + (8 * j + t % 8) else weight * t + j)
                      (ltb-false t (k / 8 * 8) l)))
