-- ===== src/Encode/Drawing.antt =====
-- The expansion that `EA_encode_test` and `EC_encode_test` of test.h compute by themselves: entries that are
-- drawn from a generator of the library are added up, for eight rows at a time and then row by row.
use native.Mathlib.Nat.{mul-suc}
use extension_field_pcg.Common.{
  ℕ, zero, suc, ◌+◌, ◌-◌, ◌*◌, ◌≤◌, ◌<◌, ◌≡◌, ◌≢◌, ◌⊎◌, inl, inr, refl, sym, ap, ◌∙◌, subst, arith,
  write, write_self, write_other, below_or_from,
}
use extension_field_pcg.Loop.{loop, loop_from_zero}
use extension_field_pcg.Algebra.{Ring2, ◌⊕◌, add-nil}
use extension_field_pcg.Algebra.Sum.{sum}

-- The state of a generator after n draws, and the draw that follows.
unfoldable pub advance : {Gen : Type 0} → (Gen → ℕ × Gen) → Gen → ℕ → Gen
advance get g zero = g
advance get g (suc n) = (get (advance get g n)).1

abbrev pub nth : {Gen : Type 0} → (Gen → ℕ × Gen) → Gen → ℕ → ℕ
nth get g n = (get (advance get g n)).0

pub advance-add :
    {Gen : Type 0} (get : Gen → ℕ × Gen) (g : Gen) (m n : ℕ)
    → advance get (advance get g m) n ≡ advance get g (m + n)
unfolding advance
advance-add get g m zero = ap (advance get g) {x = m} {y = m + 0} (omega arith)
advance-add get g m (suc n) =
    ap (λ h. (get h).1) (advance-add get g m n)
    ∙ ap (advance get g) {x = suc (m + n)} {y = m + suc n} (omega arith)

-- The sums and the generator.
pub record Drawn (Gen A : Type 0) : Type 0 where
  pub y : ℕ → A
  pub gen : Gen

module _ {A : Type 0} ⦃r : Ring2 A⦄ where
  -- From y to y', each of the n entries from `start` on is added its f, and no other changes.
  pub record Adds (start n : ℕ) (f y y' : ℕ → A) : Type 0 where
    pub inside : (t : ℕ) → start ≤ t → t < start + n → y' t ≡ y t ⊕ f t
    pub outside : (t : ℕ) → (t < start) ⊎ (start + n ≤ t) → y' t ≡ y t

  pub Adds-none : (start : ℕ) (f y : ℕ → A) → Adds start 0 f y y
  Adds-none start f y = record { inside = λ t l u. absurd (omega arith); outside = λ t h. refl }

  pub Adds-nil : (start n : ℕ) (y : ℕ → A) → Adds start n (λ t. r.nil) y y
  Adds-nil start n y = record { inside = λ t l u. sym (add-nil (y t)); outside = λ t h. refl }

  -- Twice to the same entries.
  pub Adds-Adds :
      {start n : ℕ} {f g y y' z : ℕ → A}
      → Adds start n f y y'
      → Adds start n g y' z
      → Adds start n (λ t. f t ⊕ g t) y z
  Adds-Adds {f = f} {g = g} {y = y} a b = record {
    inside = λ t l u.
        b.inside t l u ∙ ap (λ x. x ⊕ g t) (a.inside t l u) ∙ r.add_assoc (y t) (f t) (g t);
    outside = λ t h. b.outside t h ∙ a.outside t h;
  }

  -- To entries, and then to those that follow.
  pub Adds-append :
      {start n m : ℕ} {f y y' z : ℕ → A}
      → Adds start n f y y'
      → Adds (start + n) m f y' z
      → Adds start (n + m) f y z
  Adds-append {start} {n} {m} {f = f} a b = record {
    inside = λ t l u. elim (below_or_from (start + n) t) [
      | inl h ↦ b.outside t (inl h) ∙ a.inside t l h
      | inr h ↦ b.inside t h (omega arith) ∙ ap (λ x. x ⊕ f t) (a.outside t (inr h))
    ];
    outside = λ t h. elim h [
      | inl k ↦ b.outside t (inl (omega arith)) ∙ a.outside t (inl k)
      | inr k ↦ b.outside t (inr (omega arith)) ∙ a.outside t (inr (omega arith))
    ];
  }

  pub Adds-congr :
      {start n : ℕ} {f g y z : ℕ → A}
      → ((t : ℕ) → start ≤ t → t < start + n → f t ≡ g t)
      → Adds start n f y z
      → Adds start n g y z
  Adds-congr {y = y} e a = record {
    inside = λ t l u. a.inside t l u ∙ ap (λ x. y t ⊕ x) (e t l u);
    outside = a.outside;
  }

  module _ {Gen : Type 0} (get : Gen → ℕ × Gen) (x : ℕ → A) where
    -- `idx = get() + shift; plus(y[entry], y[entry], x[idx])`.
    unfoldable pub add_drawn : ℕ → ℕ → Drawn Gen A → Drawn Gen A
    add_drawn shift entry s =
        let (idx, g) = get s.gen in
        record { y = write s.y entry (s.y entry ⊕ x (idx + shift)); gen = g }

    -- The two inner loops: for each j, the `width` entries from i on are added a drawn one.
    unfoldable pub add_rows : ℕ → (ℕ → ℕ) → ℕ → ℕ → Drawn Gen A → Drawn Gen A
    unfolding add_drawn
    add_rows width shift weight i s =
        loop (λ j u. loop (λ p v. add_drawn (shift j) (i + p) v) width 0 u) weight 0 s

    -- `i` alone is added a drawn entry for each j.
    unfoldable pub add_row : (ℕ → ℕ) → ℕ → ℕ → Drawn Gen A → Drawn Gen A
    unfolding add_drawn
    add_row shift weight i s = loop (λ j v. add_drawn (shift j) i v) weight 0 s

    add_drawn-Adds :
        (shift entry : ℕ) (s : Drawn Gen A) (f : ℕ → A)
        → f entry ≡ x ((get s.gen).0 + shift)
        → Adds entry 1 f s.y (add_drawn shift entry s).y
    unfolding add_drawn
    add_drawn-Adds shift entry s f e = record {
      inside = λ t l u.
          subst (λ k. write s.y entry (s.y entry ⊕ x ((get s.gen).0 + shift)) k ≡ s.y k ⊕ f k)
            {x = entry} {y = t} (omega arith)
            (write_self s.y entry _ ∙ ap (λ z. s.y entry ⊕ z) (sym e));
      outside = λ t h. write_other s.y entry t _ (apart t h);
    }
      where
        apart : (t : ℕ) → (t < entry) ⊎ (entry + 1 ≤ t) → t ≢ entry
        apart t (inl h) e = absurd (omega arith)
        apart t (inr h) e = absurd (omega arith)

    -- The drawn entry for the lane t of a round.
    abbrev pub lane : Gen → ℕ → ℕ → ℕ → A
    lane g shift i t = x (nth get g (t - i) + shift)

    -- One round draws `width` times.
    round-Adds :
        (width shift i : ℕ) (s : Drawn Gen A)
        → let u : Drawn Gen A = loop (λ p v. add_drawn shift (i + p) v) width 0 s in
          (u.gen ≡ advance get s.gen width) × Adds i width (lane s.gen shift i) s.y u.y
    unfolding advance add_drawn
    round-Adds width shift i s =
        loop_from_zero
          (λ p u. (u.gen ≡ advance get s.gen p) × Adds i p (lane s.gen shift i) s.y u.y)
          (λ p v. add_drawn shift (i + p) v) width s
          (λ p u l (e, a). (
            ap (λ h. (get h).1) e,
            subst (λ n. Adds i n (lane s.gen shift i) s.y (add_drawn shift (i + p) u).y) {x = p + 1}
                {y = suc p} (omega arith)
                (Adds-append a (
                  add_drawn-Adds shift (i + p) u (lane s.gen shift i) (
                    ap (λ k. x (nth get s.gen k + shift)) {x = i + p - i} {y = p} (omega arith)
                    ∙ ap (λ h. x ((get h).0 + shift)) (sym e)))),
          ))
          (refl, Adds-none i _ s.y)

    -- What the row t is added in a group of `width` rows from i on.
    abbrev pub row : ℕ → (ℕ → ℕ) → ℕ → Gen → ℕ → ℕ → A
    row width shift weight g i t = sum weight (λ j. x (nth get g (width * j + (t - i)) + shift j))

    pub add_rows-Adds :
        (width : ℕ) (shift : ℕ → ℕ) (weight i : ℕ) (s : Drawn Gen A)
        → ((add_rows width shift weight i s).gen ≡ advance get s.gen (width * weight))
          × Adds i width (row width shift weight s.gen i) s.y (add_rows width shift weight i s).y
    unfolding add_rows sum advance
    add_rows-Adds width shift weight i s =
        loop_from_zero
          (λ j u.
            (u.gen ≡ advance get s.gen (width * j))
            × Adds i width (row width shift j s.gen i) s.y u.y)
          (λ j u. loop (λ p v. add_drawn (shift j) (i + p) v) width 0 u) weight s
          (λ j u l (e, a).
            let (e', b) = round-Adds width (shift j) i u in
            (
              e'
                  ∙ ap (λ h. advance get h width) e
                  ∙ advance-add get s.gen (width * j) width
                  ∙ ap (advance get s.gen) (sym (mul-suc width j)),
              Adds-Adds a (
                  Adds-congr
                    (λ t l u'.
                      ap (λ h. x (nth get h (t - i) + shift j)) e
                      ∙ ap (λ h. x ((get h).0 + shift j))
                          (advance-add get s.gen (width * j) (t - i)))
                    b),
            ))
          (ap (advance get s.gen) {x = 0} {y = width * 0} (omega arith), Adds-nil i width s.y)

    -- One row is a group of width one.
    pub add_row-add_rows :
        (shift : ℕ → ℕ) (weight i : ℕ) (s : Drawn Gen A)
        → add_row shift weight i s ≡ add_rows 1 shift weight i s
    unfolding add_row add_rows loop
    add_row-add_rows shift weight i s =
        ap (λ k. loop (λ j v. add_drawn (shift j) k v) weight 0 s) {x = i} {y = i + 0} (omega arith)
