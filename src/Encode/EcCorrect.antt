-- ===== src/Encode/EcCorrect.antt =====
-- `EC_encode_test` passes for a code of the library that does what it is described to do.
use extension_field_pcg.Common.{
  ℕ, zero, suc, ◌+◌, ◌-◌, ◌*◌, ◌%◌, ◌≤◌, ◌<◌, ◌==◌, Bool, true, false, not, ◌&&◌, ◌||◌, Option,
  none, some, if◌then◌else◌, ◌≡◌, refl, sym, ap, ap₂, ◌∙◌, fun_ext, arith, all_below-true, le→leb,
  eq→test, test→eq,
}
use extension_field_pcg.Algebra.{Ring2, ◌⊕◌}
use extension_field_pcg.Encode.Stepping.{acc_step, stepped, acc_step-stepped}
use extension_field_pcg.Encode.Coefficients.{acc_pass, accumulated, acc_pass-accumulated}
use extension_field_pcg.Encode.EcExpansion.{expanded, own_expansion_lem}
use extension_field_pcg.Encode.EcSyndrome.{
  ExConvCode, Triple, try_loop, at_offset, equal_vectors, one_round, library_passes, own_passes,
  compare_passes, ec_encode_test,
}

module _ {A Coeff Gen : Type 0} ⦃r : Ring2 A⦄ (mul_const : A → A)
    (code : ExConvCode A Coeff Gen) where
  -- What is asked of the library's code, for k rows of n entries and aw bits: a round accumulates, a pass
  -- does each round with its coefficient of the seed, and the expansion sets or adds to each row.
  pub record IsDescribed (n k aw : ℕ) : Type 0 where
    pub rounds :
        (i bits : ℕ) (x : ℕ → A)
        → i < n
        → code.acc_one_gen n i bits x ≡ stepped mul_const n aw i bits x
    pub unrolled_rounds :
        (i bits : ℕ) (x : ℕ → A)
        → i < n
        → aw ≡ 24
        → code.acc_one n i bits x ≡ stepped mul_const n aw i bits x
    pub passes :
        (second : Bool) (size : ℕ) (x : ℕ → A)
        → code.accumulate_fixed 0 second size x
          ≡ accumulated mul_const code.buffer size aw (code.coeff_gen second) x
    pub unrolled_passes :
        (second : Bool) (size : ℕ) (x : ℕ → A)
        → aw ≡ 24
        → code.accumulate_fixed 24 second size x
          ≡ accumulated mul_const code.buffer size aw (code.coeff_gen second) x
    pub expansion :
        (adds : Bool) (src dst : ℕ → A) (t : ℕ)
        → t < k
        → code.expand adds src dst t ≡ (if adds then dst t else r.nil) ⊕ expanded code n k src t

-- Rounds that keep a property and do not throw.
try_loop_rule :
    {S : Type 0} (P : S → Type 0) (body : ℕ → S → Option S) (n rounds i : ℕ) (s : S)
    → ((j : ℕ) (t : S) → j < n → P t → (u : S) × (body j t ≡ some u) × P u)
    → i + rounds ≡ n
    → P s
    → (u : S) × (try_loop body rounds i s ≡ some u) × P u
unfolding try_loop
try_loop_rule P body n zero i s keep e p = (s, refl, p)
try_loop_rule P body n (suc rounds) i s keep e p =
    let (t, q, p') = keep i s (omega arith) p in
    let (u, q', p'') = try_loop_rule P body n rounds (suc i) t keep (omega arith) p' in
    (u, ap (λ z. elim z [ none ↦ none | some v ↦ try_loop body rounds (suc i) v ]) q ∙ q', p'')

module _ {A Coeff Gen : Type 0} ⦃r : Ring2 A⦄ (mul_const : A → A) (differ : A → A → Bool)
    (same : (x : A) → differ x x ≡ false) (code : ExConvCode A Coeff Gen) (n k aw : ℕ)
    (described : IsDescribed mul_const code n k aw) where
  -- The three vectors agree; the second one is used for 24 bits alone.
  record IsAgreeing (s : Triple A) : Type 0 where
    pub general : s.x1 ≡ s.x3
    pub unrolled : aw ≡ 24 → s.x2 ≡ s.x3

  no_difference : (x y : A) → x ≡ y → not (differ x y) ≡ true
  no_difference x y e = ap (λ z. not (differ x z)) (sym e) ∙ ap not (same x)

  used_or_not : (b : Bool) (x y : A) → (b ≡ true → x ≡ y) → not (b && differ x y) ≡ true
  used_or_not true x y h = no_difference x y (h refl)
  used_or_not false x y h = refl

  one_round-IsAgreeing :
      (rand i : ℕ) (s : Triple A)
      → aw ≤ 64
      → aw + 1 < n
      → i < n
      → IsAgreeing s
      → (u : Triple A) × (one_round mul_const differ code n aw rand i s ≡ some u) × IsAgreeing u
  unfolding one_round
  one_round-IsAgreeing rand i s small h l p = (
    u,
    ap (λ b. if b then some u else none)
        (ap₂ ◌&&◌ (le→leb aw 64 small) (
          all_below-true (aw + 1) _ (λ a.
            ap₂ ◌&&◌
              (used_or_not (aw == 24) _ _
                (λ e. ap (λ v. v ((i + 1 + a) % n)) (first ∙ sym (second (test→eq aw 24 e)))))
              (no_difference _ _ (ap (λ v. v ((i + 1 + a) % n)) first))))),
    record { general = first; unrolled = second },
  )
    where
      u : Triple A
      u = record {
        x1 = code.acc_one_gen n i rand s.x1;
        x2 = if aw == 24 then code.acc_one n i rand s.x2 else s.x2;
        x3 = acc_step mul_const n aw i rand s.x3;
      }

      own : stepped mul_const n aw i rand s.x3 ≡ u.x3
      own = sym (fun_ext (acc_step-stepped n i rand s.x3 l mul_const aw h))

      first : u.x1 ≡ u.x3
      first = described.rounds i rand s.x1 l ∙ ap (stepped mul_const n aw i rand) p.general ∙ own

      second : aw ≡ 24 → u.x2 ≡ u.x3
      second e =
          ap (λ b. if b then code.acc_one n i rand s.x2 else s.x2) (eq→test aw 24 e)
          ∙ described.unrolled_rounds i rand s.x2 l e
          ∙ ap (stepped mul_const n aw i rand) (p.unrolled e)
          ∙ own

  equal_vectors-true :
      (m : ℕ) (v w : ℕ → A) → ((t : ℕ) → t < m → v t ≡ w t) → equal_vectors differ m v w ≡ true
  unfolding equal_vectors
  equal_vectors-true zero v w h = refl
  equal_vectors-true (suc m) v w h =
      ap₂ ◌&&◌ (no_difference (v m) (w m) (h m (omega arith)))
        (equal_vectors-true m v w (λ t l. h t (omega arith)))

  library_passes-own_passes :
      (unrolled offset size : ℕ) (x : ℕ → A)
      → aw + 1 < size
      → ((second : Bool) (y : ℕ → A)
          → code.accumulate_fixed unrolled second size y
            ≡ accumulated mul_const code.buffer size aw (code.coeff_gen second) y)
      → library_passes code unrolled offset size x ≡ own_passes mul_const code aw offset size x
  unfolding library_passes own_passes
  library_passes-own_passes unrolled offset size x h e =
      ap₂
        (λ f g.
          let once = at_offset offset f x in
          if code.acc_twice then at_offset offset g once else once)
        (each false) (each true)
    where
      each :
          (second : Bool)
          → code.accumulate_fixed unrolled second size
            ≡ acc_pass mul_const code.buffer size aw (code.coeff_gen second)
      each second = fun_ext (λ y.
          e second y
          ∙ sym (acc_pass-accumulated mul_const code.buffer size aw (code.coeff_gen second) y h))

  set_or_added :
      (b : Bool) (x : A)
      → (if b then (if b then x else r.nil) else r.nil) ≡ (if b then x else r.nil)
  set_or_added true x = refl
  set_or_added false x = refl

  compare_passes-true :
      (sys : Bool) (s : Triple A)
      → aw + 1 < n - (if sys then k else 0)
      → IsAgreeing s
      → compare_passes mul_const differ code k n aw sys s ≡ true
  unfolding compare_passes
  compare_passes-true sys s h p =
      ap₂ ◌&&◌
        (ap₂ ◌&&◌
          (skipped_or (aw == 24) _ (λ e.
            equal_vectors-true n _ _
              (λ t l. ap (λ v. v t) (first ∙ sym (second (test→eq aw 24 e))))))
          (equal_vectors-true n _ _ (λ t l. ap (λ v. v t) first)))
        (equal_vectors-true k _ _ (λ t l.
          described.expansion sys (λ i. x1 (offset + i)) start t l
          ∙ ap (λ z. z ⊕ expanded code n k (λ i. x1 (offset + i)) t) (set_or_added sys (x1 t))
          ∙ sym (own_expansion_lem code n k offset x1 start t l)))
    where
      offset : ℕ
      offset = if sys then k else 0

      x1 : ℕ → A
      x1 = library_passes code 0 offset (n - offset) s.x1

      start : ℕ → A
      start i = if sys then x1 i else r.nil

      skipped_or : (b c : Bool) → (b ≡ true → c ≡ true) → (not b || c) ≡ true
      skipped_or true c q = q refl
      skipped_or false c q = refl

      first : x1 ≡ own_passes mul_const code aw offset (n - offset) s.x3
      first =
          library_passes-own_passes 0 offset (n - offset) s.x1 h
            (λ second y. described.passes second (n - offset) y)
          ∙ ap (own_passes mul_const code aw offset (n - offset)) p.general

      second :
          aw ≡ 24
          → library_passes code 24 offset (n - offset) s.x2
            ≡ own_passes mul_const code aw offset (n - offset) s.x3
      second e =
          library_passes-own_passes 24 offset (n - offset) s.x2 h
            (λ second y. described.unrolled_passes second (n - offset) y e)
          ∙ ap (own_passes mul_const code aw offset (n - offset)) (p.unrolled e)

-- For a code of the library that accumulates and expands as it is described to, whatever is drawn at random,
-- with at most 64 bits in a round, and two entries more than these in what is accumulated: `EC_encode_test`
-- does not throw, since in each round, each pass and the expansion the library's code agrees with its own,
-- for a test `!=` that tells no element from itself.
pub ec_encode_test-true :
    {A Coeff Gen : Type 0} ⦃r : Ring2 A⦄
    → (mul_const : A → A) (differ : A → A → Bool) → ((x : A) → differ x x ≡ false)
    → (config : ℕ → ℕ → ℕ → ℕ → Bool → ExConvCode A Coeff Gen) (drawn : ℕ → A) (rand : ℕ → ℕ)
      (k rate bw aw : ℕ) (sys : Bool)
    → aw ≤ 64
    → aw + 1 < rate * k - (if sys then k else 0)
    → IsDescribed mul_const (config k (rate * k) bw aw sys) (rate * k) k aw
    → ec_encode_test mul_const differ config drawn rand k rate bw aw sys ≡ true
unfolding ec_encode_test
ec_encode_test-true {A} mul_const differ same config drawn rand k rate bw aw sys small room
      described =
    let n = rate * k in
    let code = config k n bw aw sys in
    let start : Triple A = record { x1 = drawn; x2 = drawn; x3 = drawn } in
    let (u, e, p) =
      try_loop_rule (IsAgreeing mul_const differ same code n k aw described) _ n n 0 start
        (λ i s l q.
          one_round-IsAgreeing mul_const differ same code n k aw described (rand i) i s small
            (omega arith) l q)
        (omega arith) (record { general = refl; unrolled = λ q. refl }) in
    ap (λ z. elim z [ none ↦ false | some s ↦ compare_passes mul_const differ code k n aw sys s ]) e
    ∙ compare_passes-true mul_const differ same code n k aw described sys u room p
