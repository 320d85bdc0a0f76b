-- ===== src/Encode/EcSyndrome.antt =====
-- `EC_encode_test` of test.h, without the clock: it runs the parts of the library's code `ExConvCode` and
-- compares them with its own. What is drawn at random is an argument.
use extension_field_pcg.Common.{
  ℕ, zero, suc, ◌+◌, ◌-◌, ◌*◌, ◌/◌, ◌%◌, ◌==◌, ltb, leb, Bool, true, false, not, ◌&&◌, ◌||◌, Option,
  none, some, if◌then◌else◌, all_below,
}
use extension_field_pcg.Loop.{loop}
use extension_field_pcg.Algebra.{Ring2}
use extension_field_pcg.Encode.Drawing.{add_row, add_rows}
use extension_field_pcg.Encode.Stepping.{acc_step}
use extension_field_pcg.Encode.Coefficients.{Buffer, div_ceil, acc_pass}

-- The library's code after `config`, and its generators. The second of two passes has the seed negated.
pub record ExConvCode (A Coeff Gen : Type 0) : Type 0 where
  pub acc_one_gen : ℕ → ℕ → ℕ → (ℕ → A) → ℕ → A
  pub acc_one : ℕ → ℕ → ℕ → (ℕ → A) → ℕ → A
  pub acc_twice : Bool
  pub accumulate_fixed : ℕ → Bool → ℕ → (ℕ → A) → ℕ → A
  pub coeff_gen : Bool → Coeff
  pub buffer : Buffer Coeff
  pub expand : Bool → (ℕ → A) → (ℕ → A) → ℕ → A
  pub is_regular : Bool
  pub expander_weight : ℕ
  pub code_size : ℕ
  pub regular_gen : ℕ → Gen
  pub full_gen : ℕ → Gen
  pub get : Gen → ℕ × Gen

-- The three vectors of the first part.
pub record Triple (A : Type 0) : Type 0 where
  pub x1 : ℕ → A
  pub x2 : ℕ → A
  pub x3 : ℕ → A

-- The result of the expansion, with the two generators.
pub record Expansion (Gen A : Type 0) : Type 0 where
  pub y : ℕ → A
  pub regular : Gen
  pub full : Gen

-- Rounds that may throw.
unfoldable pub try_loop : {S : Type 0} → (ℕ → S → Option S) → ℕ → ℕ → S → Option S
try_loop body zero i s = some s
try_loop body (suc rounds) i s = elim (body i s) [
  | none ↦ none
  | some t ↦ try_loop body rounds (suc i) t
]

-- A call on a pointer to the entries from `offset` on.
abbrev pub at_offset : {A : Type 0} → ℕ → ((ℕ → A) → ℕ → A) → (ℕ → A) → ℕ → A
at_offset offset f x i = if ltb i offset then x i else f (λ j. x (offset + j)) (i - offset)

-- `v == w` on n entries.
unfoldable pub equal_vectors : {A : Type 0} → (A → A → Bool) → ℕ → (ℕ → A) → (ℕ → A) → Bool
equal_vectors differ n v w = all_below n (λ i. not (differ (v i) (w i)))

module _ {A Coeff Gen : Type 0} (code : ExConvCode A Coeff Gen) where
  -- `accumulateFixed` on the entries from `offset` on, once or twice.
  unfoldable pub library_passes : ℕ → ℕ → ℕ → (ℕ → A) → ℕ → A
  library_passes unrolled offset size x =
      let once = at_offset offset (code.accumulate_fixed unrolled false size) x in
      if code.acc_twice
      then at_offset offset (code.accumulate_fixed unrolled true size) once
      else once

  -- `regCount`, `step` and `exSize`.
  unfoldable pub reg_count : ℕ
  reg_count = if code.is_regular then div_ceil code.expander_weight 2 else 0

  unfoldable pub step : ℕ
  unfolding reg_count
  step = if code.is_regular then code.code_size / reg_count else 0

  unfoldable pub ex_size : ℕ → ℕ
  unfolding reg_count
  ex_size n = if code.is_regular then code.code_size / reg_count else n

module _ {A Coeff Gen : Type 0} ⦃r : Ring2 A⦄ (code : ExConvCode A Coeff Gen) where
  -- Eight rows from i on: the regular draws, then the others.
  unfoldable pub expand_octet : (ℕ → A) → ℕ → ℕ → Expansion Gen A → Expansion Gen A
  unfolding reg_count step
  expand_octet x offset i s =
      let a =
        add_rows code.get x 8 (λ j. step code * j + offset) (reg_count code) i
          (record { y = s.y; gen = s.regular }) in
      let b =
        add_rows code.get x 8 (λ j. offset) (code.expander_weight - reg_count code) i
          (record { y = a.y; gen = s.full }) in
      record { y = b.y; regular = a.gen; full = b.gen }

  -- One row.
  unfoldable pub expand_row : (ℕ → A) → ℕ → ℕ → Expansion Gen A → Expansion Gen A
  unfolding reg_count step
  expand_row x offset i s =
      let a =
        add_row code.get x (λ j. step code * j + offset) (reg_count code) i
          (record { y = s.y; gen = s.regular }) in
      let b =
        add_row code.get x (λ j. offset) (code.expander_weight - reg_count code) i
          (record { y = a.y; gen = s.full }) in
      record { y = b.y; regular = a.gen; full = b.gen }

  -- The test's own expansion of k rows, added to y.
  unfoldable pub own_expansion : ℕ → ℕ → (ℕ → A) → ℕ → (ℕ → A) → ℕ → A
  unfolding expand_octet expand_row ex_size
  own_expansion n k x offset y =
      let start : Expansion Gen A = record {
        y = y;
        regular = code.regular_gen (ex_size code n);
        full = code.full_gen code.code_size;
      } in
      let main = loop (λ q s. expand_octet x offset (8 * q) s) (k / 8) 0 start in
      (loop (λ q s. expand_row x offset (k / 8 * 8 + q) s) (k - k / 8 * 8) 0 main).y

module _ {A Coeff Gen : Type 0} ⦃r : Ring2 A⦄ (mul_const : A → A)
    (code : ExConvCode A Coeff Gen) where
  -- The same by the test's own pass.
  unfoldable pub own_passes : ℕ → ℕ → ℕ → (ℕ → A) → ℕ → A
  own_passes aw offset size x =
      let once =
        at_offset offset (acc_pass mul_const code.buffer size aw (code.coeff_gen false)) x in
      if code.acc_twice
      then at_offset offset (acc_pass mul_const code.buffer size aw (code.coeff_gen true)) once
      else once

module _ {A Coeff Gen : Type 0} ⦃r : Ring2 A⦄ (mul_const : A → A) (differ : A → A → Bool)
    (code : ExConvCode A Coeff Gen) where
  -- Round i of the first part, with the bits of `rand`, on n entries: what the assertion asks, and the three
  -- ways to accumulate give the same at the places that they change.
  unfoldable pub one_round : ℕ → ℕ → ℕ → ℕ → Triple A → Option (Triple A)
  one_round n aw rand i s =
      let x1 = code.acc_one_gen n i rand s.x1 in
      let x2 = if aw == 24 then code.acc_one n i rand s.x2 else s.x2 in
      let x3 = acc_step mul_const n aw i rand s.x3 in
      let agrees =
        leb aw 64
        && all_below (aw + 1) (λ a.
          let j = (i + 1 + a) % n in
          not ((aw == 24) && differ (x1 j) (x2 j)) && not (differ (x1 j) (x3 j))) in
      if agrees then some (record { x1 = x1; x2 = x2; x3 = x3 }) else none

  -- After the first part: false where it throws.
  unfoldable pub compare_passes : ℕ → ℕ → ℕ → Bool → Triple A → Bool
  unfolding equal_vectors library_passes own_passes own_expansion
  compare_passes k n aw sys s =
      let offset = if sys then k else 0 in
      let size = n - offset in
      let x1 = library_passes code 0 offset size s.x1 in
      let x2 = library_passes code 24 offset size s.x2 in
      let x3 = own_passes mul_const code aw offset size s.x3 in
      let start = λ (i : ℕ). if sys then x1 i else r.nil in
      let y1 = code.expand sys (λ i. x1 (offset + i)) start in
      let y2 = own_expansion code n k x1 offset start in
      (not (aw == 24) || equal_vectors differ n x1 x2)
      && equal_vectors differ n x1 x3
      && equal_vectors differ k y1 y2

-- The whole test, for the code that `config` gives: false where it throws, or where its assertion fails.
unfoldable pub ec_encode_test :
    {A Coeff Gen : Type 0} ⦃r : Ring2 A⦄
    → (A → A)
    → (A → A → Bool)
    → (ℕ → ℕ → ℕ → ℕ → Bool → ExConvCode A Coeff Gen)
    → (ℕ → A)
    → (ℕ → ℕ)
    → ℕ
    → ℕ
    → ℕ
    → ℕ
    → Bool
    → Bool
ec_encode_test {A} ⦃r⦄ mul_const differ config drawn rand k rate bw aw sys =
    let n = rate * k in
    let code = config k n bw aw sys in
    let start : Triple A = record { x1 = drawn; x2 = drawn; x3 = drawn } in
    elim (try_loop (λ i s. one_round ⦃r = r⦄ mul_const differ code n aw (rand i) i s) n 0 start) [
      | none ↦ false
      | some s ↦ compare_passes ⦃r = r⦄ mul_const differ code k n aw sys s
    ]
