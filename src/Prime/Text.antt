-- ===== src/Prime/Text.antt =====
-- `str` of `CoeffCtxIntegerPrime_128` on a `uint128_t`: characters by their codes, as a list.
use extension_field_pcg.Common.{
  ℕ, zero, suc, ◌+◌, ◌-◌, ◌*◌, ◌/◌, ◌%◌, ◌^◌, ◌≤◌, ◌<◌, ◌≡◌, ◌≢◌, refl, sym, subst, ap, ap₂, ◌∙◌,
  arith, Bool, true, ◌&&◌, inl, inr, below_or_from,
}
use native.Mathlib.Nat.{pow-suc}
use extension_field_pcg.Common.{lt→ltb, ltb-false}
use extension_field_pcg.Common.{List, [], ◌∷◌, ltb, if◌then◌else◌}

-- `val > 0` for an `__int128_t`, by its 128-bit pattern: the sign bit is clear and some other bit is set.
unfoldable pub is_positive : ℕ → Bool
is_positive val = ltb 0 val && ltb (val % 2 ^ 128) (2 ^ 127)

-- `while (val > 0)`, with the characters found so far. There are at most 39 rounds, since a positive
-- `__int128_t` is below 10^39.
unfoldable pub str_loop : ℕ → ℕ → List ℕ → List ℕ
unfolding is_positive
str_loop zero val s = s
str_loop (suc fuel) val s =
    let rest = str_loop fuel (val / 10) ((48 + val % 10) ∷ s) in if is_positive val then rest else s

-- `__int128_t val = f;` has the pattern of f.
unfoldable pub str : ℕ → List ℕ
str f = str_loop 39 f []

-- The number that a list of digits stands for, behind the digits of `before`.
abbrev pub read : ℕ → List ℕ → ℕ
read before [] = before
read before (c ∷ cs) = read (before * 10 + (c - 48)) cs

-- Characters from '0' to '9'.
abbrev pub AreDigits : List ℕ → Type 0
AreDigits [] = Unit
AreDigits (c ∷ cs) = (48 ≤ c) × (c ≤ 57) × AreDigits cs

-- There is a first character, and it is not '0'.
abbrev pub StartsNonzero : List ℕ → Type 0
StartsNonzero [] = ⊥
StartsNonzero (c ∷ cs) = c ≢ 48

-- What a text is that is the decimal notation of f: digits without a leading zero that stand for f.
pub record IsDecimal (f : ℕ) (s : List ℕ) : Type 0 where
  pub digits : AreDigits s
  pub starts : StartsNonzero s
  pub number : read 0 s ≡ f

is_positive_small : (val : ℕ) → 0 < val → val < 2 ^ 127 → is_positive val ≡ true
unfolding is_positive
is_positive_small val h l =
    ap₂ ◌&&◌ (lt→ltb 0 val h) (lt→ltb (val % 2 ^ 128) (2 ^ 127) (omega arith))

-- A positive number is read in front of what there is.
str_loop_lem :
    (fuel val : ℕ) (s : List ℕ)
    → 0 < val
    → val < 2 ^ 127
    → val < 10 ^ fuel
    → AreDigits s
    → AreDigits (str_loop fuel val s)
      × StartsNonzero (str_loop fuel val s)
      × (read 0 (str_loop fuel val s) ≡ read val s)
unfolding str_loop
str_loop_lem zero val s pos small h d = absurd (omega arith)
str_loop_lem (suc fuel) val s pos small h d =
    subst
      (λ b.
        let out : List ℕ = if b then str_loop fuel (val / 10) ((48 + val % 10) ∷ s) else s in
        AreDigits out × StartsNonzero out × (read 0 out ≡ read val s))
      (sym (is_positive_small val pos small))
      (elim (below_or_from 1 (val / 10)) [
        | inl last ↦ ended fuel (omega arith)
        | inr more ↦
            let (a, b, c) =
              str_loop_lem fuel (val / 10) ((48 + val % 10) ∷ s) more (omega arith)
                (omega (arith, pow-suc 10 fuel)) next in
            (a, b, c ∙ same)
      ])
  where
    next : AreDigits ((48 + val % 10) ∷ s)
    next = (omega arith, omega arith, d)

    same : read (val / 10) ((48 + val % 10) ∷ s) ≡ read val s
    same = ap (λ v. read v s) {x = val / 10 * 10 + (48 + val % 10 - 48)} {y = val} (omega arith)

    stops : (n : ℕ) → n ≡ 0 → (left : ℕ) (t : List ℕ) → str_loop left n t ≡ t
    stops n e zero t = refl
    stops n e (suc left) t =
        ap (λ b. if b then str_loop left (n / 10) ((48 + n % 10) ∷ t) else t)
          (unfold is_positive in
            ap (λ b. b && ltb (n % 2 ^ 128) (2 ^ 127)) (ltb-false 0 n (omega arith)))

    ended :
        (left : ℕ)
        → val / 10 ≡ 0
        → let out = str_loop left (val / 10) ((48 + val % 10) ∷ s) in
          AreDigits out × StartsNonzero out × (read 0 out ≡ read val s)
    ended left e =
        subst (λ (t : List ℕ). AreDigits t × StartsNonzero t × (read 0 t ≡ read val s))
          (sym (stops (val / 10) e left ((48 + val % 10) ∷ s)))
          (
            next,
            (λ q. absurd (omega (arith, q))),
            ap (λ v. read v ((48 + val % 10) ∷ s)) (sym e) ∙ same,
          )

-- The text of a number from 1 to 2^127 - 1 is its decimal notation.
pub str-IsDecimal : (f : ℕ) → 0 < f → f < 2 ^ 127 → IsDecimal f (str f)
unfolding str
str-IsDecimal f pos h =
    let (d, s, r) = str_loop_lem 39 f [] pos h (omega arith) tt in
    record { digits = d; starts = s; number = r }
