-- ===== src/Encode/Places.antt =====
-- Places in a circle of n entries, by their distance behind an entry.
use native.Mathlib.Nat.{mod-eq_of_lt, mod-eq-sub-mod, mod-lt, add-mod_right}
use extension_field_pcg.Common.{
  ℕ, suc, ◌+◌, ◌-◌, ◌%◌, ◌≤◌, ◌<◌, ltb, if◌then◌else◌, ◌≡◌, ◌≢◌, ◌⊎◌, sym, ap, ◌∙◌, subst, arith,
  write, write_self, write_other, below_or_from, inl, inr,
}

-- How far t lies behind i + 1, in a circle of n.
abbrev pub distance : ℕ → ℕ → ℕ → ℕ
distance n i t = if ltb i t then t - i - 1 else t + n - i - 1

-- The place of distance a behind i + 1, if a goes round at most once.
abbrev pub place : ℕ → ℕ → ℕ → ℕ
place n i a = (i + 1 + a) % n

pub place_lem :
    (n i a : ℕ)
    → i < n
    → a < n
    → ((i + 1 + a < n) × (place n i a ≡ i + 1 + a))
      ⊎ ((n ≤ i + 1 + a) × (place n i a ≡ i + 1 + a - n))
place_lem n i a l m = elim (below_or_from n (i + 1 + a)) [
  | inl h ↦ inl (h, mod-eq_of_lt h)
  | inr h ↦ inr (h, mod-eq-sub-mod h ∙ mod-eq_of_lt (omega arith))
]

pub distance-place : (n i a t : ℕ) → i < n → a < n → t ≡ place n i a → distance n i t ≡ a
distance-place n i a t l m e = elim (place_lem n i a l m) [
  | inl (h, p) ↦ ground arith
  | inr (h, p) ↦ ground arith
]

pub distance-before : (n i t : ℕ) → t ≤ i → distance n i t ≡ t + n - i - 1
distance-before n i t h = ground arith

pub distance-after : (n i t : ℕ) → i < t → distance n i t ≡ t - i - 1
distance-after n i t h = ground arith

pub place-distance : (n i t : ℕ) → i < n → t < n → place n i (distance n i t) ≡ t
place-distance n i t l m = elim (below_or_from (suc i) t) [
  | inl h ↦
      ap (λ d. (i + 1 + d) % n) (distance-before n i t (omega arith))
      ∙ ap (λ z. z % n) {x = i + 1 + (t + n - i - 1)} {y = t + n} (omega arith)
      ∙ add-mod_right t n
      ∙ mod-eq_of_lt m
  | inr h ↦
      ap (λ d. (i + 1 + d) % n) (distance-after n i t (omega arith))
      ∙ ap (λ z. z % n) {x = i + 1 + (t - i - 1)} {y = t} (omega arith)
      ∙ mod-eq_of_lt m
]

pub place-lt : (n i a : ℕ) → i < n → place n i a < n
place-lt n i a l = mod-lt (i + 1 + a) (omega arith)

pub distance_self : (n i : ℕ) → i < n → distance n i i ≡ n - 1
distance_self n i l = omega (arith, distance-before n i i (omega arith))

module _ {A : Type 0} where
  -- A write at the place of a distance: where t has it, and elsewhere.
  pub write-place :
      (n i a t : ℕ) (x : ℕ → A) (v : A)
      → i < n
      → t < n
      → distance n i t ≡ a
      → write x (place n i a) v t ≡ v
  write-place n i a t x v l m e =
      ap (λ z. write x z v t) (ap (place n i) (sym e) ∙ place-distance n i t l m) ∙ write_self x t v

  pub write-place_other :
      (n i a t : ℕ) (x : ℕ → A) (v : A)
      → i < n
      → a < n
      → (t < n → distance n i t ≢ a)
      → write x (place n i a) v t ≡ x t
  write-place_other n i a t x v l m d =
      write_other x (place n i a) t v
        (λ e. d (subst (λ z. z < n) (sym e) (place-lt n i a l)) (distance-place n i a t l m e))
