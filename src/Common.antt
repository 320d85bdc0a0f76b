-- ===== src/Common.antt =====
-- The names that the other modules share: the libraries', passed on, Boolean tests on numbers,
-- and stores, which are functions of an address.
pub use Prim.Native.Nat.{ℕ, zero, suc, ◌+◌, ◌-◌, ◌*◌, ◌/◌, ◌%◌, ◌^◌, ◌≤◌, ◌<◌}
pub use Prim.Native.Nat.{compare, Ordering}
pub use mathlib.Core.Path.{◌≡◌, refl, sym, ap, ap₂, subst, ◌∙◌, fun_ext, ◌≡⟨◌⟩◌, ◌∎}
pub use mathlib.Core.Logic.{◌≢◌, ◌⊎◌, inl, inr, ◌↔◌}
pub use mathlib.Core.Bool.{Bool, true, false, not, ◌&&◌, ◌||◌}
unfoldable pub use mathlib.Core.Bool.{xor}
pub use mathlib.Core.Option.{Option, none, some}
pub use mathlib.Core.List.{List, [], ◌∷◌, ◌++◌, map}
pub use native.Mathlib.Omega.{arith}

abbrev pub ltb : ℕ → ℕ → Bool
ltb a b = elim (compare a b) [ Ordering.lt ↦ true | _ ↦ false ]

abbrev pub leb : ℕ → ℕ → Bool
leb a b = elim (compare a b) [ Ordering.gt ↦ false | _ ↦ true ]

infix 50 ◌==◌
abbrev pub ◌==◌ : ℕ → ℕ → Bool
a == b = elim (compare a b) [ Ordering.eq ↦ true | _ ↦ false ]

infix 1 if◌then◌else◌
abbrev pub if◌then◌else◌ {ℓ} : {A : Type ℓ} → Bool → A → A → A
if true then x else y = x
if false then x else y = y

pub ltb→lt : (a b : ℕ) → ltb a b ≡ true → a < b
ltb→lt a b h = ground arith

pub lt→ltb : (a b : ℕ) → a < b → ltb a b ≡ true
lt→ltb a b h = ground arith

pub eq→test : (a b : ℕ) → a ≡ b → (a == b) ≡ true
eq→test a b h = ground arith

pub test→eq : (a b : ℕ) → (a == b) ≡ true → a ≡ b
test→eq a b h = ground arith

pub Bool-cases : (b : Bool) → (b ≡ true) ⊎ (b ≡ false)
Bool-cases true = inl refl
Bool-cases false = inr refl

-- A finite check, by evaluation.
abbrev pub all_below : ℕ → (ℕ → Bool) → Bool
all_below zero p = true
all_below (suc n) p = p n && all_below n p

pub all_below_sound : (n : ℕ) (p : ℕ → Bool) (x : ℕ) → all_below n p ≡ true → x < n → p x ≡ true
all_below_sound zero p x h lt = absurd (omega arith)
all_below_sound (suc n) p x h lt = ground (arith, all_below_sound n p x)

pub ltb-suc : (a b : ℕ) → ltb (suc a) (suc b) ≡ ltb a b
ltb-suc a b = ground arith

pub ltb-false : (a b : ℕ) → b ≤ a → ltb a b ≡ false
ltb-false a b h = ground arith

pub leb-false : (a b : ℕ) → b < a → leb a b ≡ false
leb-false a b h = ground arith

pub le→leb : (a b : ℕ) → a ≤ b → leb a b ≡ true
le→leb a b h = ground arith

pub or-false : (b : Bool) → (b || false) ≡ b
or-false b = ground arith

pub and-false : (b : Bool) → (b && false) ≡ false
and-false b = ground arith

pub false-of-not : (b : Bool) → not b ≡ true → b ≡ false
false-of-not b h = ground arith

-- Where a number lies: below a bound, or its excess.
pub below_or_from : (n i : ℕ) → (i < n) ⊎ (n ≤ i)
below_or_from n i = omega arith

pub and-true : (b : Bool) → (b && true) ≡ b
and-true b = ground arith

-- A check that holds at each number holds.
pub all_below-true : (n : ℕ) (p : ℕ → Bool) → ((x : ℕ) → p x ≡ true) → all_below n p ≡ true
all_below-true zero p h = refl
all_below-true (suc n) p h = ap₂ ◌&&◌ (h n) (all_below-true n p h)

-- One entry of an array, by index, is replaced.
unfoldable pub write {ℓ} : {A : Type ℓ} → (ℕ → A) → ℕ → A → ℕ → A
write a i v j = if j == i then v else a j

pub write_self {ℓ} : {A : Type ℓ} (a : ℕ → A) (i : ℕ) (v : A) → write a i v i ≡ v
unfolding write
write_self a i v = ground arith

pub write_other {ℓ} : {A : Type ℓ} (a : ℕ → A) (i j : ℕ) (v : A) → j ≢ i → write a i v j ≡ a j
unfolding write
write_other a i j v h = ground arith

-- The rounds of a loop: the first one, or a later one.
pub first_or_later : (i t : ℕ) → i ≤ t → (t ≡ i) ⊎ (suc i ≤ t)
first_or_later i t h = omega arith

pub equal_or_not : (a b : ℕ) → (a ≡ b) ⊎ (a ≢ b)
equal_or_not a b = omega arith
