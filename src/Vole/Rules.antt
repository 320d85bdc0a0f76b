-- ===== src/Vole/Rules.antt =====
-- Rules for actions that end normally, in a state with a given property.
use extension_field_pcg.Common.{
  Bool, true, false, if◌then◌else◌, Option, some, ◌≡◌, refl, sym, subst,
}
use extension_field_pcg.Vole.Defs.{
  Outcome, returns, Error, require, SilentBaseType, base, base_extend,
}
use extension_field_pcg.Vole.Receiver.{Receiver, closing, bind, take_result}

-- The action ends normally, in a state with property P.
abbrev pub Ends {ℓ} : {S : Type ℓ} → (S → Type 0) → Outcome S → Type ℓ
Ends {S = S} P o = (s : S) × (o ≡ returns s) × P s

pub bind-Ends :
    {S : Type 0} (P Q : S → Type 0) (o : Outcome S) (next : S → Outcome S)
    → Ends P o
    → ((s : S) → P s → Ends Q (next s))
    → Ends Q (bind o next)
bind-Ends P Q o next (s, e, p) h = subst (λ x. Ends Q (bind x next)) (sym e) (h s p)

-- The same where the state is known.
pub bind-returns :
    {S : Type 0} (Q : S → Type 0) (o : Outcome S) (s : S) (next : S → Outcome S)
    → o ≡ returns s
    → Ends Q (next s)
    → Ends Q (bind o next)
bind-returns Q o s next e h = subst (λ x. Ends Q (bind x next)) (sym e) h

pub closing-Ends :
    {Gen Prng : Type 0} (P : Receiver Gen Prng → Type 0) (o : Outcome (Receiver Gen Prng))
    → Ends P o
    → Ends P (closing o)
closing-Ends P o (s, e, p) = subst (λ x. Ends P (closing x)) (sym e) (s, refl, p)

pub require-Ends :
    {S : Type 0} (P : S → Type 0) (b : Bool) (error : Error) (s : S) (next : Outcome S)
    → b ≡ true
    → Ends P next
    → Ends P (require b error s next)
require-Ends P b error s next e h = subst (λ x. Ends P (require x error s next)) (sym e) h

pub take_result-Ends :
    {S A : Type 0} (P : S → Type 0) (x : Option A) (v : A) (s : S) (next : A → Outcome S)
    → x ≡ some v
    → Ends P (next v)
    → Ends P (take_result x s next)
take_result-Ends P x v s next e h = subst (λ y. Ends P (take_result y s next)) (sym e) h

-- Both branches end so.
pub base_type_rule :
    {S : Type 0} (P : S → Type 0) (t : SilentBaseType) (x y : Outcome S)
    → Ends P x
    → Ends P y
    → Ends P (elim t [ base ↦ x | base_extend ↦ y ])
base_type_rule P base x y h k = h
base_type_rule P base_extend x y h k = k

pub if_rule :
    {S : Type 0} (P : S → Type 0) (b : Bool) (x y : Outcome S)
    → (b ≡ true → Ends P x)
    → (b ≡ false → Ends P y)
    → Ends P (if b then x else y)
if_rule P true x y h k = h refl
if_rule P false x y h k = k refl
