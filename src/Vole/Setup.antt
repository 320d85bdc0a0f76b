-- ===== src/Vole/Setup.antt =====
-- `setSilentBaseOts` of both parties: when the base OTs are taken.
use extension_field_pcg.Common.{ℕ, ◌==◌, ◌≡◌, refl, Bool, true, false, arith}
use extension_field_pcg.Common.{Option, none, some, List, ap, sym}
use extension_field_pcg.Vole.Defs.{
  Vector, Outcome, returns, throws, Error, Pprf, Party, has_base, take_gen, require,
}
use extension_field_pcg.Vole.Defs.{
  length, negated, is_configured, base_vole_count, receiver_set_base, sender_set_base,
}

-- The state that an action leaves, also where it throws.
abbrev pub left_by {ℓ} : {S : Type ℓ} → Outcome S → S
left_by (returns s) = s
left_by (throws s e) = s

eq→≡ : (a b : ℕ) → (a == b) ≡ true → a ≡ b
eq→≡ a b h = ground arith

-- The state of a normal return, or none.
abbrev returned : {S : Type 0} → Outcome S → Option S
returned (returns s) = some s
returned (throws s e) = none

none-some : {S : Type 0} {A : Type 0} (s : S) → none ≡ some s → A
none-some s h = absurd (ground arith)

require-returns :
    {S : Type 0} (b : Bool) (error : Error) (s : S) (next : Outcome S) (q : S)
    → require b error s next ≡ returns q
    → (b ≡ true) × (next ≡ returns q)
require-returns true error s next q h = (refl, h)
require-returns false error s next q h = none-some q (ap returned h)

take_gen-returns :
    {Gen : Type 0} (before after : Party Gen) (o : Option Gen) (q : Party Gen)
    → take_gen before after o ≡ returns q
    → (q.base_share ≡ after.base_share) × (q.state ≡ after.state)
take_gen-returns {Gen} before after (some g) q h = (
  sym (ap (λ (o : Outcome (Party Gen)). (left_by o).base_share) h),
  sym (ap (λ (o : Outcome (Party Gen)). (left_by o).state) h),
)
take_gen-returns before after none q h = none-some q (ap returned h)

module _ {Gen Message : Type 0} (pprf : Pprf Gen Message) where
  -- When the receiver takes base OTs, it was configured and got as many OTs as the PPRF asks for; it
  -- then stores its VOLE shares and is in the state HasBase.
  pub receiver_set_base-returns :
      (msgs : List Message) (base_a : Vector) (p q : Party Gen)
      → receiver_set_base pprf msgs base_a p ≡ returns q
      → (is_configured pprf p ≡ true)
        × (length msgs ≡ pprf.base_ot_count p.gen)
        × (q.state ≡ has_base)
        × (q.base_share ≡ base_a)
  unfolding receiver_set_base
  receiver_set_base-returns msgs base_a p q h =
      let (is, h1) = require-returns _ _ _ _ _ h in
      let (count, h2) = require-returns _ _ _ _ _ h1 in
      let (kept, same_state) =
        take_gen-returns p (record p { base_share = base_a; state = has_base }) _ q h2 in
      (is, eq→≡ _ _ count, same_state, kept)

  -- When the sender takes base OTs, it was configured, got as many OTs as the PPRF asks for and one
  -- VOLE entry for each noisy position (and one more against a malicious party); it then stores the
  -- negated entries, and its state is what it was.
  pub sender_set_base-returns :
      (msgs : List Message) (b : Vector) (p q : Party Gen)
      → sender_set_base pprf msgs b p ≡ returns q
      → (is_configured pprf p ≡ true)
        × (length msgs ≡ pprf.base_ot_count p.gen)
        × (b.size ≡ base_vole_count pprf p)
        × (q.base_share ≡ negated b)
        × (q.state ≡ p.state)
  unfolding sender_set_base
  sender_set_base-returns msgs b p q h =
      let (is, h1) = require-returns _ _ _ _ _ h in
      let (count, h2) = require-returns _ _ _ _ _ h1 in
      let (size, h3) = require-returns _ _ _ _ _ h2 in
      let (kept, same_state) = take_gen-returns p (record p { base_share = negated b }) _ q h3 in
      (is, eq→≡ _ _ count, eq→≡ _ _ size, kept, same_state)
