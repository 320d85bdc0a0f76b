-- ===== src/Vole/Defs.antt =====
-- The state of both parties, their configuration, and the local steps of the protocol. The forward
-- transform and the punctured PRF belong to the library and are parameters.
use extension_field_pcg.Common.{
  ℕ, zero, suc, ◌+◌, ◌*◌, ◌/◌, ◌^◌, ◌==◌, ltb, Bool, true, false, ◌-◌, ◌<◌, if◌then◌else◌, ◌≡◌, ap,
  lt→ltb,
}
use extension_field_pcg.Common.{Option, none, some, List, [], ◌∷◌}
use extension_field_pcg.Algebra.{◌⊕◌}
use extension_field_pcg.F4.Ring.{f4_ring}
use extension_field_pcg.Fft.{Store}
use extension_field_pcg.Common.{write}

-- A buffer: its length, and its blocks by index. What lies beyond the length is unspecified.
pub record Vector : Type 0 where
  pub size : ℕ
  pub at : Store

abbrev pub resize : Vector → ℕ → Vector
resize v n = record { size = n; at = v.at }

pub data State : Type 0 where
  default : State
  configured : State
  has_base : State

pub data SilentSecType : Type 0 where
  semi_honest : SilentSecType
  malicious : SilentSecType

pub data SilentBaseType : Type 0 where
  base : SilentBaseType
  base_extend : SilentBaseType

-- The exceptions.
pub data Error : Type 0 where
  not_configured : Error
  wrong_base_ot_count : Error
  wrong_base_vole_count : Error
  pprf_refused : Error
  library_threw : Error
  sizes_differ : Error
  request_too_large : Error
  check_failed : Error
  malicious_not_supported : Error

-- An action leaves a state, also where it throws.
pub data Outcome {ℓ} (S : Type ℓ) : Type ℓ where
  returns : S → Outcome S
  throws : S → Error → Outcome S

-- What follows a normal return.
abbrev pub and_then {ℓ} : {S T : Type ℓ} → Outcome S → (S → Outcome T) → (S → T) → Outcome T
and_then (returns s) next keep = next s
and_then (throws s e) next keep = throws (keep s) e

-- What the parties ask of their PPRF object, and its exceptions as `none`. `spend_gen` is what its
-- expansion leaves of it, which clears the base OTs.
pub record Pprf (Gen Message : Type 0) : Type 0 where
  pub configure_gen : ℕ → ℕ → Gen → Option Gen
  pub base_ot_count : Gen → ℕ
  pub set_base : List Message → Gen → Option Gen
  pub clear_gen : Gen → Gen
  pub spend_gen : Gen → Gen

-- The fields of either party that the configuration sets. `base_share` is mBaseA of the receiver
-- and mBaseB of the sender.
pub record Party (Gen : Type 0) : Type 0 where
  pub state : State
  pub gen : Gen
  pub request_size : ℕ
  pub sec_param : ℕ
  pub noise_vec_size : ℕ
  pub size_per : ℕ
  pub num_partitions : ℕ
  pub base_type : SilentBaseType
  pub mal_type : SilentSecType
  pub base_share : Vector

abbrev pub length {ℓ} : {A : Type ℓ} → List A → ℕ
length [] = 0
length (x ∷ xs) = suc (length xs)

-- The loop of the sender's `setSilentBaseOts`: `minus(mBaseB[i], mBaseB[i], b[i])`.
unfoldable pub minus_loop : Store → ℕ → ℕ → Store → Store
minus_loop b zero i base_b = base_b
minus_loop b (suc left) i base_b = minus_loop b left (suc i) (write base_b i (base_b i ⊕ b i))

unfoldable pub negated : Vector → Vector
negated b = record { size = b.size; at = minus_loop b.at b.size 0 (λ i. f4_ring.nil) }

-- `if (!test) throw error;` and what follows.
abbrev pub require : {S : Type 0} → Bool → Error → S → Outcome S → Outcome S
require true error s next = next
require false error s next = throws s error

-- The fields that `configure` sets: 64 noisy positions, whatever the security parameter.
abbrev pub requested : {Gen : Type 0} → ℕ → SilentBaseType → ℕ → Party Gen → Party Gen
requested request_size base_type sec_param p = record p {
  num_partitions = 64;
  sec_param = sec_param;
  request_size = request_size;
  state = configured;
  base_type = base_type;
  noise_vec_size = request_size;
  size_per = request_size / 64;
}

-- The PPRF object after a call, which may throw: then the fields are those of `before`.
abbrev pub take_gen : {Gen : Type 0} → Party Gen → Party Gen → Option Gen → Outcome (Party Gen)
take_gen before after (some g) = returns (record after { gen = g })
take_gen before after none = throws before pprf_refused

module _ {Gen Message : Type 0} (pprf : Pprf Gen Message) where
  unfoldable pub is_configured : Party Gen → Bool
  is_configured p = elim p.state [ default ↦ false | _ ↦ true ]

  unfoldable pub base_vole_count : Party Gen → ℕ
  base_vole_count p = p.num_partitions + elim p.mal_type [ malicious ↦ 1 | semi_honest ↦ 0 ]

  unfoldable pub configure : ℕ → SilentBaseType → ℕ → Party Gen → Outcome (Party Gen)
  configure request_size base_type sec_param p =
      let set = requested request_size base_type sec_param p in
      take_gen set set (pprf.configure_gen set.size_per set.num_partitions set.gen)

  -- The receiver's `setSilentBaseOts`.
  unfoldable pub receiver_set_base : List Message → Vector → Party Gen → Outcome (Party Gen)
  receiver_set_base recv_base_ots base_a p = require (is_configured p) not_configured p (
      require (length recv_base_ots == pprf.base_ot_count p.gen) wrong_base_ot_count p (
        take_gen p (record p { base_share = base_a; state = has_base })
          (pprf.set_base recv_base_ots p.gen)))

  -- The sender's `setSilentBaseOts`; `silentBaseOtCount` throws if nothing is configured.
  unfoldable pub sender_set_base : List Message → Vector → Party Gen → Outcome (Party Gen)
  sender_set_base send_base_ots b p = require (is_configured p) not_configured p (
      require (length send_base_ots == pprf.base_ot_count p.gen) wrong_base_ot_count p (
        require (b.size == base_vole_count p) wrong_base_vole_count p
          (take_gen p (record p { base_share = negated b }) (pprf.set_base send_base_ots p.gen))))

-- The loop of `silentReceiveInplace` that fills in the noisy coordinates, on mA and mC.
unfoldable pub noise_loop : (ℕ → ℕ) → Store → Store → ℕ → ℕ → Store × Store → Store × Store
noise_loop s base_a base_c zero i ac = ac
noise_loop s base_a base_c (suc left) i ac =
    let pnt = s i in
    let c = write ac.1 pnt (base_c i) in
    let a = write ac.0 pnt (ac.0 pnt ⊕ base_a i) in noise_loop s base_a base_c left (suc i) (a, c)

-- `std::round(std::log2(n) / std::log2(3))` for n from 1 on: the first k with n below 3^(k + 1/2), in
-- squares. The double rounds as the exact quotient does for n below 2^31, where 3^(k + 1/2) differs from
-- every n by a part of more than 10^-10 of it, far more than the rounding errors of the three operations.
-- For n = 0 the logarithm is minus infinity, and its conversion to an `int` undefined; here it is 0.
unfoldable pub round_log3_from : ℕ → ℕ → ℕ → ℕ
round_log3_from zero k n = k
round_log3_from (suc fuel) k n = elim (ltb (n * n) (3 ^ suc (2 * k))) [
  | true ↦ k
  | false ↦ round_log3_from fuel (suc k) n
]

unfoldable pub round_log3 : ℕ → ℕ
unfolding round_log3_from
round_log3 n = round_log3_from n 0 n

-- `int num_size = std::round(std::pow(3, num_var))`, where `resize` takes it as a `u64`. The conversion of a
-- number from 2^31 on is undefined in the language; on x86 it gives the smallest `int`.
unfoldable pub int_size : ℕ → ℕ
int_size n = if ltb n (2 ^ 31) then n else 2 ^ 64 - 2 ^ 31

pub int_size_small : (n : ℕ) → n < 2 ^ 31 → int_size n ≡ n
unfolding int_size
int_size_small n h = ap (λ b. if b then n else 2 ^ 64 - 2 ^ 31) (lt→ltb n (2 ^ 31) h)

-- The encoding at the end of both parties' protocol, for blocks.
unfoldable pub encode : (ℕ → ℕ → ℕ → Store → Store) → Vector → Vector
encode foleage_fft v =
    let num_var = round_log3 v.size in
    let w = resize v (int_size (3 ^ num_var)) in
    record { size = w.size; at = foleage_fft num_var (w.size / 3) 0 w.at }

-- `silentReceiveInplace` after the expansion: mC is zero, the noisy coordinates are filled in, and
-- both are encoded. The result is mA and mC.
unfoldable pub receiver_output :
    (ℕ → ℕ → ℕ → Store → Store) → (ℕ → ℕ) → ℕ → Vector → Vector → Vector → Vector × Vector
receiver_output foleage_fft s num_partitions base_a base_c expanded =
    let start : Store × Store = (expanded.at, λ i. f4_ring.nil) in
    let ac = noise_loop s base_a.at base_c.at num_partitions 0 start in
    (
      encode foleage_fft (record { size = expanded.size; at = ac.0 }),
      encode foleage_fft (record { size = expanded.size; at = ac.1 }),
    )

-- `silentSendInplace` after the expansion: mB is encoded.
unfoldable pub sender_output : (ℕ → ℕ → ℕ → Store → Store) → Vector → Vector
sender_output foleage_fft expanded = encode foleage_fft expanded
