-- ===== src/Vole/Receiver.antt =====
-- The receiver's protocol in SilentWalshVoleReceiver.h, for blocks with the context `CoeffCtxGF128_F4`,
-- which is a field for the library and for which the malicious mode is not supported.
use extension_field_pcg.Common.{
  ℕ, zero, suc, ◌==◌, ltb, Bool, true, false, not, if◌then◌else◌, Option, none, some, List, [], ◌∷◌,
  ◌++◌, write,
}
use extension_field_pcg.Loop.{loop}
use extension_field_pcg.F4.Ring.{Block, f4_ring}
use extension_field_pcg.Fft.{Store}
use extension_field_pcg.Vole.Defs.{
  Vector, default, malicious, semi_honest, SilentBaseType, base, base_extend, not_configured,
  library_threw, sizes_differ, request_too_large, check_failed, malicious_not_supported, Outcome,
  returns, throws, and_then, require, length, Pprf, Party, is_configured, base_vole_count,
  configure, receiver_set_base, noise_loop, receiver_output,
}
use extension_field_pcg.Vole.CheckRt.{check_rt}

-- What the sender sends for `checkRT`: delta, its vector and its base shares.
pub record CheckMessage : Type 0 where
  pub delta : Block
  pub b : Store
  pub base_b : Store

-- What the receiver asks of the library, and through it of the sender: `none` where a call throws.
-- `receive_ots` gives the generator back as the OTs and the noisy VOLE leave it, which draw from it or from
-- its forks.
pub record ReceiverCalls (Gen Message Prng : Type 0) : Type 0 where
  pub pprf : Pprf Gen Message
  pub has_base_ots : Gen → Bool
  pub sample_choice_bits : Gen → Prng → List Bool × Gen × Prng
  pub get_points : Gen → ℕ → ℕ
  pub draw : Prng → Block × Prng
  pub draw_bits : ℕ → Prng → List Bool × Prng
  pub extension_ot_count : ℕ
  pub receive_ots : SilentBaseType → List Bool → Prng → Option (List Message × Prng)
  pub receive_vole : Vector → Option Vector
  pub expand : Gen → ℕ → Option Store
  pub receive_check : Option CheckMessage
  pub eq : Block → Block → Bool
  pub differ : Block → Block → Bool
  pub sorted_index : (ℕ → ℕ) → ℕ → ℕ → ℕ
  pub foleage_fft : ℕ → ℕ → ℕ → Store → Store

-- The receiver, with the generator and the channel that its calls are given. `extension_ready` is
-- `mOtExtSender->hasBaseOts()`.
pub record Receiver (Gen Prng : Type 0) : Type 0 where
  pub party : Party Gen
  pub points : ℕ → ℕ
  pub base_c : Vector
  pub a : Vector
  pub c : Vector
  pub extension_ready : Bool
  pub debug : Bool
  pub prng : Prng
  pub channel_open : Bool

-- `MACORO_CATCH`: the channel is closed and the exception thrown again.
abbrev pub closing : {Gen Prng : Type 0} → Outcome (Receiver Gen Prng) → Outcome (Receiver Gen Prng)
closing (returns r) = returns r
closing (throws r e) = throws (record r { channel_open = false }) e

-- The result of a call of the library.
abbrev pub take_result {ℓ} : {S : Type ℓ} {A : Type 0} → Option A → S → (A → Outcome S) → Outcome S
take_result (some x) s next = next x
take_result none s next = throws s library_threw

-- An action on the party in a receiver.
abbrev pub on_party :
    {Gen Prng : Type 0} → Receiver Gen Prng → Outcome (Party Gen) → Outcome (Receiver Gen Prng)
on_party r (returns p) = returns (record r { party = p })
on_party r (throws p e) = throws (record r { party = p }) e

abbrev pub bind : {S : Type 0} → Outcome S → (S → Outcome S) → Outcome S
bind o next = and_then o next (λ s. s)

abbrev pub first_messages : {A : Type 0} → ℕ → List A → List A
first_messages zero xs = []
first_messages (suc n) [] = []
first_messages (suc n) (x ∷ xs) = x ∷ first_messages n xs

abbrev pub empty : Vector
empty = record { size = 0; at = λ i. f4_ring.nil }

-- `copy(src.begin(), src.begin() + n, dst.begin())`.
abbrev pub copied : ℕ → Store → Store → Store
copied n src dst i = if ltb i n then src i else dst i

module _ {Gen Message Prng : Type 0} (lib : ReceiverCalls Gen Message Prng) where
  -- The first draw and `while (eq(zero, x)) x = draw`, with `fuel` rounds at most.
  unfoldable pub draw_nonzero : ℕ → Prng → Block × Prng
  draw_nonzero zero g = lib.draw g
  draw_nonzero (suc fuel) g =
      let d = lib.draw g in
      let rest = draw_nonzero fuel d.1 in if lib.eq f4_ring.nil d.0 then rest else d

  unfoldable pub sample_base_vole_vals : ℕ → Receiver Gen Prng → Outcome (Receiver Gen Prng)
  sample_base_vole_vals fuel r = require (is_configured lib.pprf r.party) not_configured r (
      let start : Store × Prng = (r.base_c.at, r.prng) in
      let vals =
        loop (λ i v. let d = draw_nonzero fuel v.1 in (write v.0 i d.0, d.1)) r.party.num_partitions
          0 start in
      let sampled = record r {
        base_c = record { size = base_vole_count lib.pprf r.party; at = vals.0 };
        prng = vals.1;
        points = lib.get_points r.party.gen;
      } in
      elim r.party.mal_type [
        | malicious ↦ throws sampled malicious_not_supported
        | semi_honest ↦ returns sampled
      ])

  -- The messages of the OTs for the choice bits, and the receiver after them: the first time that the
  -- extension is used, its own base OTs are received with them.
  unfoldable pub receive_base_ots :
      List Bool
      → Receiver Gen Prng
      → (List Message → Receiver Gen Prng → Outcome (Receiver Gen Prng))
      → Outcome (Receiver Gen Prng)
  receive_base_ots choice r next = elim r.party.base_type [
    | base ↦
        take_result (lib.receive_ots base choice r.prng) r (λ m. next m.0 (record r { prng = m.1 }))
    | base_extend ↦
        if r.extension_ready
        then take_result (lib.receive_ots base_extend choice r.prng) r
            (λ m. next m.0 (record r { prng = m.1 }))
        else let bb = lib.draw_bits lib.extension_ot_count r.prng in
          let drawn = record r { prng = bb.1 } in
          take_result (lib.receive_ots base_extend (choice ++ bb.0) bb.1) drawn (λ m.
            next (first_messages (length choice) m.0)
              (record drawn { prng = m.1; extension_ready = true }))
  ]

  unfoldable pub gen_silent_base_ots : ℕ → Receiver Gen Prng → Outcome (Receiver Gen Prng)
  gen_silent_base_ots fuel r = closing (
      require (is_configured lib.pprf r.party) not_configured r (
        let (choice, gen, prng) = lib.sample_choice_bits r.party.gen r.prng in
        let chosen = record r { party = record r.party { gen = gen }; prng = prng } in
        bind (sample_base_vole_vals fuel chosen) (λ sampled.
          receive_base_ots choice sampled (λ msg received.
            take_result (lib.receive_vole received.base_c) received (λ base_as.
              on_party received (receiver_set_base lib.pprf msg base_as received.party))))))

  -- `configure(n, SilentBaseType::BaseExtend)`, if nothing is configured.
  unfoldable pub configured_for : ℕ → Receiver Gen Prng → Outcome (Receiver Gen Prng)
  configured_for n r =
      if is_configured lib.pprf r.party
      then returns r
      else on_party r (configure lib.pprf n base_extend 128 r.party)

  -- The check that is asked for by `mDebug`, on mA and mC with the noisy coordinates.
  unfoldable pub debug_check : Store × Store → ℕ → Receiver Gen Prng → Outcome (Receiver Gen Prng)
  debug_check ac size r =
      if r.debug
      then take_result lib.receive_check r (λ m.
        require
          (check_rt lib.eq lib.differ m.delta r.points
            (lib.sorted_index r.points r.party.num_partitions) r.party.num_partitions
            r.party.base_share.size r.party.base_share.at m.base_b r.base_c.at size ac.0 m.b ac.1)
          check_failed r (returns r))
      else returns r

  -- From the expansion, which uses up the base OTs of the PPRF object, to the end: the noisy coordinates, the checks and the encoding.
  unfoldable pub finish : Vector → Receiver Gen Prng → Outcome (Receiver Gen Prng)
  finish expanded r =
      let start : Store × Store = (expanded.at, λ i. f4_ring.nil) in
      let p = record r.party { gen = lib.pprf.spend_gen r.party.gen } in
      let ac = noise_loop r.points p.base_share.at r.base_c.at p.num_partitions 0 start in
      let filled = record r {
        party = p;
        a = record { size = expanded.size; at = ac.0 };
        c = record { size = expanded.size; at = ac.1 };
      } in
      let out =
        receiver_output lib.foleage_fft r.points p.num_partitions p.base_share r.base_c expanded in
      bind (debug_check ac expanded.size filled) (λ checked. elim p.mal_type [
        | malicious ↦ throws checked malicious_not_supported
        | semi_honest ↦ returns (record checked {
          a = out.0;
          c = out.1;
          base_c = empty;
          party = record p { base_share = empty; state = default };
        })
      ])

  -- `silentReceiveInplace`.
  unfoldable pub silent_receive_inplace : ℕ → ℕ → Receiver Gen Prng → Outcome (Receiver Gen Prng)
  silent_receive_inplace fuel n r = closing (
      bind (configured_for n r) (λ r1.
        require (not (ltb r1.party.request_size n)) request_too_large r1 (
          bind (if lib.has_base_ots r1.party.gen then returns r1 else gen_silent_base_ots fuel r1)
            (λ r2.
              take_result (lib.expand r2.party.gen r2.party.noise_vec_size) r2
                (λ a. finish (record { size = r2.party.noise_vec_size; at = a }) r2)))))

  -- `clear`.
  unfoldable pub clear : Receiver Gen Prng → Receiver Gen Prng
  clear r = record r {
    points = λ i. 0;
    a = empty;
    c = empty;
    party = record r.party { gen = lib.pprf.clear_gen r.party.gen };
  }

  -- `silentReceive` on the caller's two vectors; the result has them after the call.
  unfoldable pub silent_receive :
      ℕ → Vector → Vector → Receiver Gen Prng → Outcome (Receiver Gen Prng × Vector × Vector)
  silent_receive fuel c a r =
      and_then
        (closing (require (c.size == a.size) sizes_differ r (silent_receive_inplace fuel c.size r)))
        (λ done. returns (
          clear done,
          record { size = c.size; at = copied c.size done.c.at c.at },
          record { size = a.size; at = copied a.size done.a.at a.at },
        ))
        (λ s. (s, c, a))
