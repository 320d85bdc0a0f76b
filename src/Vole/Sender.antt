-- ===== src/Vole/Sender.antt =====
-- The sender's protocol in SilentWalshVoleSender.h, for blocks with the context `CoeffCtxGF128_F4`.
use extension_field_pcg.Common.{
  ℕ, ◌+◌, ltb, Bool, true, false, not, if◌then◌else◌, Option, some, List,
}
use extension_field_pcg.F4.Ring.{Block, f4_ring}
use extension_field_pcg.Fft.{Store}
use extension_field_pcg.Vole.Defs.{
  Vector, default, malicious, semi_honest, SilentBaseType, base, base_extend, not_configured,
  request_too_large, malicious_not_supported, Outcome, returns, throws, and_then, require, Pprf,
  Party, is_configured, base_vole_count, configure, sender_set_base, sender_output,
}
use extension_field_pcg.Vole.Receiver.{
  CheckMessage, take_result, first_messages, empty, copied, bind,
}

-- What the sender asks of the library, and through it of the receiver: `none` where a call throws.
-- `send_ots` gives the generator back as the OTs and the noisy VOLE leave it, which draw from it or from
-- its forks.
pub record SenderCalls (Gen Message Prng : Type 0) : Type 0 where
  pub pprf : Pprf Gen Message
  pub has_base_ots : Gen → Bool
  pub draw : Prng → Block × Prng
  pub extension_ot_count : ℕ
  pub send_ots : SilentBaseType → ℕ → Prng → Option (List Message × Prng)
  pub send_vole : Block → ℕ → Option Vector
  pub expand : Gen → Store → Block → ℕ → Option Store
  pub foleage_fft : ℕ → ℕ → ℕ → Store → Store

-- The sender, with the generator, the channel and what it sent for the receiver's `checkRT`.
-- `extension_ready` is `mOtExtRecver->hasBaseOts()`.
pub record Sender (Gen Prng : Type 0) : Type 0 where
  pub party : Party Gen
  pub b : Vector
  pub extension_ready : Bool
  pub debug : Bool
  pub prng : Prng
  pub sent : Option CheckMessage
  pub channel_open : Bool

abbrev pub closing : {Gen Prng : Type 0} → Outcome (Sender Gen Prng) → Outcome (Sender Gen Prng)
closing (returns r) = returns r
closing (throws r e) = throws (record r { channel_open = false }) e

abbrev pub on_party :
    {Gen Prng : Type 0} → Sender Gen Prng → Outcome (Party Gen) → Outcome (Sender Gen Prng)
on_party r (returns p) = returns (record r { party = p })
on_party r (throws p e) = throws (record r { party = p }) e

module _ {Gen Message Prng : Type 0} (lib : SenderCalls Gen Message Prng) where
  -- As many messages as the PPRF asks for: the first time that the extension is used, its own base OTs
  -- are sent with them.
  unfoldable pub send_base_ots :
      ℕ
      → Sender Gen Prng
      → (List Message → Sender Gen Prng → Outcome (Sender Gen Prng))
      → Outcome (Sender Gen Prng)
  send_base_ots count r next = elim r.party.base_type [
    | base ↦
        take_result (lib.send_ots base count r.prng) r (λ m. next m.0 (record r { prng = m.1 }))
    | base_extend ↦
        if r.extension_ready
        then take_result (lib.send_ots base_extend count r.prng) r
            (λ m. next m.0 (record r { prng = m.1 }))
        else take_result (lib.send_ots base_extend (count + lib.extension_ot_count) r.prng) r
            (λ m. next (first_messages count m.0) (record r { prng = m.1; extension_ready = true }))
  ]

  unfoldable pub gen_silent_base_ots : Block → Sender Gen Prng → Outcome (Sender Gen Prng)
  gen_silent_base_ots delta r = closing (
      require (is_configured lib.pprf r.party) not_configured r (
        send_base_ots (lib.pprf.base_ot_count r.party.gen) r (λ msg sent.
          take_result (lib.send_vole delta (base_vole_count lib.pprf sent.party)) sent
            (λ b. on_party sent (sender_set_base lib.pprf msg b sent.party)))))

  -- `configure(n, SilentBaseType::BaseExtend)`, if nothing is configured.
  unfoldable pub configured_for : ℕ → Sender Gen Prng → Outcome (Sender Gen Prng)
  configured_for n r =
      if is_configured lib.pprf r.party
      then returns r
      else on_party r (configure lib.pprf n base_extend 128 r.party)

  -- From the expansion, which uses up the base OTs of the PPRF object, to the end: what `checkRT` sends, and the encoding.
  unfoldable pub finish : Block → Vector → Sender Gen Prng → Outcome (Sender Gen Prng)
  finish delta expanded r =
      let p = record r.party { gen = lib.pprf.spend_gen r.party.gen } in
      let message : CheckMessage = record {
        delta = delta;
        b = expanded.at;
        base_b = p.base_share.at;
      } in
      let checked = record r {
        party = p;
        b = expanded;
        sent = if r.debug then some message else r.sent;
      } in
      elim p.mal_type [
        | malicious ↦ throws checked malicious_not_supported
        | semi_honest ↦ returns (record checked {
          b = sender_output lib.foleage_fft expanded;
          party = record p { base_share = empty; state = default };
        })
      ]

  -- `silentSendInplace`.
  unfoldable pub silent_send_inplace : Block → ℕ → Sender Gen Prng → Outcome (Sender Gen Prng)
  silent_send_inplace delta n r = closing (
      bind (configured_for n r) (λ r1.
        require (not (ltb r1.party.request_size n)) request_too_large r1 (
          bind (if lib.has_base_ots r1.party.gen then returns r1 else gen_silent_base_ots delta r1)
            (λ r2.
              let (seed, prng) = lib.draw r2.prng in
              let base_b =
                copied r2.party.num_partitions r2.party.base_share.at (λ i. f4_ring.nil) in
              let drawn = record r2 { prng = prng } in
              take_result (lib.expand r2.party.gen base_b seed r2.party.noise_vec_size) drawn
                (λ b. finish delta (record { size = r2.party.noise_vec_size; at = b }) drawn)))))

  -- `clear`.
  unfoldable pub clear : Sender Gen Prng → Sender Gen Prng
  clear r = record r { b = empty; party = record r.party { gen = lib.pprf.clear_gen r.party.gen } }

  -- `silentSend` on the caller's vector; the result has it after the call.
  unfoldable pub silent_send : Block → Vector → Sender Gen Prng → Outcome (Sender Gen Prng × Vector)
  silent_send delta b r =
      and_then (silent_send_inplace delta b.size r)
        (λ done. returns (clear done, record { size = b.size; at = copied b.size done.b.at b.at }))
        (λ s. (s, b))
