-- ===== src/Vole/Sending.antt =====
-- The sender's protocol from the base OTs on.
use extension_field_pcg.Common.{ℕ, ltb, true, false, some, if◌then◌else◌, ◌≡◌, ◌≤◌, refl, arith}
use extension_field_pcg.F4.Ring.{Block, f4_ring}
use extension_field_pcg.Fft.{Store}
use extension_field_pcg.Vole.Defs.{
  Vector, default, semi_honest, returns, is_configured, sender_output,
}
use extension_field_pcg.Vole.Receiver.{empty, copied}
use extension_field_pcg.Vole.Sender.{
  Sender, SenderCalls, clear, configured_for, finish, silent_send, silent_send_inplace,
}

-- A sender that is set up for a request of n entries: configured, with base OTs, for a semi-honest
-- receiver.
pub record IsReadyToSend {Gen Message Prng : Type 0} (lib : SenderCalls Gen Message Prng) (n : ℕ)
    (r : Sender Gen Prng) : Type 0 where
  pub configured_before : is_configured lib.pprf r.party ≡ true
  pub large_enough : n ≤ r.party.request_size
  pub with_base : lib.has_base_ots r.party.gen ≡ true
  pub is_semi_honest : r.party.mal_type ≡ semi_honest

module _ {Gen Message Prng : Type 0} (lib : SenderCalls Gen Message Prng) where
  -- What the PPRF is programmed with: the first entries of mBaseB.
  abbrev pub programmed : Sender Gen Prng → Store
  programmed r = copied r.party.num_partitions r.party.base_share.at (λ i. f4_ring.nil)

  -- What the sender ends with.
  abbrev pub sent : Block → Sender Gen Prng → Store → Sender Gen Prng
  sent delta r mB = record r {
    sent =
        if r.debug
        then some (record { delta = delta; b = mB; base_b = r.party.base_share.at })
        else r.sent;
    prng = (lib.draw r.prng).1;
    b = sender_output lib.foleage_fft (record { size = r.party.noise_vec_size; at = mB });
    party = record r.party {
      gen = lib.pprf.spend_gen r.party.gen;
      base_share = empty;
      state = default;
    };
  }

  silent_send_inplace_lem :
      (delta : Block) (n : ℕ) (r : Sender Gen Prng) (mB : Store)
      → IsReadyToSend lib n r
      → lib.expand r.party.gen (programmed r) (lib.draw r.prng).0 r.party.noise_vec_size ≡ some mB
      → silent_send_inplace lib delta n r ≡ returns (sent delta r mB)
  unfolding silent_send_inplace configured_for finish
  silent_send_inplace_lem delta n r mB h e =
      rw
        (
          h.configured_before,
          not_below r.party.request_size n h.large_enough,
          h.with_base,
          e,
          h.is_semi_honest,
          h.is_semi_honest,
        )
        refl
    where
      not_below : (a b : ℕ) → b ≤ a → ltb a b ≡ false
      not_below a b l = ground arith

  -- The vector of the caller after `silentSend`.
  pub silent_send_lem :
      (delta : Block) (b : Vector) (r : Sender Gen Prng) (mB : Store)
      → IsReadyToSend lib b.size r
      → lib.expand r.party.gen (programmed r) (lib.draw r.prng).0 r.party.noise_vec_size ≡ some mB
      → silent_send lib delta b r
        ≡ returns (
          clear lib (sent delta r mB),
          record { size = b.size; at = copied b.size (sent delta r mB).b.at b.at },
        )
  unfolding silent_send
  silent_send_lem delta b r mB h e = rw (silent_send_inplace_lem delta b.size r mB h e) refl
