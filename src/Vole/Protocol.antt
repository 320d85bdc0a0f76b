-- ===== src/Vole/Protocol.antt =====
-- The two parties' protocols from the base OTs on, and what their outputs satisfy together.
use extension_field_pcg.Common.{ℕ, ◌==◌, ltb, true, false, some, ◌≡◌, ◌≤◌, refl, arith}
use extension_field_pcg.F4.Ring.{f4_ring}
use extension_field_pcg.Fft.{Store}
use extension_field_pcg.Vole.Defs.{
  Vector, default, semi_honest, returns, is_configured, receiver_output,
}
use extension_field_pcg.Vole.Receiver.{
  Receiver, ReceiverCalls, empty, copied, clear, debug_check, silent_receive,
  silent_receive_inplace, finish, configured_for,
}

-- A receiver that is set up for a request of n entries: configured, with base OTs, for a semi-honest
-- sender and without the debug check.
pub record IsSetUp {Gen Message Prng : Type 0} (lib : ReceiverCalls Gen Message Prng) (n : ℕ)
    (r : Receiver Gen Prng) : Type 0 where
  pub configured_before : is_configured lib.pprf r.party ≡ true
  pub large_enough : n ≤ r.party.request_size
  pub with_base : lib.has_base_ots r.party.gen ≡ true
  pub is_semi_honest : r.party.mal_type ≡ semi_honest
  pub no_debug : r.debug ≡ false

-- What the receiver ends with.
abbrev pub received :
    {Gen Message Prng : Type 0}
    → ReceiverCalls Gen Message Prng
    → Receiver Gen Prng
    → Store
    → Receiver Gen Prng
received lib r mA =
    let out =
      receiver_output lib.foleage_fft r.points r.party.num_partitions r.party.base_share r.base_c
        (record { size = r.party.noise_vec_size; at = mA }) in
    record r {
      a = out.0;
      c = out.1;
      base_c = empty;
      party = record r.party {
        gen = lib.pprf.spend_gen r.party.gen;
        base_share = empty;
        state = default;
      };
    }

module _ {Gen Message Prng : Type 0} (lib : ReceiverCalls Gen Message Prng) where
  pub finish_lem :
      (mA : Store) (r : Receiver Gen Prng)
      → r.party.mal_type ≡ semi_honest
      → r.debug ≡ false
      → finish lib (record { size = r.party.noise_vec_size; at = mA }) r
        ≡ returns (received lib r mA)
  unfolding finish debug_check
  finish_lem mA r h d = rw (d, h, h) refl

  silent_receive_inplace_lem :
      (fuel n : ℕ) (r : Receiver Gen Prng) (mA : Store)
      → IsSetUp lib n r
      → lib.expand r.party.gen r.party.noise_vec_size ≡ some mA
      → silent_receive_inplace lib fuel n r ≡ returns (received lib r mA)
  unfolding silent_receive_inplace configured_for
  silent_receive_inplace_lem fuel n r mA h e =
      rw
        (
          h.configured_before,
          not_below r.party.request_size n h.large_enough,
          h.with_base,
          e,
          finish_lem mA r h.is_semi_honest h.no_debug,
        )
        refl
    where
      not_below : (a b : ℕ) → b ≤ a → ltb a b ≡ false
      not_below a b l = ground arith

  -- The vectors of the caller after `silentReceive`.
  pub silent_receive_lem :
      (fuel : ℕ) (c a : Vector) (r : Receiver Gen Prng) (mA : Store)
      → c.size ≡ a.size
      → IsSetUp lib c.size r
      → lib.expand r.party.gen r.party.noise_vec_size ≡ some mA
      → silent_receive lib fuel c a r
        ≡ returns (
          clear lib (received lib r mA),
          record { size = c.size; at = copied c.size (received lib r mA).c.at c.at },
          record { size = a.size; at = copied a.size (received lib r mA).a.at a.at },
        )
  unfolding silent_receive
  silent_receive_lem fuel c a r mA same h e =
      rw (equal_sizes c.size a.size same, silent_receive_inplace_lem fuel c.size r mA h e) refl
    where
      equal_sizes : (x y : ℕ) → x ≡ y → (x == y) ≡ true
      equal_sizes x y p = ground arith
