-- ===== src/Vole/Receiving.antt =====
-- `silentReceive` of a receiver that is not configured, as VOLE_QASD of test.h starts it: the
-- configuration, the base OTs, the expansion and the encoding.
use extension_field_pcg.Common.{
  ℕ, ltb, ◌*◌, ◌/◌, ◌%◌, ◌<◌, false, not, true, some, ◌≡◌, refl, sym, ap, ◌∙◌, arith, eq→test,
}
use extension_field_pcg.Fft.{Store}
use extension_field_pcg.Vole.Defs.{
  Vector, semi_honest, base_extend, returns, requested, is_configured, configure,
}
use extension_field_pcg.Vole.Receiver.{
  Receiver, ReceiverCalls, copied, clear, configured_for, silent_receive, silent_receive_inplace,
}
use extension_field_pcg.Vole.Protocol.{received, finish_lem}
use extension_field_pcg.Vole.Rules.{
  Ends, bind-Ends, closing-Ends, bind-returns, require-Ends, take_result-Ends, if_rule,
}
use extension_field_pcg.Vole.BaseOts.{IsReliable, IsBased, IsLoaded, gen_silent_base_ots-IsLoaded}

-- A receiver that is not configured, for a semi-honest sender and without the debug check.
pub record IsIdle {Gen Message Prng : Type 0} (lib : ReceiverCalls Gen Message Prng)
    (r : Receiver Gen Prng) : Type 0 where
  pub not_configured_yet : is_configured lib.pprf r.party ≡ false
  pub is_semi_honest : r.party.mal_type ≡ semi_honest
  pub no_debug : r.debug ≡ false

-- A PPRF object that was just configured has no base OTs.
abbrev pub StartsFresh : {Gen Message Prng : Type 0} → ReceiverCalls Gen Message Prng → Type 0
StartsFresh {Gen} {Message} {Prng} lib =
    (size n : ℕ) (g h : Gen) → lib.pprf.configure_gen size n g ≡ some h → lib.has_base_ots h ≡ false

-- The receiver after its configuration for n entries.
abbrev pub newly : {Gen Prng : Type 0} → ℕ → Gen → Receiver Gen Prng → Receiver Gen Prng
newly n g r = record r { party = record (requested n base_extend 128 r.party) { gen = g } }

-- The receiver t is what r ends with, by its states after the base OTs and the expansion.
pub record IsReceived {Gen Message Prng : Type 0} (lib : ReceiverCalls Gen Message Prng) (n : ℕ)
    (r t : Receiver Gen Prng) : Type 0 where
  pub gen : Gen
  pub with_base : Receiver Gen Prng
  pub m_a : Store
  pub based : IsBased lib (newly n gen r) with_base
  pub expanded : lib.expand with_base.party.gen with_base.party.noise_vec_size ≡ some m_a
  pub result : t ≡ received lib with_base m_a

-- What `silentReceive` gives back: the cleared receiver, and the callers' vectors, overwritten.
abbrev pub handed_over :
    {Gen Message Prng : Type 0}
    → ReceiverCalls Gen Message Prng
    → Vector
    → Vector
    → Receiver Gen Prng
    → Receiver Gen Prng × Vector × Vector
handed_over lib c a t = (
  clear lib t,
  record { size = c.size; at = copied c.size t.c.at c.at },
  record { size = a.size; at = copied a.size t.a.at a.at },
)

module _ {Gen Message Prng : Type 0} (lib : ReceiverCalls Gen Message Prng)
    (reliable : IsReliable lib) (fresh : StartsFresh lib) where
  configured_for-newly :
      (n : ℕ) (r : Receiver Gen Prng) (g : Gen)
      → is_configured lib.pprf r.party ≡ false
      → lib.pprf.configure_gen (n / 64) 64 r.party.gen ≡ some g
      → configured_for lib n r ≡ returns (newly n g r)
  unfolding configured_for configure
  configured_for-newly n r g idle set = simp (idle, set)

  not_below_self : (n : ℕ) → not (ltb n n) ≡ true
  not_below_self n = ground arith

  silent_receive_inplace-IsReceived :
      (fuel n : ℕ) (r : Receiver Gen Prng)
      → n % 128 ≡ 0
      → 0 < n
      → IsIdle lib r
      → Ends (IsReceived lib n r) (silent_receive_inplace lib fuel n r)
  unfolding silent_receive_inplace is_configured
  silent_receive_inplace-IsReceived fuel n r even positive idle =
      let P = IsReceived lib n r in
      let (g, set, capacity) =
        reliable.configures (n / 64) 64 r.party.gen (omega arith) (omega arith) in
      let r1 = newly n g r in
      let whole : n / 64 * 64 ≡ n = omega arith in
      closing-Ends P _ (
        bind-returns P _ r1 _ (configured_for-newly n r g idle.not_configured_yet set) (
          require-Ends P _ _ r1 _ (not_below_self n) (
            bind-Ends (IsLoaded lib reliable r1) P _ _
              (if_rule (IsLoaded lib reliable r1) (lib.has_base_ots g) _ _
                (λ e. cc (fresh (n / 64) 64 r.party.gen g set))
                (λ e. gen_silent_base_ots-IsLoaded lib reliable fuel r1 refl idle.is_semi_honest))
              (λ s b.
                let (m_a, got) =
                  reliable.expands s.party.gen s.party.noise_vec_size b.with_base
                    (b.same_capacity ∙ capacity ∙ (whole ∙ sym b.based.kept.same_noise_vec_size)) in
                take_result-Ends P _ m_a s _ got (
                  received lib s m_a,
                  finish_lem lib m_a s (b.based.kept.same_mal_type ∙ idle.is_semi_honest)
                      (b.based.same_debug ∙ idle.no_debug),
                  record {
                    gen = g;
                    with_base = s;
                    m_a = m_a;
                    based = b.based;
                    expanded = got;
                    result = refl;
                  },
                )))))

  -- With a reliable library and for a positive multiple of 128, `silentReceive` of a receiver that is not configured returns.
  pub silent_receive-IsReceived :
      (fuel : ℕ) (c a : Vector) (r : Receiver Gen Prng)
      → c.size ≡ a.size
      → c.size % 128 ≡ 0
      → 0 < c.size
      → IsIdle lib r
      → (t : Receiver Gen Prng) × (silent_receive lib fuel c a r ≡ returns (handed_over lib c a t))
        × IsReceived lib c.size r t
  unfolding silent_receive
  silent_receive-IsReceived fuel c a r same even positive idle =
      let (t, e, h) = silent_receive_inplace-IsReceived fuel c.size r even positive idle in
      (t, rw (eq→test _ _ same, e) refl, h)

  -- The receiver is then as it was: not configured, also for another run of the library.
  pub IsReceived-IsIdle :
      (other : ReceiverCalls Gen Message Prng) {n : ℕ} {r t : Receiver Gen Prng}
      → IsIdle lib r
      → IsReceived lib n r t
      → IsIdle other (clear lib t)
  unfolding is_configured clear
  IsReceived-IsIdle other idle h = record {
    not_configured_yet = ap (λ x. is_configured other.pprf (clear lib x).party) h.result;
    is_semi_honest =
        ap (λ x. x.party.mal_type) h.result ∙ h.based.kept.same_mal_type ∙ idle.is_semi_honest;
    no_debug = ap (λ x. x.debug) h.result ∙ h.based.same_debug ∙ idle.no_debug;
  }
