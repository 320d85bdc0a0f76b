-- ===== src/Vole/Programming.antt =====
-- `silentSend` of a sender that is not configured, as VOLE_QASD of test.h starts it: the configuration,
-- the base OTs, the expansion and the encoding.
use extension_field_pcg.Common.{
  ℕ, ◌+◌, ◌*◌, ◌≤◌, ◌<◌, ◌%◌, ltb, ◌/◌, Bool, false, not, true, some, List, ◌≡◌, refl, sym, ap, ◌∙◌,
  arith, eq→test,
}
use extension_field_pcg.F4.Ring.{Block}
use extension_field_pcg.Fft.{Store}
use extension_field_pcg.Vole.Defs.{
  Vector, semi_honest, SilentBaseType, base, base_extend, Outcome, returns, length, requested,
  negated, is_configured, base_vole_count, configure, sender_set_base,
}
use extension_field_pcg.Vole.Receiver.{copied, first_messages}
use extension_field_pcg.Vole.Sender.{
  Sender, SenderCalls, closing, clear, send_base_ots, gen_silent_base_ots, configured_for, finish,
  silent_send, silent_send_inplace,
}
use extension_field_pcg.Vole.Sending.{programmed, sent}
use extension_field_pcg.Vole.Rules.{
  Ends, bind-Ends, bind-returns, require-Ends, take_result-Ends, if_rule, base_type_rule,
}
use extension_field_pcg.Vole.BaseOts.{IsKept, length-first_messages}

-- A library whose calls throw in no other case than the documented ones, as the receiver's, and whose OTs
-- and noisy VOLEs give as much as they are asked for.
pub record IsReliable {Gen Message Prng : Type 0} (lib : SenderCalls Gen Message Prng)
    : Type 0 where
  pub capacity : Gen → ℕ
  pub configures :
      (size n : ℕ) (g : Gen)
      → size % 2 ≡ 0
      → 2 ≤ size
      → (h : Gen) × (lib.pprf.configure_gen size n g ≡ some h) × (capacity h ≡ size * n)
  pub messages :
      (t : SilentBaseType) (n : ℕ) (p : Prng)
      → (m : List Message × Prng) × (lib.send_ots t n p ≡ some m) × (length m.0 ≡ n)
  pub voles :
      (delta : Block) (n : ℕ) → (b : Vector) × (lib.send_vole delta n ≡ some b) × (b.size ≡ n)
  pub based :
      (msg : List Message) (g : Gen)
      → length msg ≡ lib.pprf.base_ot_count g
      → (h : Gen) × (lib.pprf.set_base msg g ≡ some h)
        × (lib.has_base_ots h ≡ true)
        × (capacity h ≡ capacity g)
  pub expands :
      (g : Gen) (base_b : Store) (seed : Block) (n : ℕ)
      → lib.has_base_ots g ≡ true
      → capacity g ≡ n
      → (v : Store) × (lib.expand g base_b seed n ≡ some v)

-- A sender after its base OTs, which was r before: it holds the negated result of the noisy VOLE.
pub record IsBased {Gen Message Prng : Type 0} (lib : SenderCalls Gen Message Prng) (delta : Block)
    (r s : Sender Gen Prng) : Type 0 where
  pub kept : IsKept r.party s.party
  pub same_debug : s.debug ≡ r.debug
  pub b : Vector
  pub correlated : lib.send_vole delta (base_vole_count lib.pprf r.party) ≡ some b
  pub share : s.party.base_share ≡ negated b
  pub before : Gen
  pub messages : List Message
  pub set : lib.pprf.set_base messages before ≡ some s.party.gen

-- A sender that is not configured, for a semi-honest receiver.
pub record IsIdle {Gen Message Prng : Type 0} (lib : SenderCalls Gen Message Prng)
    (r : Sender Gen Prng) : Type 0 where
  pub not_configured_yet : is_configured lib.pprf r.party ≡ false
  pub is_semi_honest : r.party.mal_type ≡ semi_honest

-- A PPRF object that was just configured has no base OTs.
abbrev pub StartsFresh : {Gen Message Prng : Type 0} → SenderCalls Gen Message Prng → Type 0
StartsFresh {Gen} {Message} {Prng} lib =
    (size n : ℕ) (g h : Gen) → lib.pprf.configure_gen size n g ≡ some h → lib.has_base_ots h ≡ false

-- The sender after its configuration for n entries.
abbrev pub newly : {Gen Prng : Type 0} → ℕ → Gen → Sender Gen Prng → Sender Gen Prng
newly n g r = record r { party = record (requested n base_extend 128 r.party) { gen = g } }

-- The sender t is what r ends with, by its states after the base OTs and the expansion.
pub record IsSent {Gen Message Prng : Type 0} (lib : SenderCalls Gen Message Prng) (delta : Block)
    (n : ℕ) (r t : Sender Gen Prng) : Type 0 where
  pub gen : Gen
  pub with_base : Sender Gen Prng
  pub m_b : Store
  pub based : IsBased lib delta (newly n gen r) with_base
  pub expanded :
      lib.expand with_base.party.gen
        (programmed lib with_base)
        (lib.draw with_base.prng).0
        with_base.party.noise_vec_size
      ≡ some m_b
  pub result : t ≡ sent lib delta with_base m_b

-- What `silentSend` gives back: the cleared sender, and the caller's vector, overwritten.
abbrev pub handed_over :
    {Gen Message Prng : Type 0}
    → SenderCalls Gen Message Prng
    → Vector
    → Sender Gen Prng
    → Sender Gen Prng × Vector
handed_over lib b t = (clear lib t, record { size = b.size; at = copied b.size t.b.at b.at })

closing-Ends :
    {Gen Prng : Type 0} (P : Sender Gen Prng → Type 0) (o : Outcome (Sender Gen Prng))
    → Ends P o
    → Ends P (closing o)
closing-Ends P o (s, e, p) = (s, ap closing e, p)

module _ {Gen Message Prng : Type 0} (lib : SenderCalls Gen Message Prng)
    (reliable : IsReliable lib) (fresh : StartsFresh lib) where
  -- The messages are as many as asked for.
  send_base_ots-Ends :
      (Q : Sender Gen Prng → Type 0) (count : ℕ) (r : Sender Gen Prng)
      (next : List Message → Sender Gen Prng → Outcome (Sender Gen Prng))
      → ((msg : List Message) (p : Prng) (ready : Bool)
          → length msg ≡ count
          → Ends Q (next msg (record r { prng = p; extension_ready = ready })))
      → Ends Q (send_base_ots lib count r next)
  unfolding send_base_ots
  send_base_ots-Ends Q count r next h =
      let (msg, got, enough) = reliable.messages base count r.prng in
      let (msg1, got1, enough1) = reliable.messages base_extend count r.prng in
      let (msg2, got2, enough2) =
        reliable.messages base_extend (count + lib.extension_ot_count) r.prng in
      base_type_rule Q r.party.base_type _ _
        (take_result-Ends Q _ msg r _ got (h msg.0 msg.1 r.extension_ready enough))
        (if_rule Q r.extension_ready _ _
          (λ e. take_result-Ends Q _ msg1 r _ got1 (h msg1.0 msg1.1 r.extension_ready enough1))
          (λ e. take_result-Ends Q _ msg2 r _ got2 (
            h (first_messages count msg2.0) msg2.1 true
              (length-first_messages count lib.extension_ot_count msg2.0 enough2))))

  -- A sender after its base OTs, which the PPRF object holds for as many entries as before.
  record IsLoaded (delta : Block) (r s : Sender Gen Prng) : Type 0 where
    pub based : IsBased lib delta r s
    pub with_base : lib.has_base_ots s.party.gen ≡ true
    pub same_capacity : reliable.capacity s.party.gen ≡ reliable.capacity r.party.gen

  gen_silent_base_ots-IsLoaded :
      (delta : Block) (r : Sender Gen Prng)
      → is_configured lib.pprf r.party ≡ true
      → Ends (IsLoaded delta r) (gen_silent_base_ots lib delta r)
  unfolding gen_silent_base_ots sender_set_base
  gen_silent_base_ots-IsLoaded delta r c =
      let P = IsLoaded delta r in
      closing-Ends P _ (
        require-Ends P _ _ r _ c (
          send_base_ots-Ends P (lib.pprf.base_ot_count r.party.gen) r _ (λ msg p ready count.
            let (b, got, size) = reliable.voles delta (base_vole_count lib.pprf r.party) in
            let (g, set, holds, same_capacity) = reliable.based msg r.party.gen count in
            take_result-Ends P _ b _ _ got (
              simp (c, eq→test _ _ count, eq→test _ _ size, set)
                (
                  _,
                  refl,
                  record {
                    with_base = holds;
                    same_capacity = same_capacity;
                    based = record {
                      kept = record {
                        same_mal_type = refl;
                        same_request_size = refl;
                        same_noise_vec_size = refl;
                        same_num_partitions = refl;
                      };
                      same_debug = refl;
                      b = b;
                      correlated = got;
                      share = refl;
                      before = r.party.gen;
                      messages = msg;
                      set = set;
                    };
                  },
                )))))

  configured_for-newly :
      (n : ℕ) (r : Sender Gen Prng) (g : Gen)
      → is_configured lib.pprf r.party ≡ false
      → lib.pprf.configure_gen (n / 64) 64 r.party.gen ≡ some g
      → configured_for lib n r ≡ returns (newly n g r)
  unfolding configured_for configure
  configured_for-newly n r g idle set = simp (idle, set)

  not_below_self : (n : ℕ) → not (ltb n n) ≡ true
  not_below_self n = ground arith

  finish_lem :
      (delta : Block) (m_b : Store) (r : Sender Gen Prng)
      → r.party.mal_type ≡ semi_honest
      → finish lib delta
          (record { size = r.party.noise_vec_size; at = m_b })
          (record r { prng = (lib.draw r.prng).1 })
        ≡ returns (sent lib delta r m_b)
  unfolding finish
  finish_lem delta m_b r h = simp (h)

  silent_send_inplace-IsSent :
      (delta : Block) (n : ℕ) (r : Sender Gen Prng)
      → n % 128 ≡ 0
      → 0 < n
      → IsIdle lib r
      → Ends (IsSent lib delta n r) (silent_send_inplace lib delta n r)
  unfolding silent_send_inplace is_configured
  silent_send_inplace-IsSent delta n r even positive idle =
      let P = IsSent lib delta n r in
      let (g, set, capacity) =
        reliable.configures (n / 64) 64 r.party.gen (omega arith) (omega arith) in
      let r1 = newly n g r in
      let whole : n / 64 * 64 ≡ n = omega arith in
      closing-Ends P _ (
        bind-returns P _ r1 _ (configured_for-newly n r g idle.not_configured_yet set) (
          require-Ends P _ _ r1 _ (not_below_self n) (
            bind-Ends (IsLoaded delta r1) P _ _
              (if_rule (IsLoaded delta r1) (lib.has_base_ots g) _ _
                (λ e. cc (fresh (n / 64) 64 r.party.gen g set))
                (λ e. gen_silent_base_ots-IsLoaded delta r1 refl))
              (λ s b.
                let (m_b, got) =
                  reliable.expands s.party.gen (programmed lib s) (lib.draw s.prng).0
                    s.party.noise_vec_size b.with_base
                    (b.same_capacity ∙ capacity ∙ (whole ∙ sym b.based.kept.same_noise_vec_size)) in
                take_result-Ends P _ m_b _ _ got (
                  sent lib delta s m_b,
                  finish_lem delta m_b s (b.based.kept.same_mal_type ∙ idle.is_semi_honest),
                  record {
                    gen = g;
                    with_base = s;
                    m_b = m_b;
                    based = b.based;
                    expanded = got;
                    result = refl;
                  },
                )))))

  -- With a reliable library and for a positive multiple of 128, `silentSend` of a sender that is not configured returns.
  pub silent_send-IsSent :
      (delta : Block) (b : Vector) (r : Sender Gen Prng)
      → b.size % 128 ≡ 0
      → 0 < b.size
      → IsIdle lib r
      → (t : Sender Gen Prng) × (silent_send lib delta b r ≡ returns (handed_over lib b t))
        × IsSent lib delta b.size r t
  unfolding silent_send
  silent_send-IsSent delta b r even positive idle =
      let (t, e, h) = silent_send_inplace-IsSent delta b.size r even positive idle in
      (t, rw e refl, h)

  -- The sender is then as it was: not configured, also for another run of the library.
  pub IsSent-IsIdle :
      (other : SenderCalls Gen Message Prng) {delta : Block} {n : ℕ} {r t : Sender Gen Prng}
      → IsIdle lib r
      → IsSent lib delta n r t
      → IsIdle other (clear lib t)
  unfolding is_configured clear
  IsSent-IsIdle other idle h = record {
    not_configured_yet = ap (λ x. is_configured other.pprf (clear lib x).party) h.result;
    is_semi_honest =
        ap (λ x. x.party.mal_type) h.result ∙ h.based.kept.same_mal_type ∙ idle.is_semi_honest;
  }
