-- ===== src/Vole/BaseOts.antt =====
-- `genSilentBaseOts` of SilentWalshVoleReceiver.h with a library whose calls throw in the documented
-- cases alone: what it leaves as it was, and where the new fields come from.
use extension_field_pcg.Common.{
  ℕ, zero, suc, ◌+◌, ◌*◌, ◌%◌, ◌≤◌, ◌==◌, Bool, true, some, List, [], ◌∷◌, ◌++◌, ◌≡◌, refl, ap, ◌∙◌,
  arith, eq→test,
}
use extension_field_pcg.Loop.{loop}
use extension_field_pcg.Common.{write}
use extension_field_pcg.Fft.{Store}
use extension_field_pcg.Vole.Defs.{
  Vector, semi_honest, SilentBaseType, base, base_extend, Party, Outcome, returns, length,
  is_configured, base_vole_count, receiver_set_base,
}
use extension_field_pcg.Vole.Receiver.{
  Receiver, ReceiverCalls, on_party, first_messages, draw_nonzero, sample_base_vole_vals,
  receive_base_ots, gen_silent_base_ots,
}
use extension_field_pcg.Vole.Rules.{
  Ends, bind-Ends, closing-Ends, require-Ends, take_result-Ends, if_rule, base_type_rule,
}

-- A library whose calls throw in no other case than the documented ones: the PPRF object takes an even domain
-- of at least 2, and it is expanded with base OTs, to as many entries as it is configured for, its
-- capacity. The OTs give one message for each choice bit: as many as the PPRF asks for.
pub record IsReliable {Gen Message Prng : Type 0} (lib : ReceiverCalls Gen Message Prng)
    : Type 0 where
  pub capacity : Gen → ℕ
  pub configures :
      (size n : ℕ) (g : Gen)
      → size % 2 ≡ 0
      → 2 ≤ size
      → (h : Gen) × (lib.pprf.configure_gen size n g ≡ some h) × (capacity h ≡ size * n)
  pub choices :
      (g : Gen) (p : Prng)
      → length (lib.sample_choice_bits g p).0
        ≡ lib.pprf.base_ot_count (lib.sample_choice_bits g p).1
  pub chosen : (g : Gen) (p : Prng) → capacity (lib.sample_choice_bits g p).1 ≡ capacity g
  pub messages :
      (t : SilentBaseType) (choice : List Bool) (p : Prng)
      → (m : List Message × Prng) × (lib.receive_ots t choice p ≡ some m)
        × (length m.0 ≡ length choice)
  pub voles : (v : Vector) → (w : Vector) × (lib.receive_vole v ≡ some w)
  pub based :
      (msg : List Message) (g : Gen)
      → length msg ≡ lib.pprf.base_ot_count g
      → (h : Gen) × (lib.pprf.set_base msg g ≡ some h)
        × (lib.has_base_ots h ≡ true)
        × (capacity h ≡ capacity g)
  pub expands :
      (g : Gen) (n : ℕ)
      → lib.has_base_ots g ≡ true
      → capacity g ≡ n
      → (v : Store) × (lib.expand g n ≡ some v)

-- What a party keeps while the base OTs are generated.
pub record IsKept {Gen : Type 0} (p q : Party Gen) : Type 0 where
  pub same_mal_type : q.mal_type ≡ p.mal_type
  pub same_request_size : q.request_size ≡ p.request_size
  pub same_noise_vec_size : q.noise_vec_size ≡ p.noise_vec_size
  pub same_num_partitions : q.num_partitions ≡ p.num_partitions

-- A receiver after its base OTs, which was r before: the noisy VOLE was run on its drawn values, and the
-- points are those of the PPRF object that the messages were given to.
pub record IsBased {Gen Message Prng : Type 0} (lib : ReceiverCalls Gen Message Prng)
    (r s : Receiver Gen Prng) : Type 0 where
  pub kept : IsKept r.party s.party
  pub same_debug : s.debug ≡ r.debug
  pub configured_now : is_configured lib.pprf s.party ≡ true
  pub correlated : lib.receive_vole s.base_c ≡ some s.party.base_share
  pub before : Gen
  pub messages : List Message
  pub set : lib.pprf.set_base messages before ≡ some s.party.gen
  pub points_of : s.points ≡ lib.get_points before

length-append : {A : Type 0} (xs ys : List A) → length (xs ++ ys) ≡ length xs + length ys
length-append [] ys = omega arith
length-append (x ∷ xs) ys = omega (arith, length-append xs ys)

pub length-first_messages :
    {A : Type 0} (n m : ℕ) (xs : List A) → length xs ≡ n + m → length (first_messages n xs) ≡ n
length-first_messages zero m xs h = refl
length-first_messages (suc n) m [] h = absurd (omega (arith, h))
length-first_messages (suc n) m (x ∷ xs) h =
    ap suc (length-first_messages n m xs (omega (arith, h)))

module _ {Gen Message Prng : Type 0} (lib : ReceiverCalls Gen Message Prng) where
  -- What the sampling leaves.
  abbrev sampled : ℕ → Receiver Gen Prng → Receiver Gen Prng
  sampled fuel r =
      let start : Store × Prng = (r.base_c.at, r.prng) in
      let vals =
        loop (λ i v. let d = draw_nonzero lib fuel v.1 in (write v.0 i d.0, d.1))
          r.party.num_partitions 0 start in
      record r {
        base_c = record { size = base_vole_count lib.pprf r.party; at = vals.0 };
        prng = vals.1;
        points = lib.get_points r.party.gen;
      }

  sample_base_vole_vals_lem :
      (fuel : ℕ) (r : Receiver Gen Prng)
      → is_configured lib.pprf r.party ≡ true
      → r.party.mal_type ≡ semi_honest
      → sample_base_vole_vals lib fuel r ≡ returns (sampled fuel r)
  unfolding sample_base_vole_vals
  sample_base_vole_vals_lem fuel r c h = simp (c, h)

  module _ (reliable : IsReliable lib) where
    -- The receiver that goes on differs from r at most in its generator and the extension's own base OTs.
    receive_base_ots-Ends :
        (P Q : Receiver Gen Prng → Type 0) (choice : List Bool) (r : Receiver Gen Prng)
        (next : List Message → Receiver Gen Prng → Outcome (Receiver Gen Prng))
        → ((p : Prng) (ready : Bool) → P r → P (record r { prng = p; extension_ready = ready }))
        → ((msg : List Message) (s : Receiver Gen Prng)
            → length msg ≡ length choice
            → P s
            → Ends Q (next msg s))
        → P r
        → Ends Q (receive_base_ots lib choice r next)
    unfolding receive_base_ots
    receive_base_ots-Ends P Q choice r next keep h ok =
        let (msg, got, enough) = reliable.messages base choice r.prng in
        let (msg1, got1, enough1) = reliable.messages base_extend choice r.prng in
        let bb = lib.draw_bits lib.extension_ot_count r.prng in
        let (msg2, got2, enough2) = reliable.messages base_extend (choice ++ bb.0) bb.1 in
        base_type_rule Q r.party.base_type _ _
          (take_result-Ends Q _ msg r _ got
            (h msg.0 (record r { prng = msg.1 }) enough (keep msg.1 r.extension_ready ok)))
          (if_rule Q r.extension_ready _ _
            (λ e.
              take_result-Ends Q _ msg1 r _ got1
                (h msg1.0 (record r { prng = msg1.1 }) enough1 (keep msg1.1 r.extension_ready ok)))
            (λ e. take_result-Ends Q _ msg2 _ _ got2 (
              h (first_messages (length choice) msg2.0)
                (record r { prng = msg2.1; extension_ready = true })
                (length-first_messages (length choice) (length bb.0) msg2.0
                  (enough2 ∙ length-append choice bb.0))
                (keep msg2.1 true ok))))

    -- What the messages are for: r's party, with the points of its PPRF object.
    record IsChosen (r s : Receiver Gen Prng) : Type 0 where
      pub same_party : s.party ≡ r.party
      pub same_debug : s.debug ≡ r.debug
      pub points_of : s.points ≡ lib.get_points r.party.gen

    -- A receiver after its base OTs, which the PPRF object holds for as many entries as before.
    pub record IsLoaded (r s : Receiver Gen Prng) : Type 0 where
      pub based : IsBased lib r s
      pub with_base : lib.has_base_ots s.party.gen ≡ true
      pub same_capacity : reliable.capacity s.party.gen ≡ reliable.capacity r.party.gen

    set_base-Ends :
        (r s : Receiver Gen Prng) (msg : List Message) (w : Vector)
        → is_configured lib.pprf r.party ≡ true
        → IsChosen r s
        → length msg ≡ lib.pprf.base_ot_count r.party.gen
        → lib.receive_vole s.base_c ≡ some w
        → Ends (IsLoaded r) (on_party s (receiver_set_base lib.pprf msg w s.party))
    unfolding receiver_set_base is_configured
    set_base-Ends r s msg w c chosen count got =
        let same = chosen.same_party in
        let (g, set, holds, same_capacity) = reliable.based msg r.party.gen count in
        rw
          (
            ap (is_configured lib.pprf) same ∙ c,
            ap (λ p. length msg == lib.pprf.base_ot_count p.gen) same ∙ eq→test _ _ count,
            ap (λ p. lib.pprf.set_base msg p.gen) same ∙ set,
          )
          (
            _,
            refl,
            record {
              with_base = holds;
              same_capacity = same_capacity;
              based = record {
                kept = record {
                  same_mal_type = ap (λ p. p.mal_type) same;
                  same_request_size = ap (λ p. p.request_size) same;
                  same_noise_vec_size = ap (λ p. p.noise_vec_size) same;
                  same_num_partitions = ap (λ p. p.num_partitions) same;
                };
                same_debug = chosen.same_debug;
                configured_now = refl;
                correlated = got;
                before = r.party.gen;
                messages = msg;
                set = set;
                points_of = chosen.points_of;
              };
            },
          )

    -- `genSilentBaseOts` returns for a receiver that is configured and semi-honest.
    pub gen_silent_base_ots-IsLoaded :
        (fuel : ℕ) (r : Receiver Gen Prng)
        → is_configured lib.pprf r.party ≡ true
        → r.party.mal_type ≡ semi_honest
        → Ends (IsLoaded r) (gen_silent_base_ots lib fuel r)
    unfolding gen_silent_base_ots is_configured
    gen_silent_base_ots-IsLoaded fuel r c h =
        let bits = lib.sample_choice_bits r.party.gen r.prng in
        let chosen : Receiver Gen Prng = record r {
          party = record r.party { gen = bits.1 };
          prng = bits.2;
        } in
        closing-Ends (IsLoaded r) _ (
          require-Ends (IsLoaded r) _ _ r _ c (
            bind-Ends (IsChosen chosen) (IsLoaded r) _ _
              (
                sampled fuel chosen,
                sample_base_vole_vals_lem fuel chosen c h,
                record { same_party = refl; same_debug = refl; points_of = refl },
              )
              (λ s ok.
                receive_base_ots-Ends (IsChosen chosen) (IsLoaded r) bits.0 s _
                  (λ p ready ok1. record {
                    same_party = ok1.same_party;
                    same_debug = ok1.same_debug;
                    points_of = ok1.points_of;
                  })
                  (λ msg t enough ok1.
                    let (w, got) = reliable.voles t.base_c in
                    take_result-Ends (IsLoaded r) _ w t _ got (
                      of_chosen (
                        set_base-Ends chosen t msg w c ok1
                          (enough ∙ reliable.choices r.party.gen r.prng) got)))
                  ok)))
      where
        of_chosen :
            {o : Outcome (Receiver Gen Prng)}
            → Ends
                (IsLoaded (record r {
                  party = record r.party { gen = (lib.sample_choice_bits r.party.gen r.prng).1 };
                  prng = (lib.sample_choice_bits r.party.gen r.prng).2;
                }))
                o
            → Ends (IsLoaded r) o
        of_chosen (s, e, b) = (
          s,
          e,
          record {
            with_base = b.with_base;
            same_capacity = b.same_capacity ∙ reliable.chosen r.party.gen r.prng;
            based = record {
              kept = record {
                same_mal_type = b.based.kept.same_mal_type;
                same_request_size = b.based.kept.same_request_size;
                same_noise_vec_size = b.based.kept.same_noise_vec_size;
                same_num_partitions = b.based.kept.same_num_partitions;
              };
              same_debug = b.based.same_debug;
              configured_now = b.based.configured_now;
              correlated = b.based.correlated;
              before = b.based.before;
              messages = b.based.messages;
              set = b.based.set;
              points_of = b.based.points_of;
            };
          },
        )
