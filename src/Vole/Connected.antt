-- ===== src/Vole/Connected.antt =====
-- One run of `silentReceive` and `silentSend` between parties that are not configured.
use extension_field_pcg.Common.{
  ℕ, ◌+◌, ◌^◌, some, List, ◌≡◌, ◌≤◌, ◌<◌, sym, ap, ap₂, subst, ◌∙◌, arith,
}
use extension_field_pcg.Algebra.{◌⊕◌, ◌⊗◌}
use extension_field_pcg.F4.Ring.{Block, f4_ring}
use extension_field_pcg.Fft.{Store}
use extension_field_pcg.Fft.Inverse.{IsForwardFft}
use extension_field_pcg.Vole.Defs.{
  Vector, negated, round_log3, semi_honest, malicious, base_vole_count, sender_output,
}
use extension_field_pcg.Vole.Correlation.{IsNoisyVole, IsExpansion, receiver_output-sender_output}
use extension_field_pcg.Vole.Receiver.{Receiver, ReceiverCalls, copied}
use extension_field_pcg.Vole.Sender.{Sender, SenderCalls}
use extension_field_pcg.Vole.Receiving
use extension_field_pcg.Vole.Programming
use extension_field_pcg.Vole.Joint.{IsVole, copied_at}

-- What the library does for the two parties of one run, in which they make each call once: one forward
-- transform that evaluates, a noisy VOLE of 64 entries that is correct, and an expansion to n entries
-- after any base messages, that differs at the points by the negated result of the noisy VOLE.
pub record IsConnected {Gen Message Gen1 Message1 Prng : Type 0}
    (rl : ReceiverCalls Gen Message Prng) (sl : SenderCalls Gen1 Message1 Prng) (delta : Block)
    (n : ℕ) : Type 0 where
  pub forward : IsForwardFft rl.foleage_fft
  pub same_fft : rl.foleage_fft ≡ sl.foleage_fft
  pub small_vole :
      (b c a : Vector)
      → sl.send_vole delta 64 ≡ some b
      → rl.receive_vole c ≡ some a
      → IsNoisyVole delta 64 b a c
  pub expansion :
      (g based : Gen) (h based1 : Gen1) (msg : List Message) (msg1 : List Message1) (b : Vector)
      (seed : Block) (mA mB : Store)
      → rl.pprf.set_base msg g ≡ some based
      → sl.pprf.set_base msg1 h ≡ some based1
      → sl.send_vole delta 64 ≡ some b
      → rl.expand based n ≡ some mA
      → sl.expand based1 (copied 64 (negated b).at (λ i. f4_ring.nil)) seed n ≡ some mB
      → IsExpansion
          (rl.get_points g)
          64
          (negated b)
          (record { size = n; at = mB })
          (record { size = n; at = mA })

module _ {Gen Message Gen1 Message1 Prng : Type 0} (rl : ReceiverCalls Gen Message Prng)
    (sl : SenderCalls Gen1 Message1 Prng) (delta : Block) (n : ℕ)
    (connected : IsConnected rl sl delta n) where
  module _ (r t : Receiver Gen Prng) (q u : Sender Gen1 Prng)
      (received_from : Receiving.IsReceived rl n r t)
      (sent_from : Programming.IsSent sl delta n q u)
      (honest : q.party.mal_type ≡ semi_honest) where
    abbrev s : Receiver Gen Prng
    s = received_from.with_base

    abbrev v : Sender Gen1 Prng
    v = sent_from.with_base

    small : sl.send_vole delta 64 ≡ some sent_from.based.b
    unfolding base_vole_count
    small =
        subst
          (λ m.
            sl.send_vole delta (64 + elim m [ malicious ↦ 1 | semi_honest ↦ 0 ])
            ≡ some sent_from.based.b)
          honest sent_from.based.correlated

    vole : IsNoisyVole delta s.party.num_partitions sent_from.based.b s.party.base_share s.base_c
    vole =
        subst (λ k. IsNoisyVole delta k sent_from.based.b s.party.base_share s.base_c)
          (sym received_from.based.kept.same_num_partitions)
          (connected.small_vole sent_from.based.b s.base_c s.party.base_share small
            received_from.based.correlated)

    -- The sender's expansion, with what it is programmed with.
    programmed_expansion :
        sl.expand v.party.gen
          (copied 64 (negated sent_from.based.b).at (λ i. f4_ring.nil))
          (sl.draw v.prng).0
          n
        ≡ some sent_from.m_b
    programmed_expansion =
        subst
          (λ k.
            sl.expand v.party.gen (copied 64 (negated sent_from.based.b).at (λ i. f4_ring.nil))
              (sl.draw v.prng).0 k
            ≡ some sent_from.m_b)
          sent_from.based.kept.same_noise_vec_size
          (subst
            (λ k.
              sl.expand v.party.gen (copied k (negated sent_from.based.b).at (λ i. f4_ring.nil))
                (sl.draw v.prng).0 v.party.noise_vec_size
              ≡ some sent_from.m_b)
            sent_from.based.kept.same_num_partitions
            (subst
              (λ w.
                sl.expand v.party.gen (copied v.party.num_partitions w.at (λ i. f4_ring.nil))
                  (sl.draw v.prng).0 v.party.noise_vec_size
                ≡ some sent_from.m_b)
              sent_from.based.share sent_from.expanded))

    differs :
        IsExpansion s.points s.party.num_partitions
          (negated sent_from.based.b)
          (record { size = v.party.noise_vec_size; at = sent_from.m_b })
          (record { size = s.party.noise_vec_size; at = received_from.m_a })
    differs =
        rw
          (
            received_from.based.points_of, received_from.based.kept.same_num_partitions,
            received_from.based.kept.same_noise_vec_size, sent_from.based.kept.same_noise_vec_size,
          )
          (connected.expansion received_from.based.before s.party.gen sent_from.based.before
            v.party.gen received_from.based.messages sent_from.based.messages sent_from.based.b
            (sl.draw v.prng).0 received_from.m_a sent_from.m_b received_from.based.set
            sent_from.based.set small
            (subst (λ k. rl.expand s.party.gen k ≡ some received_from.m_a)
              received_from.based.kept.same_noise_vec_size received_from.expanded)
            programmed_expansion)

    -- The entries that are encoded are a VOLE.
    pub encoded_vole :
        3 ^ round_log3 n ≤ n
        → 3 ^ round_log3 n < 2 ^ 31
        → (i : ℕ) → i < 3 ^ round_log3 n
        → t.a.at i ≡ u.b.at i ⊕ delta ⊗ t.c.at i
    encoded_vole fits tiny i l =
        ap (λ x. x.a.at i) received_from.result
        ∙ receiver_output-sender_output rl.foleage_fft connected.forward delta s.points
            s.party.num_partitions sent_from.based.b s.party.base_share s.base_c
            (record { size = v.party.noise_vec_size; at = sent_from.m_b })
            (record { size = s.party.noise_vec_size; at = received_from.m_a }) vole differs
            (subst (λ k. 3 ^ round_log3 k ≤ k) (sym sent_from.based.kept.same_noise_vec_size) fits)
            (subst (λ k. 3 ^ round_log3 k < 2 ^ 31) (sym sent_from.based.kept.same_noise_vec_size)
              tiny)
            i (subst (λ k. i < 3 ^ round_log3 k) (sym sent_from.based.kept.same_noise_vec_size) l)
        ∙ ap₂ (λ x y. x ⊕ delta ⊗ y)
            (ap
                (λ f.
                  (sender_output f
                      (record { size = v.party.noise_vec_size; at = sent_from.m_b })).at
                    i)
                connected.same_fft
              ∙ sym (ap (λ x. x.b.at i) sent_from.result))
            (sym (ap (λ x. x.c.at i) received_from.result))

    -- And so are those that the callers get.
    pub handed_over-IsVole :
        (c a b : Vector) (m : ℕ)
        → c.size ≡ n
        → a.size ≡ n
        → b.size ≡ n
        → 3 ^ round_log3 n ≤ n
        → 3 ^ round_log3 n < 2 ^ 31
        → m ≤ 3 ^ round_log3 n
        → IsVole delta m
            (Receiving.handed_over rl c a t).2
            (Programming.handed_over sl b u).1
            (Receiving.handed_over rl c a t).1
    handed_over-IsVole c a b m size_c size_a size_b fits tiny enough i l =
        copied_at a.size t.a.at a.at i (omega (arith, size_a))
        ∙ encoded_vole fits tiny i (omega arith)
        ∙ sym (
            ap₂ (λ x y. x ⊕ delta ⊗ y) (copied_at b.size u.b.at b.at i (omega (arith, size_b)))
              (copied_at c.size t.c.at c.at i (omega (arith, size_c))))
