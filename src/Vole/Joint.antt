-- ===== src/Vole/Joint.antt =====
-- Both parties' protocols together, against the correlation that they promise.
use extension_field_pcg.Common.{
  ℕ, ◌^◌, some, if◌then◌else◌, ◌≡◌, ◌≤◌, ◌<◌, sym, ap, ap₂, subst, ◌∙◌, arith, lt→ltb,
}
use extension_field_pcg.Algebra.{◌⊕◌, ◌⊗◌}
use extension_field_pcg.F4.Ring.{Block, f4_ring}
use extension_field_pcg.Fft.{Store}
use extension_field_pcg.Fft.Inverse.{IsForwardFft}
use extension_field_pcg.Vole.Defs.{Vector, returns, negated, round_log3, sender_output}
use extension_field_pcg.Vole.Correlation.{IsNoisyVole, IsExpansion, receiver_output-sender_output}
use extension_field_pcg.Vole.Receiver.{Receiver, ReceiverCalls, copied, silent_receive}
use extension_field_pcg.Vole.Sender.{Sender, SenderCalls, silent_send}
use extension_field_pcg.Vole.Protocol.{IsSetUp, received, silent_receive_lem}
use extension_field_pcg.Vole.Sending.{sent, IsReadyToSend, programmed, silent_send_lem}

-- What a VOLE promises for n entries: a = b + delta c.
abbrev pub IsVole : Block → ℕ → Vector → Vector → Vector → Type 0
IsVole delta n a b c = (i : ℕ) → i < n → a.at i ≡ b.at i ⊕ delta ⊗ c.at i

-- Both return, and leave a VOLE in the first n entries of the callers' vectors.
abbrev pub BothReturn :
    {Gen Message Prng Gen1 Message1 Prng1 : Type 0}
    → ReceiverCalls Gen Message Prng
    → SenderCalls Gen1 Message1 Prng1
    → ℕ
    → ℕ
    → Block
    → Vector
    → Vector
    → Vector
    → Receiver Gen Prng
    → Sender Gen1 Prng1
    → Type 0
BothReturn {Gen} {Message} {Prng} {Gen1} {Message1} {Prng1} rl sl fuel n delta c a b r s =
    (x : Receiver Gen Prng × Vector × Vector) × (y : Sender Gen1 Prng1 × Vector) × (silent_receive
        rl fuel c a r
      ≡ returns x)
    × (silent_send sl delta b s ≡ returns y)
    × IsVole delta n x.2 y.1 x.1

pub copied_at : (n : ℕ) (src dst : Store) (i : ℕ) → i < n → copied n src dst i ≡ src i
copied_at n src dst i h = ap (λ t. if t then src i else dst i) (lt→ltb i n h)

module _ {Gen Message Prng Gen1 Message1 Prng1 : Type 0} (rl : ReceiverCalls Gen Message Prng)
    (sl : SenderCalls Gen1 Message1 Prng1) (forward : IsForwardFft rl.foleage_fft)
    (same_fft : rl.foleage_fft ≡ sl.foleage_fft) where
  -- For one forward transform of both parties that evaluates as the library describes it: a receiver and a
  -- sender that are set up for b.size entries, with a small VOLE between them (of which the sender holds the
  -- negated part) and expansions that do not fail and differ by the programmed values at the noisy
  -- coordinates, both return, and the first n entries of their callers' vectors are then a VOLE, when n is at
  -- most b.size and the power of three that the noise vector is encoded to, and this power is no more than
  -- its length and below 2^31.
  pub silent_receive-silent_send :
      (fuel n : ℕ) (delta : Block) (c a b small_b : Vector) (r : Receiver Gen Prng)
      (s : Sender Gen1 Prng1) (mA mB : Store)
      → IsSetUp rl c.size r
      → IsReadyToSend sl b.size s
      → c.size ≡ a.size
      → b.size ≡ a.size
      → rl.expand r.party.gen r.party.noise_vec_size ≡ some mA
      → sl.expand s.party.gen (programmed sl s) (sl.draw s.prng).0 s.party.noise_vec_size ≡ some mB
      → IsNoisyVole delta r.party.num_partitions small_b r.party.base_share r.base_c
      → s.party.base_share ≡ negated small_b
      → IsExpansion r.points r.party.num_partitions s.party.base_share
          (record { size = s.party.noise_vec_size; at = mB })
          (record { size = r.party.noise_vec_size; at = mA })
      → 3 ^ round_log3 s.party.noise_vec_size ≤ s.party.noise_vec_size
      → 3 ^ round_log3 s.party.noise_vec_size < 2 ^ 31
      → n ≤ 3 ^ round_log3 s.party.noise_vec_size
      → n ≤ b.size
      → BothReturn rl sl fuel n delta c a b r s
  silent_receive-silent_send fuel n delta c a b small_b r s mA mB set_up ready size_c size_b e f
        vole base expansion fits small enough asked =
      (
        _,
        _,
        silent_receive_lem rl fuel c a r mA size_c set_up e,
        silent_send_lem sl delta b s mB ready f,
        λ i l.
            copied_at a.size (received rl r mA).a.at a.at i (omega (arith, size_b))
            ∙ encoded i (omega arith)
            ∙ sym (
                ap₂ (λ x y. x ⊕ delta ⊗ y)
                  (copied_at b.size (sent sl delta s mB).b.at b.at i (omega arith))
                  (copied_at c.size (received rl r mA).c.at c.at i
                    (omega (arith, size_b, size_c)))),
      )
    where
      encoded :
          (i : ℕ)
          → i < 3 ^ round_log3 s.party.noise_vec_size
          → (received rl r mA).a.at i
            ≡ (sender_output sl.foleage_fft (record { size = s.party.noise_vec_size; at = mB })).at
                i
              ⊕ delta ⊗ (received rl r mA).c.at i
      encoded i l =
          receiver_output-sender_output rl.foleage_fft forward delta r.points r.party.num_partitions
            small_b r.party.base_share r.base_c (record { size = s.party.noise_vec_size; at = mB })
            (record { size = r.party.noise_vec_size; at = mA }) vole
            (subst
              (λ v.
                IsExpansion r.points r.party.num_partitions v
                  (record { size = s.party.noise_vec_size; at = mB })
                  (record { size = r.party.noise_vec_size; at = mA }))
              base expansion)
            fits small i l
          ∙ ap
              (λ f.
                (sender_output f (record { size = s.party.noise_vec_size; at = mB })).at i
                ⊕ delta ⊗ (received rl r mA).c.at i)
              same_fft
