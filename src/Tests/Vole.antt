-- ===== src/Tests/Vole.antt =====
-- The silent VOLE at concrete vectors: two noisy positions in vectors of ten blocks.
use extension_field_pcg.Common.{
  ℕ, zero, suc, ◌+◌, ◌*◌, ◌^◌, ◌≤◌, ◌<◌, ◌==◌, if◌then◌else◌, ◌≡◌, refl, sym, ap, ◌∙◌, arith,
}
use extension_field_pcg.Common.{
  Bool, true, not, xor, all_below, all_below-true, some, none, List, [], ◌∷◌, subst,
}
use extension_field_pcg.Algebra.{◌⊕◌, ◌⊗◌}
use extension_field_pcg.Word.{xor_self}
use extension_field_pcg.F4.Ring.{Block, f4_ring}
use extension_field_pcg.Fft.{Store}
use extension_field_pcg.Common.{write}
use extension_field_pcg.Fft.Root.{root}
use extension_field_pcg.Common.{write_self, write_other}
use extension_field_pcg.Vole.{
  Vector, negated, round_log3, receiver_output, sender_output, returns, Pprf, Party, default,
  configured, base_extend, semi_honest, sender_set_base, is_configured, base_vole_count, length,
}
use extension_field_pcg.Vole.Correlation.{IsNoisyVole, IsExpansion, receiver_output-sender_output}
use extension_field_pcg.Vole.Setup.{sender_set_base-returns}
use extension_field_pcg.Tests.Fft.{forward_fft, forward_fft-IsForwardFft}

abbrev pub delta : Block
delta = root ⊗ root

abbrev pub position : ℕ → ℕ
position t = 4 * t + 1

abbrev pub vole_b : Vector
vole_b = record { size = 2; at = λ i. if i == 0 then root else f4_ring.one }

abbrev pub base_c : Vector
base_c = record { size = 2; at = λ i. if i == 0 then f4_ring.one else root }

abbrev pub base_a : Vector
base_a = record { size = 2; at = λ i. vole_b.at i ⊕ delta ⊗ base_c.at i }

abbrev pub sender_blocks : Vector
sender_blocks = record { size = 10; at = λ i. if i == 3 then root else f4_ring.one }

abbrev at_first : Store
at_first = write sender_blocks.at 1 (sender_blocks.at 1 ⊕ (negated vole_b).at 0)

abbrev pub receiver_blocks : Vector
receiver_blocks = record {
  size = 10;
  at = write at_first 5 (sender_blocks.at 5 ⊕ (negated vole_b).at 1);
}

pub noisy_vole : IsNoisyVole delta 2 vole_b base_a base_c
noisy_vole = record { enough = omega arith; correlated = λ t h. refl }

punctured_at :
    (t : ℕ)
    → t < 2
    → receiver_blocks.at (position t) ≡ sender_blocks.at (position t) ⊕ (negated vole_b).at t
punctured_at zero h = write_other at_first 5 1 _ (omega arith) ∙ write_self sender_blocks.at 1 _
punctured_at (suc zero) h = write_self at_first 5 _
punctured_at (suc (suc t)) h = absurd (omega arith)

pub expansion : IsExpansion position 2 (negated vole_b) sender_blocks receiver_blocks
expansion = record {
  distinct = λ t u l m e. omega (arith, e);
  same_size = refl;
  punctured = punctured_at;
  elsewhere = λ i l h.
      write_other at_first 5 i _ (h 1 (omega arith) (omega arith))
      ∙ write_other sender_blocks.at 1 i _ (h 0 (omega arith) (omega arith));
}

two_variables : round_log3 10 ≡ 2
unfolding round_log3
two_variables = refl

pub fits : 3 ^ round_log3 10 ≤ 10
fits = subst (λ k. 3 ^ k ≤ 10) (sym two_variables) (omega arith)

pub below : 3 ^ round_log3 10 < 2 ^ 31
below = subst (λ k. 3 ^ k < 2 ^ 31) (sym two_variables) (omega arith)

pub inside : 4 < 3 ^ round_log3 10
inside = subst (λ k. 4 < 3 ^ k) (sym two_variables) (omega arith)

receiver_output-sender_output_example :
    ((receiver_output forward_fft position 2 base_a base_c receiver_blocks).0).at 4
    ≡ (sender_output forward_fft sender_blocks).at 4
      ⊕ delta ⊗ ((receiver_output forward_fft position 2 base_a base_c receiver_blocks).1).at 4
receiver_output-sender_output_example =
    receiver_output-sender_output forward_fft forward_fft-IsForwardFft delta position 2 vole_b
      base_a base_c sender_blocks receiver_blocks noisy_vole expansion fits below 4 inside

-- Blocks with the same bits.
abbrev pub same_block : Block → Block → Bool
same_block x y = all_below 128 (λ i. not (xor (x.0 i) (y.0 i)))

pub same_block_refl : (x : Block) → same_block x x ≡ true
same_block_refl x = all_below-true 128 _ (λ i. ap not (xor_self (x.0 i)))

-- A PPRF object that counts: its domain and its points.
abbrev counting : Pprf (ℕ × ℕ) ℕ
counting = record {
  configure_gen = λ domain points g. if domain == 0 then none else some (domain, points);
  base_ot_count = λ g. 2;
  set_base = λ msgs g. some g;
  clear_gen = λ g. (0, 0);
  spend_gen = λ g. g;
}

abbrev fresh : Party (ℕ × ℕ)
fresh = record {
  state = default;
  gen = (0, 0);
  request_size = 0;
  sec_param = 0;
  noise_vec_size = 0;
  size_per = 0;
  num_partitions = 0;
  base_type = base_extend;
  mal_type = semi_honest;
  base_share = vole_b;
}

abbrev ready : Party (ℕ × ℕ)
ready = record fresh { state = configured; num_partitions = 2; gen = (4, 2) }

abbrev two_messages : List ℕ
two_messages = 7 ∷ 8 ∷ []

sender_takes :
    sender_set_base counting two_messages vole_b ready
    ≡ returns (record ready { base_share = negated vole_b })
unfolding sender_set_base is_configured base_vole_count
sender_takes = refl

sender_set_base-returns_example :
    (is_configured counting ready ≡ true)
    × (length two_messages ≡ 2)
    × (2 ≡ base_vole_count counting ready)
    × (negated vole_b ≡ negated vole_b)
    × (configured ≡ configured)
sender_set_base-returns_example =
    sender_set_base-returns counting two_messages vole_b ready
      (record ready { base_share = negated vole_b }) sender_takes
