-- ===== src/Tests/Encode.antt =====
-- The encoders on short messages.
use extension_field_pcg.Common.{ℕ, suc, ◌+◌, ◌-◌, ◌*◌, ◌%◌, ◌==◌, ◌≡◌, if◌then◌else◌, arith}
use extension_field_pcg.Algebra.{◌⊗◌}
use extension_field_pcg.Algebra.Sum.{sum}
use extension_field_pcg.F4.Ring.{f4_ring}
use extension_field_pcg.Fft.{Store}
use extension_field_pcg.Fft.Root.{root}
use extension_field_pcg.Encode.QuasiAbelian.{qa_encode, qa_encode_lem}
use extension_field_pcg.Encode.Accumulate.{ea_encode, at_column, ea_encode_lem}
use extension_field_pcg.Encode.Permute.{IsPermutation, raa_encode, raa_encode_lem}
use extension_field_pcg.Tests.Fft.{forward_fft, forward_fft-IsForwardFft}

abbrev message : Store
message i = if i == 2 then root else f4_ring.one

abbrev blank : Store
blank i = f4_ring.nil

abbrev random_vectors : ℕ → Store
random_vectors h i = if i == h then root else root ⊗ root

qa_encode_lem_example :
    (forward_fft 2 3 0 (qa_encode forward_fft 2 9 3 random_vectors message (λ h. blank) 1) 4
      ≡ random_vectors 1 4 ⊗ forward_fft 2 3 0 message 4)
    × (qa_encode forward_fft 2 9 3 random_vectors message (λ h. blank) 2 4 ≡ message 4)
qa_encode_lem_example =
    qa_encode_lem forward_fft forward_fft-IsForwardFft 2 3 random_vectors message (λ h. blank) 1 4
      (omega arith) (omega arith)

abbrev columns : ℕ → ℕ
columns i = i * 5 % 6

ea_encode_lem_example :
    ea_encode 3 2 2 columns message message 4
    ≡ sum 5 (λ s.
      sum 3 (λ i. sum 2 (λ j. at_column (columns (i * 2 + j)) (message (i * 2 + j) ⊗ message i) s)))
ea_encode_lem_example = ea_encode_lem 3 2 2 columns message message 4 (omega arith)

abbrev reversed : ℕ → ℕ
reversed i = 5 - i

reversed-IsPermutation : IsPermutation 6 reversed reversed
reversed-IsPermutation = record {
  back-lt = λ t h. omega arith;
  place-back = λ t h. omega arith;
  back-place = λ i h. omega arith;
}

raa_encode_lem_example :
    raa_encode 3 2 reversed reversed message 4
    ≡ sum 5 (λ s. sum (suc (reversed s)) (λ i. message (reversed i % 3)))
raa_encode_lem_example =
    raa_encode_lem 3 2 reversed reversed reversed reversed message 4 (omega arith)
      reversed-IsPermutation reversed-IsPermutation (omega arith)
