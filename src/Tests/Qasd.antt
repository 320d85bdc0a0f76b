-- ===== src/Tests/Qasd.antt =====
-- A run of `VOLE_QASD` with a small library, for 81 entries that are padded to 128.
use extension_field_pcg.Common.{ℕ, zero, suc, List, [], ◌∷◌, Option, ltb, if◌then◌else◌, none, some}
use extension_field_pcg.Algebra.{◌⊕◌, ◌⊗◌}
use extension_field_pcg.F4.Ring.{Block, f4_ring}
use extension_field_pcg.Fft.{Store}
use extension_field_pcg.Fft.Root.{root}
use extension_field_pcg.Vole.{Vector, base, negated}
use extension_field_pcg.Vole.Receiver.{ReceiverCalls}
use extension_field_pcg.Vole.Sender.{SenderCalls}
use extension_field_pcg.Vole.BaseOts
use extension_field_pcg.Vole.Programming
use extension_field_pcg.Vole.Qasd.{Start}
use extension_field_pcg.Tests.Vole.{same_block}
use extension_field_pcg.Tests.Protocol.{receiver_calls, sender_calls}

-- The sender's part of the noisy VOLE.
abbrev roots : Vector
roots = record { size = 64; at = λ i. root }

abbrev as_many : ℕ → Vector
as_many n = record { size = n; at = λ i. root }

-- The first 64 points differ.
abbrev expanded : Store
expanded i = if ltb i 64 then (negated roots).at i else f4_ring.nil

abbrev honest_receiver : ReceiverCalls ℕ Block ℕ
honest_receiver = record receiver_calls {
  get_points = λ g i. i;
  receive_vole = λ c. some (record { size = 64; at = λ i. root ⊕ root ⊗ c.at i });
  expand = λ g n. some expanded;
  eq = same_block;
}

abbrev messages : ℕ → List Block
messages zero = []
messages (suc n) = root ∷ messages n

abbrev honest_sender : SenderCalls ℕ Block ℕ
honest_sender = record sender_calls {
  send_ots = λ t n p. some (messages n, suc p);
  send_vole = λ d n. some (as_many n);
  expand = λ g v seed n. some (λ i. f4_ring.nil);
}

-- The value of a call that does not throw.
value : {A : Type 0} → A → Option A → A
value x none = x
value x (some y) = y

abbrev begin : Start ℕ ℕ ℕ
begin = record {
  receiver_gen = 0;
  sender_gen = 0;
  unset = base;
  prng = 1;
  blank = λ i. f4_ring.nil;
}
