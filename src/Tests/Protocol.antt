-- ===== src/Tests/Protocol.antt =====
-- Runs of the two parties' protocols with a small library: the PPRF object is twice the number of entries
-- that it is configured for, and one more with base OTs, and the generator counts its draws.
use extension_field_pcg.Common.{
  ℕ, suc, ◌+◌, ◌*◌, ◌/◌, ◌%◌, ◌^◌, ◌==◌, Bool, true, false, not, if◌then◌else◌, none, some, List,
  [], ◌∷◌, ◌≡◌, ◌≤◌, ◌<◌, refl, arith, sym, subst,
}
use extension_field_pcg.Algebra.{◌⊕◌, ◌⊗◌, add_left_cancel_self}
use extension_field_pcg.F4.Ring.{Block, f4_ring}
use extension_field_pcg.Fft.{Store}
use extension_field_pcg.Fft.Root.{root}
use extension_field_pcg.Common.{xor}
use extension_field_pcg.Word.{block, of_ℕ}
use extension_field_pcg.Vole.{
  is_configured, round_log3, Vector, Pprf, Party, default, has_base, base, semi_honest, length,
  negated,
}
use extension_field_pcg.Vole.CheckRt.{
  check_rt, check_base_loop, check_base, check_leaves, check_rt-true,
}
use extension_field_pcg.Vole.Receiver.{Receiver, ReceiverCalls, empty, draw_nonzero}
use extension_field_pcg.Vole.Sender.{Sender, SenderCalls}
use extension_field_pcg.Vole.Protocol.{IsSetUp}
use extension_field_pcg.Vole.Sending.{IsReadyToSend}
use extension_field_pcg.Vole.Joint.{BothReturn, silent_receive-silent_send}
use extension_field_pcg.Vole.BaseOts.{IsReliable}
use extension_field_pcg.Vole.Drawing.{draw_nonzero_lem}
use extension_field_pcg.Tests.Fft.{forward_fft, forward_fft-IsForwardFft}
use extension_field_pcg.Tests.Vole.{
  same_block_refl, delta, position, vole_b, base_a, base_c, sender_blocks, receiver_blocks,
  noisy_vole, expansion, fits, below, inside, same_block,
}

-- The PPRF object with base OTs.
abbrev pub based : ℕ → ℕ
based g = 2 * (g / 2) + 1

abbrev pprf : Pprf ℕ Block
pprf = record {
  configure_gen = λ size n g. some (2 * (size * n));
  base_ot_count = λ g. 2;
  set_base = λ msg g. some (based g);
  clear_gen = λ g. 0;
  spend_gen = λ g. 2 * (g / 2);
}

abbrev two_blocks : List Block
two_blocks = root ∷ f4_ring.one ∷ []

abbrev as_blocks : List Bool → List Block
as_blocks [] = []
as_blocks (x ∷ xs) = (if x then root else f4_ring.one) ∷ as_blocks xs

length-as_blocks : (xs : List Bool) → length (as_blocks xs) ≡ length xs
length-as_blocks [] = refl
length-as_blocks (x ∷ xs) = omega (arith, length-as_blocks xs)

abbrev pub receiver_calls : ReceiverCalls ℕ Block ℕ
receiver_calls = record {
  pprf = pprf;
  has_base_ots = λ g. g % 2 == 1;
  sample_choice_bits = λ g p. (true ∷ false ∷ [], g, suc p);
  get_points = λ g. position;
  draw = λ p. (if p == 1 then root else f4_ring.nil, suc p);
  draw_bits = λ n p. (true ∷ [], suc p);
  extension_ot_count = 1;
  receive_ots = λ t choice p. some (as_blocks choice, suc p);
  receive_vole = λ v. some base_a;
  expand = λ g n. some receiver_blocks.at;
  receive_check = none;
  eq = same_block;
  differ = λ x y. not (same_block x y);
  sorted_index = λ s n i. i;
  foleage_fft = forward_fft;
}

abbrev pub sender_calls : SenderCalls ℕ Block ℕ
sender_calls = record {
  pprf = pprf;
  has_base_ots = λ g. g % 2 == 1;
  draw = λ p. (root, suc p);
  extension_ot_count = 1;
  send_ots = λ t n p. some (two_blocks, suc p);
  send_vole = λ d n. some vole_b;
  expand = λ g v seed n. some sender_blocks.at;
  foleage_fft = forward_fft;
}

abbrev party : Vector → Party ℕ
party share = record {
  state = has_base;
  gen = 21;
  request_size = 10;
  sec_param = 128;
  noise_vec_size = 10;
  size_per = 5;
  num_partitions = 2;
  base_type = base;
  mal_type = semi_honest;
  base_share = share;
}

abbrev receiver : Receiver ℕ ℕ
receiver = record {
  party = party base_a;
  points = position;
  base_c = base_c;
  a = empty;
  c = empty;
  extension_ready = false;
  debug = false;
  prng = 0;
  channel_open = true;
}

abbrev sender : Sender ℕ ℕ
sender = record {
  party = party (negated vole_b);
  b = empty;
  extension_ready = false;
  debug = false;
  prng = 0;
  sent = none;
  channel_open = true;
}

receiver-IsSetUp : IsSetUp receiver_calls 4 receiver
unfolding is_configured
receiver-IsSetUp = record {
  configured_before = refl;
  large_enough = omega arith;
  with_base = refl;
  is_semi_honest = refl;
  no_debug = refl;
}

sender-IsReadyToSend : IsReadyToSend sender_calls 4 sender
unfolding is_configured
sender-IsReadyToSend = record {
  configured_before = refl;
  large_enough = omega arith;
  with_base = refl;
  is_semi_honest = refl;
}

pub holds_based : (g : ℕ) → (based g % 2 == 1) ≡ true
holds_based g = ground arith

pub same_capacity : (g : ℕ) → based g / 2 ≡ g / 2
same_capacity g = omega arith

pub capacity_of : (n : ℕ) → 2 * n / 2 ≡ n
capacity_of n = omega arith

pub receiver_calls-IsReliable : IsReliable receiver_calls
receiver_calls-IsReliable = record {
  capacity = λ g. g / 2;
  configures = λ size n g even large. (2 * (size * n), refl, capacity_of (size * n));
  choices = λ g p. refl;
  chosen = λ g p. refl;
  messages = λ t choice p. ((as_blocks choice, suc p), refl, length-as_blocks choice);
  voles = λ v. (base_a, refl);
  based = λ msg g h. (based g, refl, holds_based g, same_capacity g);
  expands = λ g n holds size. (receiver_blocks.at, refl);
}

abbrev four : Vector
four = record { size = 4; at = λ i. f4_ring.nil }

enough : 4 ≤ 3 ^ round_log3 10
enough = omega (arith, inside)

silent_receive-silent_send_example :
    BothReturn receiver_calls sender_calls 3 4 delta four four four receiver sender
silent_receive-silent_send_example =
    silent_receive-silent_send receiver_calls sender_calls forward_fft-IsForwardFft refl 3 4 delta
      four four four vole_b receiver sender receiver_blocks.at sender_blocks.at receiver-IsSetUp
      sender-IsReadyToSend refl refl refl refl noisy_vole refl expansion fits below enough
      (omega arith)

-- A receiver that is not configured, without base OTs.
abbrev new_receiver : Receiver ℕ ℕ
new_receiver = record receiver { party = record (party empty) { state = default; gen = 0 } }

zero_equal : same_block f4_ring.nil root ≡ false
unfolding root xor block of_ℕ
zero_equal = refl

draw_nonzero_lem_example : same_block f4_ring.nil (draw_nonzero receiver_calls 3 0).0 ≡ false
draw_nonzero_lem_example = draw_nonzero_lem receiver_calls 3 1 0 (omega arith) zero_equal

-- One noisy position in two entries: the second one.
abbrev second : ℕ → ℕ
second t = 1

abbrev share : Store
share i = f4_ring.one

abbrev checked_c : Store
checked_c i = if i == 1 then root else f4_ring.nil

abbrev checked_b : Store
checked_b i = f4_ring.one

abbrev checked_a : Store
checked_a i = delta ⊗ checked_c i ⊕ checked_b i

abbrev base_root : Store
base_root i = root

abbrev base_product : Store
base_product i = share i ⊕ delta ⊗ base_root i

abbrev not_same : Block → Block → Bool
not_same x y = not (same_block x y)

base_correlated : (i : ℕ) → same_block (share i ⊕ base_product i) (delta ⊗ base_root i) ≡ true
base_correlated i =
    subst (λ x. same_block x (delta ⊗ base_root i) ≡ true)
      (sym (add_left_cancel_self (share i) (delta ⊗ base_root i)))
      (same_block_refl (delta ⊗ base_root i))

check_passes :
    check_rt same_block not_same delta second second 1 1 base_product share base_root 2 checked_a
      checked_b checked_c
    ≡ true
unfolding check_rt check_base_loop check_base check_leaves
check_passes = simp (base_correlated, same_block_refl)

check_rt-true_example :
    ((i : ℕ) → i < 1 → same_block (share i ⊕ base_product i) (delta ⊗ base_root i) ≡ true)
    × ((j : ℕ) → j < 2 → not_same (checked_a j) (delta ⊗ checked_c j ⊕ checked_b j) ≡ false)
check_rt-true_example =
    check_rt-true same_block not_same delta second second 1 1 base_product share base_root 2
      checked_a checked_b checked_c check_passes
