-- ===== src/Vole/Qasd.antt =====
-- `VOLE_QASD` of test.h for blocks, whole: the padding, the public vector, the two threads with two runs
-- of the silent VOLE each, and the check. The clock is left out. The two threads share one generator
-- without a lock; here each goes on with a copy of it.
use extension_field_pcg.Common.{ℕ, Bool, true, false, Option, none, some, if◌then◌else◌, write}
use extension_field_pcg.Loop.{loop}
use extension_field_pcg.F4.Ring.{Block}
use extension_field_pcg.Fft.{Store}
use extension_field_pcg.Vole.Defs.{
  Vector, default, semi_honest, SilentBaseType, base_extend, Outcome, returns, throws, Party,
}
use extension_field_pcg.Vole.Receiver.{Receiver, ReceiverCalls, empty, silent_receive}
use extension_field_pcg.Vole.Sender.{Sender, SenderCalls, silent_send}
use extension_field_pcg.Vole.Padding.{padding, padded, unpadded}
use extension_field_pcg.Vole.Sharing.{vole_qasd}

-- How the function ends: it returns, its check throws, or an exception leaves a thread, which ends the
-- program.
pub data Verdict : Type 0 where
  passed : Verdict
  mismatch : Verdict
  terminated : Verdict

-- What a thread computes, if nothing is thrown in it.
abbrev pub within {ℓ} : {S T : Type ℓ} → Outcome S → (S → Option T) → Option T
within (returns s) next = next s
within (throws s e) next = none

-- A party as it is constructed.
abbrev pub new_party : {Gen : Type 0} → Gen → SilentBaseType → Party Gen
new_party gen base_type = record {
  state = default;
  gen = gen;
  request_size = 0;
  sec_param = 0;
  noise_vec_size = 0;
  size_per = 0;
  num_partitions = 0;
  base_type = base_type;
  mal_type = semi_honest;
  base_share = empty;
}

-- The receiver leaves its base type unset.
abbrev pub new_receiver : {Gen Prng : Type 0} → Gen → SilentBaseType → Prng → Receiver Gen Prng
new_receiver gen unset prng = record {
  party = new_party gen unset;
  points = λ i. 0;
  base_c = empty;
  a = empty;
  c = empty;
  extension_ready = false;
  debug = false;
  prng = prng;
  channel_open = true;
}

abbrev pub new_sender : {Gen Prng : Type 0} → Gen → Prng → Sender Gen Prng
new_sender gen prng = record {
  party = new_party gen base_extend;
  b = empty;
  extension_ready = false;
  debug = false;
  prng = prng;
  sent = none;
  channel_open = true;
}

-- The vectors of the receiver's thread.
pub record Received : Type 0 where
  pub s : Vector
  pub e : Vector
  pub s1 : Vector
  pub e1 : Vector

-- What the function starts from: the two PPRF objects, what the receiver's base type is unset to, the
-- generator, and what the new vectors hold.
pub record Start (Gen Gen1 Prng : Type 0) : Type 0 where
  pub receiver_gen : Gen
  pub sender_gen : Gen1
  pub unset : SilentBaseType
  pub prng : Prng
  pub blank : Store

-- The thread t0 up to its loop. The library is given by its two runs.
unfoldable pub receive_twice :
    {Gen Message Prng : Type 0}
    → ReceiverCalls Gen Message Prng
    → ReceiverCalls Gen Message Prng
    → ℕ
    → Vector
    → Receiver Gen Prng
    → Option Received
receive_twice first second fuel new recv =
    within (silent_receive first fuel new new recv) (λ (recv1, s, s1).
      within (silent_receive second fuel new new recv1)
        (λ (recv2, e, e1). some (record { s = s; e = e; s1 = s1; e1 = e1 })))

-- The thread t1 up to its loop.
unfoldable pub send_twice :
    {Gen1 Message1 Prng : Type 0}
    → SenderCalls Gen1 Message1 Prng
    → SenderCalls Gen1 Message1 Prng
    → Block
    → Vector
    → Sender Gen1 Prng
    → Option (Vector × Vector)
send_twice first second d new send =
    within (silent_send first d new send)
      (λ (send1, s2). within (silent_send second d new send1) (λ (send2, e2). some (s2, e2)))

-- The public vector: a draw for each entry.
unfoldable pub draw_vector :
    {Prng : Type 0} → (Prng → Block × Prng) → ℕ → Store → Prng → Store × Prng
draw_vector draw n a prng = loop (λ i v. let d = draw v.1 in (write v.0 i d.0, d.1)) n 0 (a, prng)

-- After the join of the threads.
unfoldable pub judge :
    (Block → Block → Bool)
    → ℕ
    → Block
    → Store
    → Option Received
    → Option (Vector × Vector)
    → Verdict
judge eq n d a none sent = terminated
judge eq n d a (some r) none = terminated
judge eq n d a (some r) (some (s2, e2)) =
    if vole_qasd eq n d a r.s.at r.e.at r.s1.at r.e1.at s2.at e2.at then passed else mismatch

unfoldable pub vole_qasd_run :
    {Gen Message Gen1 Message1 Prng : Type 0}
    → ReceiverCalls Gen Message Prng
    → ReceiverCalls Gen Message Prng
    → SenderCalls Gen1 Message1 Prng
    → SenderCalls Gen1 Message1 Prng
    → ℕ
    → ℕ
    → Start Gen Gen1 Prng
    → Verdict
vole_qasd_run receive_first receive_second send_first send_second fuel n start =
    let parity = padding n in
    let size = padded n in
    let new : Vector = record { size = size; at = start.blank } in
    let (d, g) = receive_first.draw start.prng in
    let (a, g1) = draw_vector receive_first.draw size start.blank g in
    let n1 = unpadded size parity in
    judge receive_first.eq n1 d a
      (receive_twice receive_first receive_second fuel new
        (new_receiver start.receiver_gen start.unset g1))
      (send_twice send_first send_second d new (new_sender start.sender_gen g1))
