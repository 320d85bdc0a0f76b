-- ===== src/Vole/QasdCorrect.antt =====
-- `VOLE_QASD` passes its own check.
use extension_field_pcg.Common.{ℕ}
use extension_field_pcg.F4.Ring.{Block}
use extension_field_pcg.Vole.Receiver.{Receiver, ReceiverCalls}
use extension_field_pcg.Vole.Sender.{Sender, SenderCalls}
use extension_field_pcg.Vole.BaseOts
use extension_field_pcg.Vole.Receiving
use extension_field_pcg.Vole.Programming
use extension_field_pcg.Vole.Connected.{IsConnected}
use extension_field_pcg.Vole.Qasd.{Start}

-- The library in one run of the silent VOLE for n entries: calls throw in the documented cases alone, a configured PPRF object has no
-- base OTs, and what the two parties get belongs together.
pub record IsSound {Gen Message Gen1 Message1 Prng : Type 0} (rl : ReceiverCalls Gen Message Prng)
    (sl : SenderCalls Gen1 Message1 Prng) (delta : Block) (n : ℕ) : Type 0 where
  pub receives : BaseOts.IsReliable rl
  pub receiver_fresh : Receiving.StartsFresh rl
  pub sends : Programming.IsReliable sl
  pub sender_fresh : Programming.StartsFresh sl
  pub connected : IsConnected rl sl delta n

module _ {Gen Message Gen1 Message1 Prng : Type 0} (rl rl1 : ReceiverCalls Gen Message Prng)
    (sl sl1 : SenderCalls Gen1 Message1 Prng) where
  -- What the run draws first: d, and what follows it.
  abbrev pub drawn : Start Gen Gen1 Prng → Block
  drawn start = (rl.draw start.prng).0
