-- ===== src/Vole/Liveness.antt =====
-- The receiver's protocol ends normally when the library's calls throw in the documented cases alone.
use extension_field_pcg.Common.{ℕ, true, false, ◌≡◌, ◌≤◌}
use extension_field_pcg.Vole.Defs.{semi_honest, is_configured}
use extension_field_pcg.Vole.Receiver.{Receiver, ReceiverCalls}
use extension_field_pcg.Vole.BaseOts.{IsReliable}

-- What the steps keep: semi-honest, without the debug check, and configured for a request.
pub record IsReady {Gen Message Prng : Type 0} (lib : ReceiverCalls Gen Message Prng) (n : ℕ)
    (reliable : IsReliable lib) (r : Receiver Gen Prng) : Type 0 where
  pub is_semi_honest : r.party.mal_type ≡ semi_honest
  pub no_debug : r.debug ≡ false
  pub configured_before : is_configured lib.pprf r.party ≡ true
  pub large_enough : n ≤ r.party.request_size
  pub sized : reliable.capacity r.party.gen ≡ r.party.noise_vec_size

module _ {Gen Message Prng : Type 0} (lib : ReceiverCalls Gen Message Prng)
    (reliable : IsReliable lib) (n : ℕ) where
  -- Ready, with base OTs.
  abbrev IsLoadedReady : Receiver Gen Prng → Type 0
  IsLoadedReady r = IsReady lib n reliable r × (lib.has_base_ots r.party.gen ≡ true)
