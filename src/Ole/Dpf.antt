-- ===== src/Ole/Dpf.antt =====
-- `dpf` of OLE.h: the shares of the products go through the library's distributed point functions,
-- whose outputs are added to the two parties' polynomials. A point is the number that its digits to
-- the base 3 stand for, and `add` is the library's addition of `F3x32`.
use extension_field_pcg.Common.{ℕ, ◌+◌, ◌*◌, ◌%◌, Bool, if◌then◌else◌, write}
use extension_field_pcg.Loop.{loop}
use extension_field_pcg.IntLoop.{int_rounds}
use extension_field_pcg.Algebra.{◌⊕◌}
use extension_field_pcg.F4.Ring.{Block, f4_ring}
use extension_field_pcg.Fft.{Store}
use extension_field_pcg.Ole.Defs.{generate_additive_sharing, list_points}

-- The base OTs of both parties.
pub record BaseOts : Type 0 where
  pub send0 : ℕ → Block × Block
  pub send1 : ℕ → Block × Block
  pub recv0 : Store
  pub recv1 : Store
  pub choice0 : ℕ → Bool
  pub choice1 : ℕ → Bool

-- The random numbers of one call: those of the sharing, the messages and choices of the OTs, and those
-- that the protocol of the distributed point functions draws, of both parties.
pub record Randomness : Type 0 where
  pub share : ℕ → Block
  pub messages : ℕ → Block × Block
  pub choices0 : ℕ → Bool
  pub choices1 : ℕ → Bool
  pub protocol : ℕ → Block

abbrev pub pick : Block × Block → Bool → Block
pick m c = if c then m.1 else m.0

-- `for (i = 0; i < baseCount; ++i)`, with two draws in each round.
unfoldable pub deal_base_ots : Randomness → ℕ → BaseOts → BaseOts
deal_base_ots rand base_count ots =
    loop
      (λ i o.
        let sent0 = write o.send0 i (rand.messages (2 * i)) in
        let sent1 = write o.send1 i (rand.messages (2 * i + 1)) in
        record o {
          send0 = sent0;
          send1 = sent1;
          recv0 = write o.recv0 i (pick (sent1 i) (o.choice0 i));
          recv1 = write o.recv1 i (pick (sent0 i) (o.choice1 i));
        })
      base_count 0 ots

-- The library's `TernaryDpf`, both parties together: the number of base OTs for a domain and a number
-- of points, and the outputs for the base OTs, what is drawn, the shares of the points and those of the values.
pub record TernaryDpf : Type 0 where
  pub base_ot_count : ℕ → ℕ → ℕ
  pub expand :
      BaseOts
      → (ℕ → Block)
      → (ℕ → ℕ)
      → (ℕ → ℕ)
      → Store
      → Store
      → ℕ
      → ℕ
      → (ℕ → ℕ → Block) × (ℕ → ℕ → Block)

-- `polyA[k+temp] += output[k]` for all k of the domain.
unfoldable pub add_output : ℕ → ℕ → (ℕ → Block) → Store → Store
add_output domain temp output poly =
    loop (λ k s. write s (k + temp) (s (k + temp) ⊕ output k)) (int_rounds domain) 0 poly

-- One party's loops over the pairs of points.
unfoldable pub add_outputs : (ℕ → ℕ → ℕ) → ℕ → ℕ → (ℕ → ℕ → Block) → Store → Store
add_outputs add num_points domain output poly =
    loop
      (λ i s.
        loop
          (λ j u. add_output domain (add i j % num_points * domain) (output (i * num_points + j)) u)
          (int_rounds num_points) 0 s)
      (int_rounds num_points) 0 poly

module _ (add : ℕ → ℕ → ℕ) (lib : TernaryDpf) where
  -- The two polynomials after the call. `fresh` is what the buffers hold when they are allocated.
  unfoldable pub dpf :
      Randomness → Store → Store → (ℕ → ℕ) → (ℕ → ℕ) → ℕ → ℕ → Store → Store → Store × Store
  dpf rand poly_coeff0 poly_coeff1 poly_points0 poly_points1 num_points domain poly_a poly_b =
      let pairs = num_points * num_points in
      let blank : Store = λ i. f4_ring.nil in
      let values =
        generate_additive_sharing rand.share poly_coeff0 num_points poly_coeff1 num_points blank
          blank in
      let no_points : (ℕ → ℕ) × (ℕ → ℕ) = (λ i. 0, λ i. 0) in
      let points = list_points num_points poly_points0 poly_points1 num_points 0 no_points in
      let no_messages : ℕ → Block × Block = λ i. (f4_ring.nil, f4_ring.nil) in
      let ots = deal_base_ots rand (lib.base_ot_count domain pairs) (record {
        send0 = no_messages;
        send1 = no_messages;
        recv0 = blank;
        recv1 = blank;
        choice0 = rand.choices0;
        choice1 = rand.choices1;
      }) in
      let output =
        lib.expand ots rand.protocol points.0 points.1 values.value0 values.value1 domain pairs in
      (
        add_outputs add num_points domain output.0 poly_a,
        add_outputs add num_points domain output.1 poly_b,
      )
