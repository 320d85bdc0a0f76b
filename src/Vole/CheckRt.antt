-- ===== src/Vole/CheckRt.antt =====
-- `checkRT` of SilentWalshVoleReceiver.h on what the sender sends: delta, its whole vector and its base
-- shares. `eq` is the context's, `differ` the test `!=` on blocks, and `index` the sorted list of the
-- numbers of the noisy coordinates.
use extension_field_pcg.Common.{
  ℕ, zero, suc, ◌+◌, ◌-◌, ◌≤◌, ◌<◌, ◌==◌, ltb, Bool, true, false, not, ◌&&◌, ◌||◌, if◌then◌else◌,
  ◌≡◌, sym, arith,
}
use extension_field_pcg.Common.{first_or_later, inl, inr, subst}
use extension_field_pcg.Algebra.{◌⊕◌, ◌⊗◌}
use extension_field_pcg.F4.Ring.{Block, f4_ring}
use extension_field_pcg.Fft.{Store}

module _ (eq differ : Block → Block → Bool) (delta : Block) (s index : ℕ → ℕ)
    (num_partitions : ℕ) where
  -- The body of the first loop at index i: false where it throws.
  unfoldable pub check_base : Store → Store → Store → Store → ℕ → Bool
  check_base base_a base_b base_c c i =
      let sum = base_b i ⊕ base_a i in
      let product = delta ⊗ base_c i in
      let stored = eq (base_c i) (c (s i)) in
      let ascending = i == 0 || ltb (s (index (i - 1))) (s (index i)) in
      eq sum product && (not (ltb i num_partitions) || (stored && ascending))

  unfoldable pub check_base_loop : Store → Store → Store → Store → ℕ → ℕ → Bool
  check_base_loop base_a base_b base_c c zero i = true
  check_base_loop base_a base_b base_c c (suc left) i =
      let rest = check_base_loop base_a base_b base_c c left (suc i) in
      check_base base_a base_b base_c c i && rest

  -- The second loop from index j on, where `iter` is the place in `index` and `leaf` the noisy coordinate
  -- that is next: false where it throws, or where it has failed.
  unfoldable pub check_leaves : Store → Store → Store → ℕ → ℕ → ℕ → ℕ → Bool → Bool
  check_leaves a b c zero j iter leaf failed = not failed
  check_leaves a b c (suc left) j iter leaf failed =
      let act = delta ⊗ c j ⊕ b j in
      let here = j == leaf in
      let next = if iter + 1 == num_partitions then leaf else s (index (iter + 1)) in
      let rest =
        check_leaves a b c left (suc j) (if here then iter + 1 else iter)
          (if here then next else leaf) (failed || differ (a j) act) in
      (here || eq f4_ring.nil (c j)) && rest

  -- The whole check, on mBaseA, mBaseC, mA and mC with their sizes.
  unfoldable pub check_rt : ℕ → Store → Store → Store → ℕ → Store → Store → Store → Bool
  check_rt base_size base_a base_b base_c size a b c =
      check_base_loop base_a base_b base_c c base_size 0
      && check_leaves a b c size 0 0 (s (index 0)) false

  both : {x y : Bool} → (x && y) ≡ true → (x ≡ true) × (y ≡ true)
  both {x} {y} h = ground arith

  either_false : {x y : Bool} → (x || y) ≡ false → (x ≡ false) × (y ≡ false)
  either_false {x} {y} h = ground arith

  check_leaves-failed :
      (a b c : Store) (left j iter leaf : ℕ) (failed : Bool)
      → check_leaves a b c left j iter leaf failed ≡ true
      → failed ≡ false
  unfolding check_leaves
  check_leaves-failed a b c zero j iter leaf failed h = ground arith
  check_leaves-failed a b c (suc left) j iter leaf failed h =
      (either_false (check_leaves-failed a b c left (suc j) _ _ _ (both h).1)).0

  check_leaves_lem :
      (a b c : Store) (left j iter leaf : ℕ) (failed : Bool)
      → check_leaves a b c left j iter leaf failed ≡ true
      → (t : ℕ) → j ≤ t
      → t < j + left
      → differ (a t) (delta ⊗ c t ⊕ b t) ≡ false
  unfolding check_leaves
  check_leaves_lem a b c zero j iter leaf failed h t l u = absurd (omega arith)
  check_leaves_lem a b c (suc left) j iter leaf failed h t l u = elim (first_or_later j t l) [
    | inl e ↦
        subst (λ x. differ (a x) (delta ⊗ c x ⊕ b x) ≡ false) (sym e)
          (either_false (check_leaves-failed a b c left (suc j) _ _ _ (both h).1)).1
    | inr later ↦ check_leaves_lem a b c left (suc j) _ _ _ (both h).1 t later (omega arith)
  ]

  check_base_loop_lem :
      (base_a base_b base_c c : Store) (left i : ℕ)
      → check_base_loop base_a base_b base_c c left i ≡ true
      → (t : ℕ) → i ≤ t
      → t < i + left
      → eq (base_b t ⊕ base_a t) (delta ⊗ base_c t) ≡ true
  unfolding check_base_loop check_base
  check_base_loop_lem base_a base_b base_c c zero i h t l u = absurd (omega arith)
  check_base_loop_lem base_a base_b base_c c (suc left) i h t l u = elim (first_or_later i t l) [
    | inl e ↦
        subst (λ x. eq (base_b x ⊕ base_a x) (delta ⊗ base_c x) ≡ true) (sym e) (both (both h).0).0
    | inr later ↦
        check_base_loop_lem base_a base_b base_c c left (suc i) (both h).1 t later (omega arith)
  ]

  -- When the check passes, `eq` has found the base shares correlated, mBaseA + baseB = delta * mBaseC, at
  -- each index, and `!=` has found no entry of mA that is not delta * mC + B.
  pub check_rt-true :
      (base_size : ℕ) (base_a base_b base_c : Store) (size : ℕ) (a b c : Store)
      → check_rt base_size base_a base_b base_c size a b c ≡ true
      → ((i : ℕ) → i < base_size → eq (base_b i ⊕ base_a i) (delta ⊗ base_c i) ≡ true)
        × ((j : ℕ) → j < size → differ (a j) (delta ⊗ c j ⊕ b j) ≡ false)
  unfolding check_rt
  check_rt-true base_size base_a base_b base_c size a b c h = (
    λ i l.
        check_base_loop_lem base_a base_b base_c c base_size 0 (both h).0 i (omega arith)
          (omega arith),
    λ j l. check_leaves_lem a b c size 0 0 _ false (both h).1 j (omega arith) (omega arith),
  )
