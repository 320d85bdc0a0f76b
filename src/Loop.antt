-- ===== src/Loop.antt =====
-- Counted loops, `for (i = ...; ...; i++)`, and their rules.
use extension_field_pcg.Common.{
  ℕ, zero, suc, ◌+◌, ◌≤◌, ◌<◌, ◌≡◌, ◌≢◌, refl, sym, ap, ◌∙◌, subst, arith,
}
use extension_field_pcg.Common.{
  equal_or_not, write, write_self, write_other, first_or_later, inl, inr,
}

-- `rounds` rounds, the first at index `i`.
unfoldable pub loop {ℓ} : {S : Type ℓ} → (ℕ → S → S) → ℕ → ℕ → S → S
loop body zero i s = s
loop body (suc rounds) i s = loop body rounds (suc i) (body i s)

-- An invariant that each round keeps holds at the end.
pub loop_rule {ℓ κ} :
    {S : Type ℓ} (P : ℕ → S → Type κ) (body : ℕ → S → S) (rounds i : ℕ) (s : S)
    → ((j : ℕ) (t : S) → i ≤ j → j < i + rounds → P j t → P (suc j) (body j t))
    → P i s
    → P (i + rounds) (loop body rounds i s)
unfolding loop
loop_rule P body zero i s keep p = subst (λ j. P j s) {x = i} {y = i + 0} (omega arith) p
loop_rule P body (suc rounds) i s keep p =
    subst (λ j. P j (loop body rounds (suc i) (body i s))) {x = suc i + rounds} {y = i + suc rounds}
      (omega arith)
      (loop_rule P body rounds (suc i) (body i s)
        (λ j t l u q. keep j t (omega arith) (omega arith) q)
        (keep i s (omega arith) (omega arith) p))

-- From the first index on.
pub loop_from_zero {ℓ κ} :
    {S : Type ℓ} (P : ℕ → S → Type κ) (body : ℕ → S → S) (n : ℕ) (s : S)
    → ((j : ℕ) (t : S) → j < n → P j t → P (suc j) (body j t))
    → P 0 s
    → P n (loop body n 0 s)
loop_from_zero P body n s keep p =
    subst (λ j. P j (loop body n 0 s)) {x = 0 + n} {y = n} (omega arith)
      (loop_rule P body n 0 s (λ j t l u q. keep j t (omega arith) q) p)

-- Two loops whose rounds keep a relation.
loop_related_from {ℓ κ μ} :
    {S : Type ℓ} {T : Type κ} (R : ℕ → S → T → Type μ) (body : ℕ → S → S) (other : ℕ → T → T)
    (n rounds i : ℕ) (s : S) (t : T)
    → ((j : ℕ) (u : S) (v : T) → j < n → R j u v → R (suc j) (body j u) (other j v))
    → i + rounds ≡ n
    → R i s t
    → R n (loop body rounds i s) (loop other rounds i t)
unfolding loop
loop_related_from R body other n zero i s t keep e h =
    subst (λ j. R j s t) {x = i} {y = n} (omega arith) h
loop_related_from R body other n (suc rounds) i s t keep e h =
    loop_related_from R body other n rounds (suc i) (body i s) (other i t) keep (omega arith)
      (keep i s t (omega arith) h)

-- From the first index on.
pub loop_related {ℓ κ μ} :
    {S : Type ℓ} {T : Type κ} (R : ℕ → S → T → Type μ) (body : ℕ → S → S) (other : ℕ → T → T)
    (n : ℕ) (s : S) (t : T)
    → ((j : ℕ) (u : S) (v : T) → j < n → R j u v → R (suc j) (body j u) (other j v))
    → R 0 s t
    → R n (loop body n 0 s) (loop other n 0 t)
loop_related R body other n s t keep start =
    loop_related_from R body other n n 0 s t keep (omega arith) start

-- What each round leaves alone stays as it is.
pub loop_keeps {ℓ κ} :
    {S : Type ℓ} {A : Type κ} (f : S → A) (body : ℕ → S → S) (rounds i : ℕ) (s : S)
    → ((j : ℕ) (t : S) → i ≤ j → j < i + rounds → f (body j t) ≡ f t)
    → f (loop body rounds i s) ≡ f s
loop_keeps f body rounds i s keep =
    loop_rule (λ j t. f t ≡ f s) body rounds i s (λ j t l u q. keep j t l u ∙ q) refl

-- A loop that writes entry i from the entry i of what it found there, at each index from 0 on.
unfoldable pub update_all {ℓ} : {A : Type ℓ} → (ℕ → A → A) → ℕ → (ℕ → A) → ℕ → A
update_all f n a = loop (λ i s. write s i (f i (s i))) n 0 a

module _ {ℓ} {A : Type ℓ} (f : ℕ → A → A) where
  update_from :
      (rounds i : ℕ) (a : ℕ → A) (t : ℕ)
      → i ≤ t
      → t < i + rounds
      → loop (λ i s. write s i (f i (s i))) rounds i a t ≡ f t (a t)
  unfolding loop
  update_from zero i a t l u = absurd (omega arith)
  update_from (suc rounds) i a t l u =
      let next = write a i (f i (a i)) in
      elim (first_or_later i t l) [
        | inl e ↦
            subst (λ x. loop (λ i s. write s i (f i (s i))) rounds (suc i) next x ≡ f x (a x))
              (sym e)
              (loop_keeps (λ s. s i) (λ i s. write s i (f i (s i))) rounds (suc i) next
                  (λ j s p q. write_other s j i _ (omega arith))
                ∙ write_self a i _)
        | inr later ↦
            update_from rounds (suc i) next t later (omega arith)
            ∙ ap (f t) (write_other a i t _ (omega arith))
      ]

  pub update_all_at : (n : ℕ) (a : ℕ → A) (t : ℕ) → t < n → update_all f n a t ≡ f t (a t)
  unfolding update_all
  update_all_at n a t h = update_from n 0 a t (omega arith) (omega arith)

  pub update_all_from : (n : ℕ) (a : ℕ → A) (t : ℕ) → n ≤ t → update_all f n a t ≡ a t
  unfolding update_all
  update_all_from n a t h =
      loop_keeps (λ s. s t) (λ i s. write s i (f i (s i))) n 0 a
        (λ j s p q. write_other s j t _ (omega arith))

-- `dst[place(i)] = src[i]`, for i from 0 on.
unfoldable pub scatter {ℓ} : {A : Type ℓ} → (ℕ → ℕ) → (ℕ → A) → ℕ → (ℕ → A) → ℕ → A
scatter place src n dst = loop (λ i s. write s (place i) (src i)) n 0 dst

-- Each entry arrives, when no two have the same place.
pub scatter_at {ℓ} :
    {A : Type ℓ} (place : ℕ → ℕ) (src : ℕ → A) (n : ℕ) (dst : ℕ → A)
    → ((i j : ℕ) → i < n → j < n → place i ≡ place j → i ≡ j)
    → (t : ℕ) → t < n
    → scatter place src n dst (place t) ≡ src t
unfolding scatter
scatter_at place src n dst injective t h =
    loop_from_zero (λ j s. (t : ℕ) → t < j → t < n → s (place t) ≡ src t) _ n dst
      (λ j s l before t m u. elim (equal_or_not t j) [
        | inl e ↦
            ap (λ x. write s (place j) (src j) (place x)) e
            ∙ write_self s (place j) (src j)
            ∙ ap src (sym e)
        | inr d ↦
            write_other s (place j) (place t) (src j) (λ e. d (injective t j u l e))
            ∙ before t (omega arith) u
      ])
      (λ t m u. absurd (omega arith)) t h h

-- What no entry is put to stays.
pub scatter_other {ℓ} :
    {A : Type ℓ} (place : ℕ → ℕ) (src : ℕ → A) (n : ℕ) (dst : ℕ → A) (t : ℕ)
    → ((i : ℕ) → i < n → t ≢ place i)
    → scatter place src n dst t ≡ dst t
unfolding scatter
scatter_other place src n dst t avoids =
    loop_keeps (λ s. s t) (λ i s. write s (place i) (src i)) n 0 dst
      (λ j s l u. write_other s (place j) t (src j) (avoids j (omega arith)))
