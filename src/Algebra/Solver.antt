-- ===== src/Algebra/Solver.antt =====
-- A decision procedure for equations in a commutative ring of characteristic two: both sides are
-- brought to a sorted list of sorted monomials, where equal pairs cancel.
use extension_field_pcg.Common.{
  ℕ, zero, suc, ◌≡◌, refl, sym, ap, ap₂, ◌∙◌, compare, Ordering, arith,
}
use extension_field_pcg.Common.{List, [], ◌∷◌}
use extension_field_pcg.Algebra.{Ring2, ◌⊕◌, ◌⊗◌, add-nil, mul-one, add-mul, nil-mul, mul-nil}
use extension_field_pcg.Algebra.{add_left_cancel_self}

infixl 65 ◌:+◌
infixl 70 ◌:*◌
pub data Expr : Type 0 where
  var : ℕ → Expr
  one : Expr
  nil : Expr
  ◌:+◌ : Expr → Expr → Expr
  ◌:*◌ : Expr → Expr → Expr

abbrev Mono : Type 0
Mono = List ℕ

order_mono : Mono → Mono → Ordering
order_mono [] [] = Ordering.eq
order_mono [] (y ∷ ys) = Ordering.lt
order_mono (x ∷ xs) [] = Ordering.gt
order_mono (x ∷ xs) (y ∷ ys) = elim (compare x y) [
  | Ordering.lt ↦ Ordering.lt
  | Ordering.gt ↦ Ordering.gt
  | Ordering.eq ↦ order_mono xs ys
]

order_mono-eq : (m n : Mono) → order_mono m n ≡ Ordering.eq → m ≡ n
unfolding order_mono
order_mono-eq [] [] h = refl
order_mono-eq [] (y ∷ ys) h = cc
order_mono-eq (x ∷ xs) [] h = cc
order_mono-eq (x ∷ xs) (y ∷ ys) h = ground (arith, order_mono-eq xs ys)

insert_var : ℕ → Mono → Mono
insert_var x [] = x ∷ []
insert_var x (y ∷ ys) =
    let rest = insert_var x ys in elim (compare x y) [ Ordering.gt ↦ y ∷ rest | _ ↦ x ∷ y ∷ ys ]

mul_mono : Mono → Mono → Mono
mul_mono [] n = n
mul_mono (x ∷ xs) n = insert_var x (mul_mono xs n)

insert_mono : Mono → List Mono → List Mono
insert_mono m [] = m ∷ []
insert_mono m (n ∷ ns) =
    let rest = insert_mono m ns in
    elim (order_mono m n) [ Ordering.lt ↦ m ∷ n ∷ ns | Ordering.eq ↦ ns | Ordering.gt ↦ n ∷ rest ]

merge : List Mono → List Mono → List Mono
merge [] q = q
merge (m ∷ p) q = insert_mono m (merge p q)

scale : Mono → List Mono → List Mono
scale m [] = []
scale m (n ∷ q) = insert_mono (mul_mono m n) (scale m q)

product : List Mono → List Mono → List Mono
product [] q = []
product (m ∷ p) q = merge (scale m q) (product p q)

unfoldable pub norm : Expr → List Mono
unfolding order_mono insert_var mul_mono insert_mono merge scale product
norm (var i) = (i ∷ []) ∷ []
norm one = [] ∷ []
norm nil = []
norm (a :+ b) = merge (norm a) (norm b)
norm (a :* b) = product (norm a) (norm b)

module _ {ℓ} {A : Type ℓ} ⦃r : Ring2 A⦄ where
  abbrev pub value : List A → ℕ → A
  value [] i = r.nil
  value (x ∷ xs) zero = x
  value (x ∷ xs) (suc i) = value xs i

  abbrev pub eval : List A → Expr → A
  eval env (var i) = value env i
  eval env one = r.one
  eval env nil = r.nil
  eval env (a :+ b) = eval env a ⊕ eval env b
  eval env (a :* b) = eval env a ⊗ eval env b

module _ {ℓ} {A : Type ℓ} ⦃r : Ring2 A⦄ (env : List A) where
  of_mono : Mono → A
  of_mono [] = r.one
  of_mono (x ∷ xs) = value env x ⊗ of_mono xs

  of_sum : List Mono → A
  of_sum [] = r.nil
  of_sum (m ∷ p) = of_mono m ⊕ of_sum p

  mul_left_comm : (a b c : A) → a ⊗ (b ⊗ c) ≡ b ⊗ (a ⊗ c)
  mul_left_comm a b c =
      sym (r.mul_assoc a b c) ∙ ap (λ t. t ⊗ c) (r.mul_comm a b) ∙ r.mul_assoc b a c

  add_left_comm : (a b c : A) → a ⊕ (b ⊕ c) ≡ b ⊕ (a ⊕ c)
  add_left_comm a b c =
      sym (r.add_assoc a b c) ∙ ap (λ t. t ⊕ c) (r.add_comm a b) ∙ r.add_assoc b a c

  of_mono-insert_var : (x : ℕ) (m : Mono) → of_mono (insert_var x m) ≡ value env x ⊗ of_mono m
  unfolding of_mono insert_var
  of_mono-insert_var x [] = refl
  of_mono-insert_var x (y ∷ ys) =
      elim (compare x y)
        as (λ o.
          of_mono (elim o [ Ordering.gt ↦ y ∷ insert_var x ys | _ ↦ x ∷ y ∷ ys ])
          ≡ value env x ⊗ (value env y ⊗ of_mono ys)) [
            | Ordering.gt ↦ ap (r.mul _) (of_mono-insert_var x ys) ∙ mul_left_comm _ _ _
            | Ordering.lt ↦ refl
            | Ordering.eq ↦ refl
          ]

  of_mono-mul_mono : (m n : Mono) → of_mono (mul_mono m n) ≡ of_mono m ⊗ of_mono n
  unfolding of_mono mul_mono
  of_mono-mul_mono [] n = sym (r.one-mul _)
  of_mono-mul_mono (x ∷ xs) n =
      of_mono-insert_var x (mul_mono xs n)
      ∙ ap (r.mul _) (of_mono-mul_mono xs n)
      ∙ sym (r.mul_assoc _ _ _)

  of_sum-insert_mono : (m : Mono) (p : List Mono) → of_sum (insert_mono m p) ≡ of_mono m ⊕ of_sum p
  unfolding of_sum insert_mono
  of_sum-insert_mono m [] = refl
  of_sum-insert_mono m (n ∷ ns) =
      elim (order_mono m n)
          as (λ o.
            (o ≡ Ordering.eq → m ≡ n)
            → of_sum (elim o [
              | Ordering.lt ↦ m ∷ n ∷ ns
              | Ordering.eq ↦ ns
              | Ordering.gt ↦ n ∷ insert_mono m ns
            ])
              ≡ of_mono m ⊕ (of_mono n ⊕ of_sum ns)) [
                | Ordering.lt ↦ λ e. refl
                | Ordering.eq ↦ λ e. rw (e refl) (sym (add_left_cancel_self _ _))
                | Ordering.gt ↦ λ e. ap (r.add _) (of_sum-insert_mono m ns) ∙ add_left_comm _ _ _
              ]
        (order_mono-eq m n)

  of_sum-merge : (p q : List Mono) → of_sum (merge p q) ≡ of_sum p ⊕ of_sum q
  unfolding of_sum merge
  of_sum-merge [] q = sym (r.nil-add _)
  of_sum-merge (m ∷ p) q =
      of_sum-insert_mono m (merge p q) ∙ ap (r.add _) (of_sum-merge p q) ∙ sym (r.add_assoc _ _ _)

  of_sum-scale : (m : Mono) (q : List Mono) → of_sum (scale m q) ≡ of_mono m ⊗ of_sum q
  unfolding of_sum scale
  of_sum-scale m [] = sym (mul-nil _)
  of_sum-scale m (n ∷ q) =
      of_sum-insert_mono (mul_mono m n) (scale m q)
      ∙ ap₂ r.add (of_mono-mul_mono m n) (of_sum-scale m q)
      ∙ sym (r.mul-add _ _ _)

  of_sum-product : (p q : List Mono) → of_sum (product p q) ≡ of_sum p ⊗ of_sum q
  unfolding of_sum product
  of_sum-product [] q = sym (nil-mul _)
  of_sum-product (m ∷ p) q =
      of_sum-merge (scale m q) (product p q)
      ∙ ap₂ r.add (of_sum-scale m q) (of_sum-product p q)
      ∙ sym (add-mul _ _ _)

  of_sum-norm : (e : Expr) → of_sum (norm e) ≡ eval env e
  unfolding norm of_sum of_mono
  of_sum-norm (var i) = add-nil _ ∙ mul-one _
  of_sum-norm one = add-nil _
  of_sum-norm nil = refl
  of_sum-norm (a :+ b) = of_sum-merge (norm a) (norm b) ∙ ap₂ r.add (of_sum-norm a) (of_sum-norm b)
  of_sum-norm (a :* b) =
      of_sum-product (norm a) (norm b) ∙ ap₂ r.mul (of_sum-norm a) (of_sum-norm b)

  -- Two expressions with the same normal form have the same value.
  pub solve : (a b : Expr) → norm a ≡ norm b → eval env a ≡ eval env b
  solve a b h = sym (of_sum-norm a) ∙ ap of_sum h ∙ of_sum-norm b

-- A test: (x + y)^2 is x^2 + y^2.
square_add {ℓ} : {A : Type ℓ} ⦃r : Ring2 A⦄ (x y : A) → (x ⊕ y) ⊗ (x ⊕ y) ≡ x ⊗ x ⊕ y ⊗ y
unfolding norm
square_add x y =
    let v = var in solve (x ∷ y ∷ []) ((v 0 :+ v 1) :* (v 0 :+ v 1)) (v 0 :* v 0 :+ v 1 :* v 1) refl
