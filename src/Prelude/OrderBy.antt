-- ===== src/Prelude/OrderBy.antt =====
-- `orderBy` of the Prisma client: some sorting of the rows that a query found. Which of several rows
-- that compare alike comes first is left open.
use Prim.Native.Nat.{ℕ, ◌+◌}
use mathlib.Core.Path.{◌≡◌, refl, sym, ap, subst, subst₂, ◌∙◌}
use mathlib.Core.Logic.{◌≢◌, ◌⊎◌, inl, inr, ∥∥₁_elim}
use mathlib.Core.Bool.{Bool}
use mathlib.Core.List.{List, [], ◌∷◌, Perm, Permᴰ}
use mathlib.Core.List.Perm
use native.Mathlib.Omega.{arith}
use mathlib.Core.Bool.{true, false}
use mathlib.Core.Option.{some, none, some-injective}
use ssambee_be.Prelude.Tests.{Bool-cases, if◌then◌else◌}
use ssambee_be.Prelude.Lists.{All, sum_by, HasDistinct, HasDistinct-prop, head?}
use ssambee_be.Prelude.Table.{
  count_where, any_where, find_many, find_by, find_by_rows, All-find_many, find_many_sound,
}

-- `order_by A before rows`, where `before x y` says that `x` may stand in front of `y`.
pub record OrderBy : Type 1 where
  pub order_by : (A : Type 0) → (A → A → Bool) → List A → List A
  pub order_by-perm : (A : Type 0) (r : A → A → Bool) (xs : List A) → Perm (order_by A r xs) xs

abbrev pub order_by : ⦃o : OrderBy⦄ → {A : Type 0} → (A → A → Bool) → List A → List A
order_by ⦃o⦄ {A} = o.order_by A

-- Each row may stand in front of all that follow it.
abbrev pub IsSortedBy : {A : Type 0} → (A → A → Bool) → List A → Type 0
IsSortedBy r [] = Unit
IsSortedBy r (x ∷ xs) = All (λ y. r x y ≡ true) xs × IsSortedBy r xs

abbrev pub IsTotal : {A : Type 0} → (A → A → Bool) → Type 0
IsTotal {A} r = (x y : A) → (r x y ≡ true) ⊎ (r y x ≡ true)

abbrev pub IsTransitive : {A : Type 0} → (A → A → Bool) → Type 0
IsTransitive {A} r = (x y z : A) → r x y ≡ true → r y z ≡ true → r x z ≡ true

-- By a total order `orderBy` sorts.
abbrev pub IsSorting : OrderBy → Type 1
IsSorting o =
    (A : Type 0) (r : A → A → Bool)
    → IsTotal r
    → IsTransitive r
    → (xs : List A) → IsSortedBy r (o.order_by A r xs)

module _ {A : Type 0} where
  sum_by-Permᴰ : (f : A → ℕ) {xs ys : List A} → Permᴰ xs ys → sum_by f xs ≡ sum_by f ys
  sum_by-Permᴰ f Permᴰ.nil = refl
  sum_by-Permᴰ f (Permᴰ.cons e p) = omega (arith, ap f e, sum_by-Permᴰ f p)
  sum_by-Permᴰ f (Permᴰ.swap e e') = omega (arith, ap f e, ap f e')
  sum_by-Permᴰ f (Permᴰ.trans p q) = omega (arith, sum_by-Permᴰ f p, sum_by-Permᴰ f q)

  All-Permᴰ : (P : A → Type 0) {xs ys : List A} → Permᴰ xs ys → All P xs → All P ys
  All-Permᴰ P Permᴰ.nil h = tt
  All-Permᴰ P (Permᴰ.cons e p) h = (subst P e h.0, All-Permᴰ P p h.1)
  All-Permᴰ P (Permᴰ.swap e e') h = (subst P e' h.1.0, (subst P e h.0, h.1.1))
  All-Permᴰ P (Permᴰ.trans p q) h = All-Permᴰ P q (All-Permᴰ P p h)

  All-prop : (P : A → Type 0) → ((x : A) → IsProp (P x)) → (xs : List A) → IsProp (All P xs)
  All-prop P h [] = hlevel
  All-prop P h (x ∷ xs) = hlevel (h x, All-prop P h xs)

  any_where-Permᴰ : (p : A → Bool) {xs ys : List A} → Permᴰ xs ys → any_where p xs ≡ any_where p ys
  any_where-Permᴰ p Permᴰ.nil = refl
  any_where-Permᴰ p (Permᴰ.cons e h) = ground (arith, ap p e, any_where-Permᴰ p h)
  any_where-Permᴰ p (Permᴰ.swap e e') = ground (arith, ap p e, ap p e')
  any_where-Permᴰ p (Permᴰ.trans h k) = any_where-Permᴰ p h ∙ any_where-Permᴰ p k

  HasDistinct-Permᴰ :
      (key : A → ℕ) {xs ys : List A} → Permᴰ xs ys → HasDistinct key xs → HasDistinct key ys
  HasDistinct-Permᴰ key Permᴰ.nil h = tt
  HasDistinct-Permᴰ key (Permᴰ.cons {a = a} {l₂ = ys} e p) h = (
    subst (λ z. All (λ y. key y ≢ key z) ys) e (All-Permᴰ (λ y. key y ≢ key a) p h.0),
    HasDistinct-Permᴰ key p h.1,
  )
  HasDistinct-Permᴰ key (Permᴰ.swap {l = l} e e') h =
      subst₂ (λ x y. HasDistinct key (x ∷ y ∷ l)) e' e ((λ q. h.0.0 (sym q), h.1.0), (h.0.1, h.1.1))
  HasDistinct-Permᴰ key (Permᴰ.trans p q) h = HasDistinct-Permᴰ key q (HasDistinct-Permᴰ key p h)

count-eq-sum :
    {A : Type 0} (p : A → Bool) (xs : List A)
    → count_where p xs ≡ sum_by (λ x. if p x then 1 else 0) xs
count-eq-sum p [] = refl
count-eq-sum p (x ∷ xs) = omega (arith, count-eq-sum p xs)

module _ ⦃o : OrderBy⦄ {A : Type 0} (r : A → A → Bool) (xs : List A) where
  -- Sorting keeps every sum over the rows, what holds of all rows, and the distinct keys.
  pub sum_by-order_by : (f : A → ℕ) → sum_by f (order_by r xs) ≡ sum_by f xs
  sum_by-order_by f = ∥∥₁_elim (o.order_by-perm A r xs) (hlevel) (sum_by-Permᴰ f)

  pub count_where-order_by : (p : A → Bool) → count_where p (order_by r xs) ≡ count_where p xs
  count_where-order_by p =
      count-eq-sum p (order_by r xs)
      ∙ sum_by-order_by (λ x. if p x then 1 else 0)
      ∙ sym (count-eq-sum p xs)

  pub any_where-order_by : (p : A → Bool) → any_where p (order_by r xs) ≡ any_where p xs
  any_where-order_by p = ∥∥₁_elim (o.order_by-perm A r xs) (hlevel) (any_where-Permᴰ p)

  pub All-order_by : (P : A → Type 0) → ((x : A) → IsProp (P x)) → All P xs → All P (order_by r xs)
  All-order_by P prop h =
      ∥∥₁_elim (Perm.symm (o.order_by-perm A r xs)) (All-prop P prop _) (λ p. All-Permᴰ P p h)

  -- What holds of all sorted rows holds of the rows.
  pub All-of_order_by :
      (P : A → Type 0) → ((x : A) → IsProp (P x)) → All P (order_by r xs) → All P xs
  All-of_order_by P prop h =
      ∥∥₁_elim (o.order_by-perm A r xs) (All-prop P prop _) (λ p. All-Permᴰ P p h)

  pub HasDistinct-order_by : (key : A → ℕ) → HasDistinct key xs → HasDistinct key (order_by r xs)
  HasDistinct-order_by key h =
      ∥∥₁_elim (Perm.symm (o.order_by-perm A r xs)) (HasDistinct-prop key _)
        (λ p. HasDistinct-Permᴰ key p h)

module _ ⦃o : OrderBy⦄ {A : Type 0} (key : A → ℕ) (r : A → A → Bool) (p : A → Bool) where
  All-both : (P Q : A → Type 0) (xs : List A) → All P xs → All Q xs → All (λ x. P x × Q x) xs
  All-both P Q [] h k = tt
  All-both P Q (x ∷ xs) h k = ((h.0, k.0), All-both P Q xs h.1 k.1)

  -- The first row of a sorted query is a row of the table that meets the `where` clause.
  pub first_of_query :
      (set : IsSet A) (rows : List A) {x : A}
      → HasDistinct key rows
      → head? (order_by r (find_many p rows)) ≡ some x
      → (find_by key (key x) rows ≡ some x) × (p x ≡ true)
  first_of_query set rows {x = x} d h = go (order_by r (find_many p rows)) all h
    where
      all :
          All
            (λ x. (find_by key (key x) rows ≡ some x) × (p x ≡ true))
            (order_by r (find_many p rows))
      all =
          All-order_by r (find_many p rows)
            (λ x. (find_by key (key x) rows ≡ some x) × (p x ≡ true)) (λ x. hlevel set)
            (All-both (λ x. find_by key (key x) rows ≡ some x) (λ x. p x ≡ true) (find_many p rows)
              (All-find_many (λ x. find_by key (key x) rows ≡ some x) p rows
                (find_by_rows key rows d))
              (find_many_sound p rows))

      go :
          (xs : List A)
          → All (λ x. (find_by key (key x) rows ≡ some x) × (p x ≡ true)) xs
          → head? xs ≡ some x
          → (find_by key (key x) rows ≡ some x) × (p x ≡ true)
      go [] a h = cc
      go (y ∷ ys) a h =
          subst (λ z. (find_by key (key z) rows ≡ some z) × (p z ≡ true)) (some-injective _ _ h) a.0

  -- A query whose first row is missing found none.
  pub empty_query :
      (rows : List A) → head? (order_by r (find_many p rows)) ≡ none → All (λ x. p x ≡ false) rows
  empty_query rows h =
      none_of rows
        (go (order_by r (find_many p rows)) h ∙ sum_by-order_by r (find_many p rows) (λ _. 1))
    where
      go : (xs : List A) → head? xs ≡ none → 0 ≡ sum_by (λ _. 1) xs
      go [] h = refl
      go (y ∷ ys) h = cc

      none_of : (xs : List A) → 0 ≡ sum_by (λ _. 1) (find_many p xs) → All (λ x. p x ≡ false) xs
      none_of [] h = tt
      none_of (y ∷ ys) h = elim (Bool-cases (p y)) [
        | inl e ↦
            absurd (let h' : 0 ≡ 1 + sum_by (λ _. 1) (find_many p ys) = ground arith in omega arith)
        | inr e ↦ (e, none_of ys (ground arith))
      ]
