-- ===== src/Prelude/Views.antt =====
-- What a query finds after rows are inserted, updated and deleted, and `deleteMany`.
use Prim.Native.Nat.{ℕ}
use mathlib.Core.Bool.{Bool, true, false, not, ◌&&◌}
use mathlib.Core.Path.{◌≡◌, refl, ap}
use mathlib.Core.List.{List, [], ◌∷◌, ◌++◌, map}
use mathlib.Core.Option.{some}
use native.Mathlib.Omega.{arith}
use ssambee_be.Prelude.Tests.{is_some, if◌then◌else◌, ◌==◌}
use ssambee_be.Prelude.Lists.{head?, All, IsFree, HasDistinct}
use ssambee_be.Prelude.Table.{
  update_free, find_unique_sound, find_many, find_by, update_many, any_where, count_where,
}
use ssambee_be.Prelude.Exists.{includes}

abbrev pub delete_many {ℓ} : {A : Type ℓ} → (A → Bool) → List A → List A
delete_many p = find_many λ x. not (p x)

module _ {A : Type 0} where
  pub find_many-append :
      (p : A → Bool) (xs : List A) (x : A)
      → find_many p (xs ++ (x ∷ [])) ≡ find_many p xs ++ (if p x then x ∷ [] else [])
  find_many-append p [] x = refl
  find_many-append p (y ∷ xs) x = ground (arith, find_many-append p xs x)

  pub find_many-append_ne :
      (p : A → Bool) (xs : List A) (x : A)
      → p x ≡ false
      → find_many p (xs ++ (x ∷ [])) ≡ find_many p xs
  find_many-append_ne p [] x h = ground arith
  find_many-append_ne p (y ∷ xs) x h = ground (arith, find_many-append_ne p xs x h)

  -- The rows of a query that a deletion spares, or that it takes away.
  pub find_many-delete_none :
      (p d : A → Bool) (xs : List A)
      → ((x : A) → p x ≡ true → d x ≡ false)
      → find_many p (delete_many d xs) ≡ find_many p xs
  find_many-delete_none p d [] h = refl
  find_many-delete_none p d (x ∷ xs) h = ground (arith, h x, find_many-delete_none p d xs h)

  pub find_many-delete_all :
      (p d : A → Bool) (xs : List A)
      → ((x : A) → p x ≡ true → d x ≡ true)
      → find_many p (delete_many d xs) ≡ []
  find_many-delete_all p d [] h = refl
  find_many-delete_all p d (x ∷ xs) h = ground (arith, h x, find_many-delete_all p d xs h)

  pub count_where-find_many :
      (p r : A → Bool) (xs : List A)
      → count_where p (find_many r xs) ≡ count_where (λ x. r x && p x) xs
  count_where-find_many p r [] = refl
  count_where-find_many p r (x ∷ xs) = ground (arith, count_where-find_many p r xs)

  pub any_where-find_many :
      (p r : A → Bool) (xs : List A) → any_where p (find_many r xs) ≡ any_where (λ x. r x && p x) xs
  any_where-find_many p r [] = refl
  any_where-find_many p r (x ∷ xs) = ground (arith, any_where-find_many p r xs)

  pub find_many-find_many :
      (p r : A → Bool) (xs : List A) → find_many p (find_many r xs) ≡ find_many (λ x. r x && p x) xs
  find_many-find_many p r [] = refl
  find_many-find_many p r (x ∷ xs) = ground (arith, find_many-find_many p r xs)

  pub any_where-head? :
      (p : A → Bool) (xs : List A) → any_where p xs ≡ is_some (head? (find_many p xs))
  any_where-head? p [] = refl
  any_where-head? p (x ∷ xs) = ground (arith, any_where-head? p xs)

  pub find_many-true : (xs : List A) → find_many (λ _. true) xs ≡ xs
  find_many-true [] = refl
  find_many-true (x ∷ xs) = ap (λ ys. x ∷ ys) (find_many-true xs)

  pub find_many-congr :
      (p q : A → Bool) (xs : List A) → All (λ x. p x ≡ q x) xs → find_many p xs ≡ find_many q xs
  find_many-congr p q [] h = refl
  find_many-congr p q (x ∷ xs) h = ground (arith, find_many-congr p q xs h.1)

module _ {A : Type 0} (key : A → ℕ) where
  pub includes-map :
      (k : ℕ) (xs : List A) → includes k (map key xs) ≡ any_where (λ x. key x == k) xs
  includes-map k [] = refl
  includes-map k (x ∷ xs) = ground (arith, includes-map k xs)

  -- A query that the row with the key meets neither before nor after an update of that row.
  pub find_many-update_ne :
      (p : A → Bool) (j : ℕ) (f : A → A) (rows : List A) {x : A}
      → HasDistinct key rows
      → find_by key j rows ≡ some x
      → p x ≡ false
      → p (f x) ≡ false
      → find_many p (update_many (λ y. key y == j) f rows) ≡ find_many p rows
  find_many-update_ne p j f [] d h px pf = refl
  find_many-update_ne p j f (y ∷ rows) {x = z} d h px pf =
      ground (arith, update_free key j f rows, find_many-update_ne p j f rows {x = z} d.1)

  -- A query that finds the row with the key, and it alone.
  pub find_many-update_self :
      (p : A → Bool) (j : ℕ) (f : A → A) (rows : List A) {x : A}
      → HasDistinct key rows
      → find_by key j rows ≡ some x
      → p x ≡ true
      → p (f x) ≡ true
      → find_many p rows ≡ x ∷ []
      → find_many p (update_many (λ y. key y == j) f rows) ≡ f x ∷ []
  find_many-update_self p j f [] d h px pf one = cc
  find_many-update_self p j f (y ∷ rows) {x = z} d h px pf one = ground (
    arith,
    find_unique_sound (λ x. key x == j) rows {x = z},
    update_free key j f rows,
    find_many-update_self p j f rows {x = z} d.1,
  )

  other_rows :
      (q : A → Bool) (x : A) (rows : List A)
      → IsFree key (key x) rows
      → any_where (λ y. q y && (key y == key x)) rows ≡ false
  other_rows q x [] free = refl
  other_rows q x (y ∷ rows) free = ground (arith, other_rows q x rows free.1)

  -- Under distinct keys, a row's key is one of those of the rows that a query finds just if the
  -- row meets the query.
  pub keys_of_query :
      (q : A → Bool) (rows : List A)
      → HasDistinct key rows
      → All (λ x. any_where (λ y. q y && (key y == key x)) rows ≡ q x) rows
  keys_of_query q [] d = tt
  keys_of_query q (y ∷ rows) d =
      (ground (arith, other_rows q y rows d.0), step rows d.0 (keys_of_query q rows d.1))
    where
      step :
          (xs : List A)
          → IsFree key (key y) xs
          → All (λ x. any_where (λ y. q y && (key y == key x)) rows ≡ q x) xs
          → All (λ x. any_where (λ y. q y && (key y == key x)) (y ∷ rows) ≡ q x) xs
      step [] free h = tt
      step (x ∷ xs) free h = (ground arith, step xs free.1 h.1)
