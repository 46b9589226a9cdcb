-- ===== src/Prelude/Table.antt =====
-- A table of the database as the list of its rows, with the queries of the Prisma client that the
-- repositories use: `findMany`, `findUnique`, `updateMany` under a `where` clause.
use Prim.Native.Nat.{ℕ, ◌+◌}
use mathlib.Core.Path.{◌≡◌, refl, sym}
use mathlib.Core.Logic.{◌≢◌, inl, inr}
use mathlib.Core.Bool.{Bool, true, false, ◌||◌}
use mathlib.Core.List.{List, [], ◌∷◌, ◌++◌}
use mathlib.Core.Option.{Option, none, some}
use native.Mathlib.Omega.{arith}
use ssambee_be.Prelude.Tests.{if◌then◌else◌, ◌==◌, Option-cases}
use ssambee_be.Prelude.Lists.{All, All-append, length, sum_by, IsFree, HasDistinct}

module _ {ℓ} {A : Type ℓ} where
  abbrev pub find_many : (A → Bool) → List A → List A
  find_many p [] = []
  find_many p (x ∷ xs) = let rest = find_many p xs in if p x then x ∷ rest else rest

  abbrev pub find_unique : (A → Bool) → List A → Option A
  find_unique p [] = none
  find_unique p (x ∷ xs) = let rest = find_unique p xs in if p x then some x else rest

  abbrev pub update_many : (A → Bool) → (A → A) → List A → List A
  update_many p f [] = []
  update_many p f (x ∷ xs) = (if p x then f x else x) ∷ update_many p f xs

  -- The `count` that `updateMany` returns.
  abbrev pub count_where : (A → Bool) → List A → ℕ
  count_where p [] = 0
  count_where p (x ∷ xs) = (if p x then 1 else 0) + count_where p xs

  abbrev pub any_where : (A → Bool) → List A → Bool
  any_where p [] = false
  any_where p (x ∷ xs) = p x || any_where p xs

  pub All-find_many {κ} :
      (P : A → Type κ) (p : A → Bool) (xs : List A) → All P xs → All P (find_many p xs)
  All-find_many P p [] h = tt
  All-find_many P p (x ∷ xs) h = ground (arith, All-find_many P p xs h.1)

  -- The rows that a query returns meet its `where` clause.
  pub find_many_sound : (p : A → Bool) (xs : List A) → All (λ x. p x ≡ true) (find_many p xs)
  find_many_sound p [] = tt
  find_many_sound p (x ∷ xs) = ground (arith, find_many_sound p xs)

  pub find_unique_sound :
      (p : A → Bool) (xs : List A) {x : A} → find_unique p xs ≡ some x → p x ≡ true
  find_unique_sound p [] h = cc
  find_unique_sound p (x ∷ xs) {x = y} h = ground (arith, find_unique_sound p xs {x = y})

  -- An inserted row that meets the `where` clause is the one found, if none was before.
  pub find_unique-append :
      (p : A → Bool) (xs : List A) (x : A)
      → find_unique p xs ≡ none
      → p x ≡ true
      → find_unique p (xs ++ (x ∷ [])) ≡ some x
  find_unique-append p [] x h hx = ground arith
  find_unique-append p (y ∷ xs) x h hx = ground (arith, find_unique-append p xs x)

  pub length-update_many :
      (p : A → Bool) (f : A → A) (xs : List A) → length (update_many p f xs) ≡ length xs
  length-update_many p f [] = refl
  length-update_many p f (x ∷ xs) = omega (arith, length-update_many p f xs)

module _ {ℓ} {A : Type ℓ} (key : A → ℕ) where
  -- The row that has the key.
  abbrev pub find_by : ℕ → List A → Option A
  find_by k = find_unique (λ x. key x == k)

  -- `upsert` under a unique key.
  abbrev pub upsert_row : A → List A → List A
  upsert_row new rows = elim (find_by (key new) rows) [
    | none ↦ rows ++ (new ∷ [])
    | some _ ↦ update_many (λ x. key x == key new) (λ _. new) rows
  ]

  find_by-append :
      (k : ℕ) (rows : List A) (new : A)
      → find_by k rows ≡ none
      → find_by k (rows ++ (new ∷ [])) ≡ (if key new == k then some new else none)
  find_by-append k [] new h = refl
  find_by-append k (x ∷ rows) new h = ground (arith, find_by-append k rows new)

  pub find_by-append_ne :
      (k : ℕ) (rows : List A) (new : A)
      → (key new == k) ≡ false
      → find_by k (rows ++ (new ∷ [])) ≡ find_by k rows
  find_by-append_ne k [] new h = ground arith
  find_by-append_ne k (x ∷ rows) new h = ground (arith, find_by-append_ne k rows new h)

  -- An inserted row is found under its key if that is new, and hides no other.
  pub find_by-append_self :
      (rows : List A) (new : A)
      → IsFree key (key new) rows
      → find_by (key new) (rows ++ (new ∷ [])) ≡ some new
  find_by-append_self [] new h = ground arith
  find_by-append_self (x ∷ rows) new h = ground (arith, find_by-append_self rows new h.1)

  module _ (j : ℕ) (f : A → A) (same_key : (x : A) → key (f x) ≡ key x) where
    pub find_by-update_self :
        (rows : List A) {x : A}
        → find_by j rows ≡ some x
        → find_by j (update_many (λ y. key y == j) f rows) ≡ some (f x)
    find_by-update_self [] h = cc
    find_by-update_self (y ∷ rows) {x = z} h =
        ground (arith, same_key y, find_by-update_self rows {x = z})

    pub find_by-update_ne :
        (k : ℕ) (rows : List A)
        → k ≢ j
        → find_by k (update_many (λ y. key y == j) f rows) ≡ find_by k rows
    find_by-update_ne k [] h = refl
    find_by-update_ne k (y ∷ rows) h = ground (arith, same_key y, find_by-update_ne k rows h)

    IsFree-update :
        (k : ℕ) (p : A → Bool) (rows : List A)
        → IsFree key k rows
        → IsFree key k (update_many p f rows)
    IsFree-update k p [] h = tt
    IsFree-update k p (y ∷ rows) h = ground (arith, same_key y, IsFree-update k p rows h.1)

    pub HasDistinct-update :
        (rows : List A)
        → HasDistinct key rows
        → HasDistinct key (update_many (λ y. key y == j) f rows)
    HasDistinct-update [] h = tt
    HasDistinct-update (y ∷ rows) h = ground (
      arith,
      same_key y,
      IsFree-update (key y) (λ z. key z == j) rows h.0,
      HasDistinct-update rows h.1,
    )

  pub update_free :
      (j : ℕ) (f : A → A) (rows : List A)
      → IsFree key j rows
      → update_many (λ y. key y == j) f rows ≡ rows
  update_free j f [] h = refl
  update_free j f (y ∷ rows) h = ground (arith, update_free j f rows h.1)

  -- An update of the row with a given key changes a sum over the table by what it does to that row.
  pub sum_by-update :
      (j : ℕ) (f : A → A) (g : A → ℕ) (rows : List A) {x : A}
      → HasDistinct key rows
      → find_by j rows ≡ some x
      → sum_by g (update_many (λ y. key y == j) f rows) + g x ≡ sum_by g rows + g (f x)
  sum_by-update j f g [] d h = cc
  sum_by-update j f g (y ∷ rows) {x = z} d h =
      ground (arith, update_free j f rows, sum_by-update j f g rows {x = z} d.1)

  find_by-IsFree : (k : ℕ) (rows : List A) → find_by k rows ≡ none → IsFree key k rows
  find_by-IsFree k [] h = tt
  find_by-IsFree k (y ∷ rows) h = ground (arith, find_by-IsFree k rows)

  -- In a table with distinct keys every row is the one found under its key.
  pub find_by_rows :
      (rows : List A) → HasDistinct key rows → All (λ x. find_by (key x) rows ≡ some x) rows
  find_by_rows [] d = tt
  find_by_rows (y ∷ rows) d = (ground arith, step rows d.0 (find_by_rows rows d.1))
    where
      step :
          (xs : List A)
          → IsFree key (key y) xs
          → All (λ x. find_by (key x) rows ≡ some x) xs
          → All (λ x. find_by (key x) (y ∷ rows) ≡ some x) xs
      step [] free h = tt
      step (x ∷ xs) free h = (ground arith, step xs free.1 h.1)

  find_by-overwrite_ne :
      (k : ℕ) (new : A) (rows : List A)
      → (key new == k) ≡ false
      → find_by k (update_many (λ x. key x == key new) (λ _. new) rows) ≡ find_by k rows
  find_by-overwrite_ne k new [] h = refl
  find_by-overwrite_ne k new (y ∷ rows) h = ground (arith, find_by-overwrite_ne k new rows h)

  find_by-overwrite :
      (k : ℕ) (new : A) (rows : List A) {x : A}
      → find_by (key new) rows ≡ some x
      → find_by k (update_many (λ x. key x == key new) (λ _. new) rows)
        ≡ (if key new == k then some new else find_by k rows)
  find_by-overwrite k new [] h = cc
  find_by-overwrite k new (y ∷ rows) {x = z} h =
      ground (arith, find_by-overwrite_ne k new rows, find_by-overwrite k new rows {x = z})

  -- After an upsert the new row is found under its key, and every other key as before.
  pub find_by-upsert :
      (k : ℕ) (new : A) (rows : List A)
      → find_by k (upsert_row new rows) ≡ (if key new == k then some new else find_by k rows)
  find_by-upsert k new rows = elim (Option-cases (find_by (key new) rows)) [
    | inl e ↦ ground (arith, find_by-append k rows new, find_by-append_ne k rows new)
    | inr (x, e) ↦ rw (e, upsert_row) (find_by-overwrite k new rows {x = x} e)
  ]

  pub HasDistinct-find_many :
      (p : A → Bool) (rows : List A) → HasDistinct key rows → HasDistinct key (find_many p rows)
  HasDistinct-find_many p [] d = tt
  HasDistinct-find_many p (y ∷ rows) d =
      ground
        (arith, All-find_many (λ z. key z ≢ key y) p rows d.0, HasDistinct-find_many p rows d.1)

  pub HasDistinct-append :
      (rows : List A) (new : A)
      → IsFree key (key new) rows
      → HasDistinct key rows
      → HasDistinct key (rows ++ (new ∷ []))
  HasDistinct-append [] new free d = (tt, tt)
  HasDistinct-append (y ∷ rows) new free d = (
    All-append (λ z. key z ≢ key y) rows (new ∷ []) d.0 ((λ e. free.0 (sym e)), tt),
    HasDistinct-append rows new free.1 d.1,
  )

-- A sum over the rows that a query returns.
pub sum_by-find_many {ℓ} :
    {A : Type ℓ} (p : A → Bool) (f : A → ℕ) (rows : List A)
    → sum_by f (find_many p rows) ≡ sum_by (λ x. if p x then f x else 0) rows
sum_by-find_many p f [] = refl
sum_by-find_many p f (x ∷ rows) = ground (arith, sum_by-find_many p f rows)
