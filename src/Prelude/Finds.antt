-- ===== src/Prelude/Finds.antt =====
-- What `findUnique` under a composite key finds after rows are inserted and updated.
use Prim.Native.Nat.{ℕ}
use mathlib.Core.Bool.{Bool, true, false}
use mathlib.Core.Path.{◌≡◌, refl, subst}
use mathlib.Core.Logic.{inl, inr}
use mathlib.Core.List.{List, [], ◌∷◌, ◌++◌}
use mathlib.Core.Option.{none, some, some-injective}
use native.Mathlib.Omega.{arith}
use ssambee_be.Prelude.Tests.{◌==◌, ==_self, ==_iff, Bool-cases}
use ssambee_be.Prelude.Lists.{IsFree, HasDistinct}
use ssambee_be.Prelude.Table.{find_by, find_unique, update_many}

module _ {A : Type 0} (p : A → Bool) where
  pub find_unique-update_self :
      (f : A → A) (rows : List A) {x : A}
      → ((y : A) → p (f y) ≡ p y)
      → find_unique p rows ≡ some x
      → find_unique p (update_many p f rows) ≡ some (f x)
  find_unique-update_self f [] keeps h = cc
  find_unique-update_self f (y ∷ rows) {x = x} keeps h =
      ground (arith, keeps y, find_unique-update_self f rows {x = x} keeps)

  -- Another query, which no row that is updated meets.
  pub find_unique-update_other :
      (q : A → Bool) (f : A → A) (rows : List A)
      → ((y : A) → p y ≡ true → q y ≡ false)
      → ((y : A) → p y ≡ true → q (f y) ≡ false)
      → find_unique q (update_many p f rows) ≡ find_unique q rows
  find_unique-update_other q f [] before after = refl
  find_unique-update_other q f (y ∷ rows) before after =
      ground (arith, before y, after y, find_unique-update_other q f rows before after)

  pub find_unique-append_other :
      (rows : List A) (x : A) → p x ≡ false → find_unique p (rows ++ (x ∷ [])) ≡ find_unique p rows
  find_unique-append_other [] x h = ground arith
  find_unique-append_other (y ∷ rows) x h = ground (arith, find_unique-append_other rows x h)

module _ {A : Type 0} (key : A → ℕ) where
  find_by-free : (k : ℕ) (rows : List A) → IsFree key k rows → find_by key k rows ≡ none
  find_by-free k [] free = refl
  find_by-free k (y ∷ rows) free = ground (arith, find_by-free k rows free.1)

  -- Under distinct keys the row that any query finds is the one found under its key.
  pub find_by-found :
      (p : A → Bool) (rows : List A) {x : A}
      → HasDistinct key rows
      → find_unique p rows ≡ some x
      → find_by key (key x) rows ≡ some x
  find_by-found p [] d h = cc
  find_by-found p (y ∷ rows) {x = x} d h = elim (Bool-cases (p y)) [
    | inl e ↦
        let same : y ≡ x = some-injective y x (rw e at h) in
        subst (λ z. find_by key (key z) (y ∷ rows) ≡ some z) same (rw (==_self (key y)) refl)
    | inr e ↦
        let rest : find_unique p rows ≡ some x = rw e at h in
        let found : find_by key (key x) rows ≡ some x = find_by-found p rows {x = x} d.1 rest in
        elim (Bool-cases (key y == key x)) [
          | inl same ↦
              let none_of : find_by key (key x) rows ≡ none =
                subst (λ k. find_by key k rows ≡ none) ((==_iff (key y) (key x)).0 same)
                  (find_by-free (key y) rows d.0) in
              cc
          | inr other ↦ rw other found
        ]
  ]
