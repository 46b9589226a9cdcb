-- ===== src/Prelude/Updates.antt =====
-- Guarded updates of a table: what `updateMany` under a `where` clause makes of the row with a key,
-- and what it counts.
use mathlib.Core.Bool.{Bool, true, false, false≢true}
use Prim.Native.Nat.{ℕ}
use mathlib.Core.Path.{◌≡◌, refl, sym, subst, ◌∙◌}
use mathlib.Core.Logic.{inl, inr}
use mathlib.Core.List.{List, [], ◌∷◌}
use mathlib.Core.Option.{Option, none, some}
use native.Mathlib.Omega.{arith}
use ssambee_be.Prelude.Tests.{if◌then◌else◌, ◌==◌, ==_iff, Bool-cases}
use ssambee_be.Prelude.Lists.{IsFree, HasDistinct}
use ssambee_be.Prelude.Table.{update_many, find_by, count_where}

-- What an update makes of a row that a query found.
abbrev pub updated_row {ℓ} : {A : Type ℓ} → (A → Bool) → (A → A) → Option A → Option A
updated_row p f none = none
updated_row p f (some x) = some (if p x then f x else x)

-- An update that keeps the keys, under any `where` clause, changes the row that has a key just if
-- that row meets the clause.
pub find_by-update_many {ℓ} :
    {A : Type ℓ} (key : A → ℕ) (p : A → Bool) (f : A → A)
    → ((x : A) → key (f x) ≡ key x)
    → (k : ℕ) (rows : List A)
    → find_by key k (update_many p f rows) ≡ updated_row p f (find_by key k rows)
find_by-update_many key p f same_key k [] = refl
find_by-update_many key p f same_key k (x ∷ rows) =
    ground (arith, same_key x, find_by-update_many key p f same_key k rows)

-- A row that is found and meets the clause is counted.
pub count_where-found {ℓ} :
    {A : Type ℓ} (key : A → ℕ) (p : A → Bool) (k : ℕ) (rows : List A) {x : A}
    → find_by key k rows ≡ some x
    → p x ≡ true
    → (count_where p rows == 0) ≡ false
count_where-found key p k [] h hp = cc
count_where-found key p k (y ∷ rows) {x = z} h hp =
    ground (arith, count_where-found key p k rows {x = z})

module _ {ℓ} {A : Type ℓ} (key : A → ℕ) (p : A → Bool) (k : ℕ) where
  count_where-free :
      ((x : A) → p x ≡ true → key x ≡ k)
      → (rows : List A) → IsFree key k rows
      → count_where p rows ≡ 0
  count_where-free asks [] h = refl
  count_where-free asks (x ∷ rows) h = elim (Bool-cases (p x)) [
    | inl e ↦ absurd (h.0 (asks x e))
    | inr e ↦ rw e (omega (arith, count_where-free asks rows h.1))
  ]

  -- No row is counted, if the clause asks for a key, and the row with that key does not meet it.
  pub count_where-zero :
      ((x : A) → p x ≡ true → key x ≡ k)
      → (rows : List A) → HasDistinct key rows
      → ((x : A) → find_by key k rows ≡ some x → p x ≡ false)
      → count_where p rows ≡ 0
  count_where-zero asks [] d refused = refl
  count_where-zero asks (x ∷ rows) d refused = elim (Bool-cases (key x == k)) [
    | inl here ↦
        let refuses : p x ≡ false = refused x (rw here refl) in
        let free : IsFree key k rows =
          subst (λ j. IsFree key j rows) ((==_iff (key x) k).0 here) d.0 in
        rw refuses (omega (arith, count_where-free asks rows free))
    | inr there ↦
        let refuses : p x ≡ false = other (p x) (λ e. asks x e) there in
        rw refuses (omega (arith, count_where-zero asks rows d.1 (λ y h. refused y (rw there h))))
  ]
    where
      other : (b : Bool) → (b ≡ true → key x ≡ k) → (key x == k) ≡ false → b ≡ false
      other false h e = refl
      other true h e = absurd (false≢true (sym e ∙ (==_iff (key x) k).1 (h refl)))
