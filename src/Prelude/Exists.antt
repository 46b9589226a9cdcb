-- ===== src/Prelude/Exists.antt =====
-- Which elements a list has, and the queries that ask for one.
use Prim.Native.Nat.{ℕ}
use mathlib.Core.Path.{◌≡◌, refl, sym, ap, subst, ◌∙◌}
use mathlib.Core.Logic.{◌⊎◌, inl, inr}
use mathlib.Core.Bool.{Bool, true, false, false≢true}
use mathlib.Core.Option.{Option, some, some-injective}
use mathlib.Core.List.{List, [], ◌∷◌, map}
use native.Mathlib.Omega.{arith}
use ssambee_be.Prelude.Tests.{◌==◌, if◌then◌else◌, ==_iff, Bool-cases}
use ssambee_be.Prelude.Lists.{All}
use ssambee_be.Prelude.Table.{any_where, find_many}

abbrev pub IsIn : {A : Type 0} → A → List A → Type 0
IsIn x [] = ⊥
IsIn x (y ∷ ys) = (x ≡ y) ⊎ IsIn x ys

-- `includes`, and the `in` of a `where` clause.
abbrev pub includes : ℕ → List ℕ → Bool
includes k = any_where λ j. j == k

module _ {A : Type 0} (p : A → Bool) where
  pub any_where_found : (xs : List A) → any_where p xs ≡ true → (x : A) × IsIn x xs × (p x ≡ true)
  any_where_found [] h = absurd (false≢true h)
  any_where_found (x ∷ xs) h = elim (Bool-cases (p x)) [
    | inl e ↦ (x, inl refl, e)
    | inr e ↦ let (y, i, q) = any_where_found xs (ground arith) in (y, inr i, q)
  ]

  pub any_where-IsIn : (x : A) (xs : List A) → IsIn x xs → p x ≡ true → any_where p xs ≡ true
  any_where-IsIn x [] i h = absurd i
  any_where-IsIn x (y ∷ ys) (inl e) h = rw (ap p (sym e) ∙ h) refl
  any_where-IsIn x (y ∷ ys) (inr i) h = ground (arith, any_where-IsIn x ys i h)

  pub find_many-IsIn : (x : A) (xs : List A) → IsIn x xs → p x ≡ true → IsIn x (find_many p xs)
  find_many-IsIn x [] i h = absurd i
  find_many-IsIn x (y ∷ ys) (inl e) h = rw (ap p (sym e) ∙ h) (inl e)
  find_many-IsIn x (y ∷ ys) (inr i) h = elim (Bool-cases (p y)) [
    | inl e ↦ rw e (inr (find_many-IsIn x ys i h))
    | inr e ↦ rw e (find_many-IsIn x ys i h)
  ]

  pub IsIn-find_many : (x : A) (xs : List A) → IsIn x (find_many p xs) → IsIn x xs × (p x ≡ true)
  IsIn-find_many x [] i = absurd i
  IsIn-find_many x (y ∷ ys) i = go (p y) refl (IsIn-find_many x ys) i
    where
      go :
          (b : Bool)
          → p y ≡ b
          → (IsIn x (find_many p ys) → IsIn x ys × (p x ≡ true))
          → IsIn x (if b then y ∷ find_many p ys else find_many p ys)
          → IsIn x (y ∷ ys) × (p x ≡ true)
      go true e rec (inl q) = (inl q, ap p q ∙ e)
      go true e rec (inr j) = (inr ((rec j).0), (rec j).1)
      go false e rec j = (inr ((rec j).0), (rec j).1)

module _ {A B : Type 0} (f : A → B) where
  pub map-IsIn : (x : A) (xs : List A) → IsIn x xs → IsIn (f x) (map f xs)
  map-IsIn x [] i = absurd i
  map-IsIn x (y ∷ ys) (inl e) = inl (ap f e)
  map-IsIn x (y ∷ ys) (inr i) = inr (map-IsIn x ys i)

  pub IsIn-map : (z : B) (xs : List A) → IsIn z (map f xs) → (x : A) × IsIn x xs × (z ≡ f x)
  IsIn-map z [] i = absurd i
  IsIn-map z (y ∷ ys) (inl e) = (y, inl refl, e)
  IsIn-map z (y ∷ ys) (inr i) = let (x, j, e) = IsIn-map z ys i in (x, inr j, e)

pub includes-IsIn : (k : ℕ) (ks : List ℕ) → IsIn k ks → includes k ks ≡ true
includes-IsIn k ks i = any_where-IsIn (λ j. j == k) k ks i (ground arith)

pub includes_found : (k : ℕ) (ks : List ℕ) → includes k ks ≡ true → IsIn k ks
includes_found k ks h =
    let (j, i, e) = any_where_found (λ j. j == k) ks h in
    subst (λ n. IsIn n ks) ((==_iff j k).0 e) i

-- A `Map` made of pairs keeps the last value of a key.
abbrev pub last_found : {A : Type 0} → (A → Bool) → List A → Option A → Option A
last_found p [] before = before
last_found p (x ∷ xs) before = last_found p xs (if p x then some x else before)

pub last_found_sound :
    {A : Type 0} (p : A → Bool) (xs : List A) (before : Option A) {x : A}
    → last_found p xs before ≡ some x
    → (before ≡ some x) ⊎ (IsIn x xs × (p x ≡ true))
last_found_sound p [] before h = inl h
last_found_sound p (y ∷ ys) before {x = x} h =
    go (p y) refl (last_found_sound p ys (if p y then some y else before) {x = x} h)
  where
    go :
        (b : Bool)
        → p y ≡ b
        → ((if b then some y else before) ≡ some x) ⊎ (IsIn x ys × (p x ≡ true))
        → (before ≡ some x) ⊎ (IsIn x (y ∷ ys) × (p x ≡ true))
    go b e (inr (i, q)) = inr (inr i, q)
    go true e (inl same) =
        let is_y : y ≡ x = some-injective _ _ same in inr (inl (sym is_y), sym (ap p is_y) ∙ e)
    go false e (inl same) = inl same

module _ {A : Type 0} (p : A → Bool) where
  -- A `Map` over keys of which at most one row has each gives that row.
  pub last_found_none :
      (xs : List A) (before : Option A) → any_where p xs ≡ false → last_found p xs before ≡ before
  last_found_none [] before h = refl
  last_found_none (x ∷ xs) before h = ground (arith, last_found_none xs before)

  pub last_found_only :
      (q : A) (xs : List A) (before : Option A)
      → All (λ x. p x ≡ true → x ≡ q) xs
      → (before ≡ some q) ⊎ (any_where p xs ≡ true)
      → last_found p xs before ≡ some q
  last_found_only q [] before all (inl h) = h
  last_found_only q [] before all (inr h) = absurd (false≢true h)
  last_found_only q (x ∷ xs) before all h = elim (Bool-cases (p x)) [
    | inl e ↦ rw e (last_found_only q xs (some x) all.1 (inl (ap some (all.0 e))))
    | inr e ↦ rw e (last_found_only q xs before all.1 (rest h e))
  ]
    where
      rest :
          (before ≡ some q) ⊎ (any_where p (x ∷ xs) ≡ true)
          → p x ≡ false
          → (before ≡ some q) ⊎ (any_where p xs ≡ true)
      rest (inl h) e = inl h
      rest (inr h) e = inr (ground arith)

  pub All-of_find_many :
      (P : A → Type 0) (xs : List A) → All P (find_many p xs) → All (λ x. p x ≡ true → P x) xs
  All-of_find_many P [] h = tt
  All-of_find_many P (x ∷ xs) h = elim (Bool-cases (p x)) [
    | inl e ↦
        let here : All P (x ∷ find_many p xs) = rw e at h in
        (λ _. here.0, All-of_find_many P xs here.1)
    | inr e ↦
        let rest : All P (find_many p xs) = rw e at h in
        (λ t. absurd (false≢true (sym e ∙ t)), All-of_find_many P xs rest)
  ]
