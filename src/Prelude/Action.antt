-- ===== src/Prelude/Action.antt =====
-- An `async` method: it changes a state, and returns or throws. The exceptions are those of
-- src/err/http.exception.ts and the error codes of the Prisma client that the services test.
use Prim.Native.String.{String}
use mathlib.Core.Path.{◌≡◌, ap, sym, subst}
use mathlib.Core.Bool.{Bool, true, false}
use mathlib.Core.List.{List, [], ◌∷◌}
use mathlib.Core.Option.{Option, none, some}

pub data Exception : Type 0 where
  bad_request unauthorized forbidden not_found conflict internal : String → Exception
  serialization_conflict unique_violation record_not_found : Exception

pub data Result (A : Type 0) : Type 0 where
  ok : A → Result A
  err : Exception → Result A

-- What was written before a throw stays written, unless a transaction takes it back.
abbrev pub Action : Type 0 → Type 0 → Type 0
Action S A = S → Result A × S

module _ {S A : Type 0} where
  abbrev pub pure : A → Action S A
  pure a s = (ok a, s)

  abbrev pub throw : Exception → Action S A
  throw e s = (err e, s)

  abbrev pub gets : (S → A) → Action S A
  gets f s = (ok (f s), s)

  abbrev pub or_throw : Option A → Exception → Action S A
  or_throw none e = throw e
  or_throw (some a) e = pure a

abbrev pub modify : {S : Type 0} → (S → S) → Action S (Unit {0})
modify f s = (ok tt, f s)

abbrev pub throw_if : {S : Type 0} → Bool → Exception → Action S (Unit {0})
throw_if true e = throw e
throw_if false e = pure tt

infixl 5 ◌>>=◌ ◌>>◌
abbrev pub ◌>>=◌ : {S A B : Type 0} → Action S A → (A → Action S B) → Action S B
◌>>=◌ m f s = let (r, s') = m s in elim r [ ok a ↦ f a s' | err e ↦ throw e s' ]

abbrev pub ◌>>◌ : {S A B : Type 0} → Action S A → Action S B → Action S B
m >> k = m >>= λ _. k

-- `for (const x of xs) await body(x)`
abbrev pub for_each : {S A : Type 0} → (A → Action S (Unit {0})) → List A → Action S (Unit {0})
for_each body [] s = (ok tt, s)
for_each body (x ∷ xs) s =
    let (r, s') = body x s in elim r [ ok _ ↦ for_each body xs s' | err e ↦ (err e, s') ]

-- What holds of the result and the state, if the call returns.
abbrev pub Ensures : {S A : Type 0} → (A → S → Type 0) → Result A × S → Type 0
Ensures P (ok a, s) = P a s
Ensures P (err e, s) = Unit

-- The call returns, and what holds of its result and the state then.
abbrev pub Returns : {S A : Type 0} → (A → S → Type 0) → Result A × S → Type 0
Returns P (ok a, s) = P a s
Returns P (err e, s) = ⊥

-- A call whose first part is known to return goes on with the second part.
pub Returns-step :
    {S A B : Type 0} (Q : B → S → Type 0) (m : Action S A) (f : A → Action S B) (s : S) {a : A}
    {s' : S}
    → m s ≡ (ok a, s')
    → Returns Q (f a s')
    → Returns Q ((m >>= f) s)
Returns-step Q m f s e h =
    subst (λ r. Returns Q (elim r.0 [ ok a ↦ f a r.1 | err e ↦ (err e, r.1) ])) (sym e) h

-- A call whose first part is known: it goes on with the second part, or throws.
pub bind_ok :
    {S A B : Type 0} (m : Action S A) (f : A → Action S B) (s : S) {a : A} {s' : S}
    → m s ≡ (ok a, s')
    → (m >>= f) s ≡ f a s'
bind_ok {S} {A} {B} m f s e =
    ap {A = Result A × S} {B = Result B × S}
      (λ r. elim r.0 [ ok a ↦ f a r.1 | err e ↦ (err e, r.1) ]) e

pub bind_err :
    {S A B : Type 0} (m : Action S A) (f : A → Action S B) (s : S) {x : Exception} {s' : S}
    → m s ≡ (err x, s')
    → (m >>= f) s ≡ (err x, s')
bind_err {S} {A} {B} m f s e =
    ap {A = Result A × S} {B = Result B × S}
      (λ r. elim r.0 [ ok a ↦ f a r.1 | err e ↦ (err e, r.1) ]) e

pub Returns-bind :
    {S A B : Type 0} (P : A → S → Type 0) (Q : B → S → Type 0) (m : Action S A) (f : A → Action S B)
    (s : S)
    → Returns P (m s)
    → ((a : A) (s' : S) → P a s' → Returns Q (f a s'))
    → Returns Q ((m >>= f) s)
Returns-bind {S} {A} {B} P Q m f s h k = go (m s) h
  where
    go :
        (r : Result A × S)
        → Returns P r
        → Returns Q (elim r.0 [ ok a ↦ f a r.1 | err e ↦ (err e, r.1) ])
    go (ok a, s') h = k a s' h
    go (err e, s') h = absurd h

pub Returns-map :
    {S A : Type 0} (P Q : A → S → Type 0) (r : Result A × S)
    → ((a : A) (s' : S) → P a s' → Q a s')
    → Returns P r
    → Returns Q r
Returns-map P Q (ok a, s') f h = f a s' h
Returns-map P Q (err e, s') f h = absurd h

pub for_each-Returns :
    {S A : Type 0} (P : S → Type 0) (body : A → Action S (Unit {0})) (x : A) (xs : List A) (s : S)
    → Returns (λ _ s'. Returns (λ _ t. P t) (for_each body xs s')) (body x s)
    → Returns (λ _ t. P t) (for_each body (x ∷ xs) s)
for_each-Returns {S} P body x xs s h = go (body x s) h
  where
    go :
        (r : Result (Unit {0}) × S)
        → Returns (λ _ s'. Returns (λ _ t. P t) (for_each body xs s')) r
        → Returns {A = Unit {0}}
            (λ _ t. P t)
            (elim r.0 [ ok _ ↦ for_each body xs r.1 | err e ↦ (err e, r.1) ])
    go (ok _, s') h = h
    go (err e, s') h = absurd h
