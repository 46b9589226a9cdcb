-- ===== src/Billing/Refunds/Balance.antt =====
-- The ledger of the credits against the buckets, and the calls that keep the balance.
use ssambee_be.Prelude.{
  ℕ, ◌+◌, ◌≡◌, Bool, true, false, Option, none, some, List, [], ◌∷◌, if◌then◌else◌, HasDistinct,
  sum_by,
}
use ssambee_be.Prelude.Int.{int_laws, ◌+ℤ◌, negate, pos, total_by}
use ssambee_be.Prelude.Action.{
  Result, ok, err, Exception, Returns, or_throw, throw_if, for_each, ◌>>=◌,
}
use ssambee_be.Billing.Database.{World, Billing}
use ssambee_be.Billing.Transactions.{transaction}
use ssambee_be.Billing.Credits.Wallet.{remaining}
use ssambee_be.Billing.Credits.Consume.{bucket_id, delta}

-- The entries of the ledger sum to the credits that the buckets have left.
abbrev pub IsBalanced : World → Type 0
IsBalanced w =
    HasDistinct bucket_id w.db.credit_buckets
    × (total_by delta w.db.ledgers ≡ pos (sum_by remaining w.db.credit_buckets))

abbrev pub Balances : {A : Type 0} → Result A × World → Type 0
Balances r = IsBalanced r.1

-- A call keeps the balance, whether it returns or throws.
abbrev pub Keeps : {A : Type 0} → Billing A → Type 0
Keeps m = (w : World) → IsBalanced w → Balances (m w)

pub Balances-bind :
    {A B : Type 0} (m : Billing A) (f : A → Billing B) (w : World)
    → Balances (m w)
    → ((a : A) → Keeps (f a))
    → Balances ((m >>= f) w)
Balances-bind {A} {B} m f w h k = go (m w) h
  where
    go :
        (r : Result A × World)
        → IsBalanced r.1
        → Balances {A = B} (elim r.0 [ ok a ↦ f a r.1 | err e ↦ (err e, r.1) ])
    go (ok a, w') b = k a w' b
    go (err e, w') b = b

pub Keeps-bind :
    {A B : Type 0} (m : Billing A) (f : A → Billing B)
    → Keeps m
    → ((a : A) → Keeps (f a))
    → Keeps (m >>= f)
Keeps-bind m f h k w balanced = Balances-bind m f w (h w balanced) k

pub Keeps-if :
    {A : Type 0} (b : Bool) (m n : Billing A) → Keeps m → Keeps n → Keeps (if b then m else n)
Keeps-if true m n hm hn = hm
Keeps-if false m n hm hn = hn

pub Keeps-for_each :
    {A : Type 0} (body : A → Billing (Unit {0})) (xs : List A)
    → ((x : A) → Keeps (body x))
    → Keeps (for_each body xs)
Keeps-for_each body [] h w b = b
Keeps-for_each {A} body (x ∷ xs) h w b = go (Keeps-for_each body xs h) (body x w) (h x w b)
  where
    go :
        Keeps (for_each body xs)
        → (r : Result (Unit {0}) × World) → IsBalanced r.1
        → Balances {A = Unit {0}} (elim r.0 [ ok _ ↦ for_each body xs r.1 | err e ↦ (err e, r.1) ])
    go rest (ok _, w') b = rest w' b
    go rest (err e, w') b = b

pub Keeps-throw_if : (b : Bool) (e : Exception) → Keeps (throw_if {S = World} b e)
Keeps-throw_if true e w h = h
Keeps-throw_if false e w h = h

pub Keeps-or_throw : {A : Type 0} (o : Option A) (e : Exception) → Keeps (or_throw {S = World} o e)
Keeps-or_throw none e w h = h
Keeps-or_throw (some a) e w h = h

pub Keeps-transaction : {A : Type 0} (m : Billing A) → Keeps m → Keeps (transaction m)
Keeps-transaction {A} m h w b = go (m w) (h w b)
  where
    go :
        (r : Result A × World)
        → IsBalanced r.1
        → Balances {A = A}
            (elim r.0 [ ok a ↦ (ok a, r.1) | err e ↦ (err e, record (r.1) { db = w.db }) ])
    go (ok a, w') h = h
    go (err e, w') h = b

pub after :
    {A : Type 0} (P : A → World → Type 0) (r : Result A × World)
    → ((a : A) (w : World) → P a w → IsBalanced w)
    → Returns P r
    → IsBalanced r.1
after P (ok a, w) f h = f a w h
after P (err e, w) f h = absurd h

-- Credits that are taken, as the ledger says.
pub pos_minus : (s s' n : ℕ) → s' + n ≡ s → pos s +ℤ negate n ≡ pos s'
pos_minus s s' n h = omega int_laws
