-- ===== src/Billing/Books.antt =====
-- Which calls leave the payments and their histories alone: the tables that are the books of the
-- payments of src/services/billing.service.ts.
use ssambee_be.Prelude.{
  ℕ, ◌*◌, ◌≡◌, refl, ap, ◌∙◌, inl, inr, Bool, true, false, Option, some, none, List, [], ◌∷◌,
  if◌then◌else◌,
}
use ssambee_be.Prelude.Action.{pure, for_each, Returns, Returns-bind, Returns-map, ◌>>=◌}
use ssambee_be.Prelude.OrderBy.{OrderBy}
use ssambee_be.Billing.Dates.{DateFns}
use ssambee_be.Billing.Database.{
  Db, Payment, PaymentItem, Entitlement, CreditBucket, World, Billing,
}
use ssambee_be.Billing.Repo.{new_date, is_included_bucket_of, is_recharge_bucket_of}
use ssambee_be.Billing.Credits.{
  refresh_credit_wallet, grant_included_credits_for_entitlement, grant_recharge_credits,
}
use ssambee_be.Billing.Credits.Grants.{Grants, grant_included-Grants}
use ssambee_be.Billing.Credits.Recharges.{RechargeGrants, grant_recharge-RechargeGrants}

-- The tables of the payments.
abbrev pub SameBooks : World → World → Type 0
SameBooks w w' = (w'.db.payments ≡ w.db.payments) × (w'.db.status_histories ≡ w.db.status_histories)

-- A call that returns, and leaves them alone.
abbrev pub Spares : {A : Type 0} → Billing A → Type 0
Spares m = (w : World) → Returns (λ _. SameBooks w) (m w)

pub Spares-bind :
    {A B : Type 0} (m : Billing A) (f : A → Billing B)
    → Spares m
    → ((a : A) → Spares (f a))
    → Spares (m >>= f)
Spares-bind m f h k w =
    Returns-bind (λ _. SameBooks w) (λ _. SameBooks w) m f w (h w)
      λ a w' s.
        Returns-map (λ _. SameBooks w') (λ _. SameBooks w) (f a w')
          (λ b w'' t. (t.0 ∙ s.0, t.1 ∙ s.1)) (k a w')

pub Spares-for_each :
    {A : Type 0} (body : A → Billing (Unit {0})) (xs : List A)
    → ((a : A) → Spares (body a))
    → Spares (for_each body xs)
Spares-for_each body [] h w = (refl, refl)
Spares-for_each body (x ∷ xs) h w =
    Spares-bind (body x) (λ _. for_each body xs) (h x) (λ _. Spares-for_each body xs h) w

pub Spares-if :
    {A : Type 0} (b : Bool) (m n : Billing A) → Spares m → Spares n → Spares (if b then m else n)
Spares-if true m n hm hn = hm
Spares-if false m n hm hn = hn

pub Spares-pure : {A : Type 0} (a : A) → Spares (pure {S = World} a)
Spares-pure a w = (refl, refl)

module _ ⦃o : OrderBy⦄ where
  granted-SameBooks :
      (key : CreditBucket → Bool) (n : ℕ) (w : World) (b : CreditBucket) (w' : World)
      → Grants key n w b w'
      → SameBooks w w'
  granted-SameBooks key n w b w' (inl (old, same)) =
      (ap (λ (v : World). v.db.payments) same, ap (λ (v : World). v.db.status_histories) same)
  granted-SameBooks key n w b w' (inr (fresh, g)) =
      (ap (λ (d : Db). d.payments) g.kept, ap (λ (d : Db). d.status_histories) g.kept)

  pub refresh-Spares : (i : ℕ) → Spares (refresh_credit_wallet i)
  unfolding refresh_credit_wallet new_date
  refresh-Spares i w = (refl, refl)

  pub grant_included-Spares : (e : Entitlement) → Spares (grant_included_credits_for_entitlement e)
  grant_included-Spares e w =
      Returns-map _ (λ _. SameBooks w) (grant_included_credits_for_entitlement e w)
        (granted-SameBooks (is_included_bucket_of e.id) e.included_credit_amount w)
        (grant_included-Grants e w)

  module _ ⦃d : DateFns⦄ where
    recharged-SameBooks :
        (i : PaymentItem) (w : World) (r : Option CreditBucket) (w' : World)
        → RechargeGrants i w r w'
        → SameBooks w w'
    recharged-SameBooks i w none w' (nothing, fresh, same) =
        (ap (λ (v : World). v.db.payments) same, ap (λ (v : World). v.db.status_histories) same)
    recharged-SameBooks i w (some b) w' g =
        granted-SameBooks (is_recharge_bucket_of i.id)
          (i.recharge_credit_amount_snapshot * i.quantity) w b w' g

    pub grant_recharge-Spares :
        (p : Payment) (i : PaymentItem) → Spares (grant_recharge_credits p i)
    grant_recharge-Spares p i w =
        Returns-map _ (λ _. SameBooks w) (grant_recharge_credits p i w) (recharged-SameBooks i w)
          (grant_recharge-RechargeGrants p i w)
