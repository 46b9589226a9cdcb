-- ===== src/Billing/Entitlements/Buckets.antt =====
-- The identifiers of the buckets stay distinct while entitlements are settled.
use ssambee_be.Prelude.{
  ℕ, zero, suc, ◌≡◌, ◌<◌, sym, subst, Bool, ◌==◌, update_many, inl, inr, Option, none, some, List,
  [], ◌∷◌, ◌++◌, arith, All, All-append, All-map, HasDistinct, HasDistinct-append, IsFree,
}
use ssambee_be.Prelude.Action.{record_not_found, Result, ok, err, Ensures, Returns, pure, ◌>>=◌}
use ssambee_be.Prelude.OrderBy.{OrderBy}
use ssambee_be.Billing.Database.{Entitlement, CreditBucket, World, Billing}
use ssambee_be.Billing.Repo.{
  set_entitlements, update_entitlement, list_entitlements_to_expire, find_active_entitlement,
  find_ready_queued_entitlement, is_included_bucket_of,
}
use ssambee_be.Billing.Credits.{grant_included_credits_for_entitlement}
use ssambee_be.Billing.Credits.Grants.{Grants, grant_included-Grants}
use ssambee_be.Billing.Credits.Consume.{bucket_id}
use mathlib.Core.Path.{ap₂}
use ssambee_be.Billing.Entitlements.Fates.{expired_at_time, activated_at_time}
use ssambee_be.Billing.Entitlements.{
  expire_entitlement, activate_entitlement, settle_entitlements, settle_overdue, settle_current,
  activate_ready,
}

-- The identifiers of the buckets are distinct, and the next one is new.
abbrev pub HasKeys : World → Type 0
HasKeys w =
    HasDistinct bucket_id w.db.credit_buckets × All (λ b. b.id < w.db.next_id) w.db.credit_buckets

below-IsFree : (n : ℕ) (bs : List CreditBucket) → All (λ b. b.id < n) bs → IsFree bucket_id n bs
below-IsFree n [] h = tt
below-IsFree n (b ∷ bs) h = ((λ e. omega (arith, h.0, e)), below-IsFree n bs h.1)

HasKeys-append :
    (bs : List CreditBucket) (b : CreditBucket) (n : ℕ)
    → b.id ≡ n
    → HasDistinct bucket_id bs × All (λ c. c.id < n) bs
    → HasDistinct bucket_id (bs ++ (b ∷ [])) × All (λ c. c.id < suc n) (bs ++ (b ∷ []))
HasKeys-append bs b n e (d, h) = (
  HasDistinct-append bucket_id bs b
      (subst (λ k. IsFree bucket_id k bs) (sym e) (below-IsFree n bs h)) d,
  All-append (λ c. c.id < suc n) bs (b ∷ []) (All-map (λ c lt. omega (arith, lt)) bs h)
      (omega (arith, e), tt),
)

module _ {A B : Type 0} where
  HasKeys-bind :
      (m : Billing A) (f : A → Billing B) (w : World)
      → Ensures (λ _ w'. HasKeys w') (m w)
      → ((a : A) (w' : World) → HasKeys w' → Ensures (λ _ w''. HasKeys w'') (f a w'))
      → Ensures (λ _ w'. HasKeys w') ((m >>= f) w)
  HasKeys-bind m f w h k = go (m w) h
    where
      go :
          (r : Result A × World)
          → Ensures (λ _ w'. HasKeys w') r
          → Ensures {A = B}
              (λ _ w'. HasKeys w')
              (elim r.0 [ ok a ↦ f a r.1 | err e ↦ (err e, r.1) ])
      go (ok a, w') h = k a w' h
      go (err e, w') h = tt

returned :
    {A : Type 0} (P : A → World → Type 0) (r : Result A × World)
    → ((a : A) (w' : World) → P a w' → HasKeys w')
    → Returns P r
    → Ensures (λ _ w'. HasKeys w') r
returned P (ok a, w') f h = f a w' h
returned P (err e, w') f h = tt

update_entitlement-HasKeys :
    (id : ℕ) (change : Entitlement → Entitlement) (w : World)
    → HasKeys w
    → Ensures (λ _ w'. HasKeys w') (update_entitlement id change w)
unfolding update_entitlement
update_entitlement-HasKeys id change w h = go _
  where
    go :
        (o : Option Entitlement)
        → Ensures {A = Entitlement}
            (λ _ w'. HasKeys w')
            (elim o [
              | none ↦ (err record_not_found, w)
              | some e ↦ (
                ok (change e),
                set_entitlements (update_many (λ f. f.id == id) change w.db.entitlements) w,
              )
            ])
    go none = tt
    go (some e) = h

module _ ⦃o : OrderBy⦄ where
  granted-HasKeys :
      (key : CreditBucket → Bool) (n : ℕ) (w : World) (b : CreditBucket) (w' : World)
      → HasKeys w
      → Grants key n w b w'
      → HasKeys w'
  granted-HasKeys key n w b w' h (inl (old, same)) = subst HasKeys (sym same) h
  granted-HasKeys key n w b w' h (inr (none_yet, g)) =
      let keys = HasKeys-append w.db.credit_buckets b w.db.next_id g.fresh h in
      subst (λ (d : List CreditBucket × ℕ). HasDistinct bucket_id d.0 × All (λ c. c.id < d.1) d.0)
        (sym (ap₂ (λ x y. (x, y)) g.inserted g.next)) keys

  activate-HasKeys :
      (e : Entitlement) (now : ℕ) (w : World)
      → HasKeys w
      → Ensures (λ _ w'. HasKeys w') (activate_entitlement e now w)
  unfolding activate_entitlement
  activate-HasKeys e now w h =
      HasKeys-bind (update_entitlement e.id (activated_at_time now)) granting w
        (update_entitlement-HasKeys e.id (activated_at_time now) w h)
        λ a w₁ h₁.
          HasKeys-bind (grant_included_credits_for_entitlement a) (λ _. pure a) w₁
            (returned _ (grant_included_credits_for_entitlement a w₁)
              (λ b w₂ g.
                granted-HasKeys (is_included_bucket_of a.id) a.included_credit_amount w₁ b w₂ h₁ g)
              (grant_included-Grants a w₁))
            (λ _ w₂ h₂. h₂)
    where
      granting : Entitlement → Billing Entitlement
      granting a = grant_included_credits_for_entitlement a >>= λ _. pure a

  module _ (i now : ℕ) where
    pub settle-HasKeys :
        (guard : ℕ) (w : World)
        → HasKeys w
        → Ensures (λ _ w'. HasKeys w') (settle_entitlements guard i now w)
    unfolding settle_entitlements settle_overdue settle_current activate_ready
        list_entitlements_to_expire find_active_entitlement find_ready_queued_entitlement
        expire_entitlement
    settle-HasKeys zero w h = h
    settle-HasKeys (suc guard) w h = overdue (settle-HasKeys guard) _
      where
        rest : Billing (Unit {0})
        rest = settle_entitlements guard i now

        Step : Type 0
        Step = (w : World) → HasKeys w → Ensures (λ _ w'. HasKeys w') (rest w)

        ready :
            Step
            → (o : Option Entitlement) → Ensures (λ _ w'. HasKeys w') (activate_ready now o rest w)
        ready rec none = h
        ready rec (some e) =
            HasKeys-bind (activate_entitlement e now) (λ _. rest) w (activate-HasKeys e now w h)
              (λ _ w' h'. rec w' h')

        current :
            Step
            → (o : Option Entitlement)
            → Ensures (λ _ w'. HasKeys w') (settle_current i now o rest w)
        current rec none = ready rec _
        current rec (some e) = h

        overdue :
            Step
            → (o : Option Entitlement)
            → Ensures (λ _ w'. HasKeys w') (settle_overdue i now o rest w)
        overdue rec none = current rec _
        overdue rec (some e) =
            HasKeys-bind (expire_entitlement e now) (λ _. rest) w
              (update_entitlement-HasKeys e.id (expired_at_time now) w h) (λ _ w' h'. rec w' h')
