-- ===== src/Billing/Credits/Recharges.antt =====
-- The credits of a charged pack are granted once.
use ssambee_be.Prelude.{
  ℕ, suc, ◌*◌, ◌≡◌, refl, ap, sym, subst, ◌∙◌, Option, some, none, [], ◌∷◌, ◌++◌, arith, leb, inl,
  inr, Bool-cases, find_unique, find_unique-append,
}
use ssambee_be.Prelude.Action.{Returns, Returns-step, Returns-bind, Returns-map, ok, ◌>>=◌}
use ssambee_be.Prelude.OrderBy.{OrderBy}
use ssambee_be.Billing.Dates.{DateFns, calculate_credit_expiry_at}
use ssambee_be.Billing.Database.{Db, Payment, PaymentItem, CreditBucket, World, Billing}
use ssambee_be.Billing.Repo.{
  new_date, find_recharge_credit_bucket_by_payment_item_id, is_recharge_bucket_of, insert_bucket,
  upsert_recharge_credit_bucket,
}
use ssambee_be.Billing.Credits.{
  or_now, append_credit_ledger, refresh_credit_wallet, create_recharge_bucket, new_recharge_bucket,
  grant_recharge_credits, upsert_recharge_bucket, record_recharge_grant, keep_or_create_recharge,
  get_recharge_credit_expiry_days,
}
use ssambee_be.Billing.Credits.Grants.{IsGranted, Grants, Grants-found, or_now_db, replaced}

upsert_recharge_new :
    (id : ℕ) (row : ℕ → CreditBucket) (w : World)
    → find_unique (is_recharge_bucket_of id) w.db.credit_buckets ≡ none
    → upsert_recharge_credit_bucket id row w
      ≡ (ok (row w.db.next_id), insert_bucket (row w.db.next_id) w)
unfolding upsert_recharge_credit_bucket
upsert_recharge_new id row w h = ground arith

module _ ⦃o : OrderBy⦄ ⦃d : DateFns⦄ where
  upsert_recharge-IsGranted :
      (p : Payment) (i : PaymentItem) (t t' : ℕ) (w w₁ : World)
      → w₁.db ≡ w.db
      → find_unique (is_recharge_bucket_of i.id) w.db.credit_buckets ≡ none
      → Returns
          (λ r w'.
            (b : CreditBucket) × (r ≡ some b)
            × IsGranted
                (is_recharge_bucket_of i.id)
                (i.recharge_credit_amount_snapshot * i.quantity)
                w
                b
                w')
          (upsert_recharge_bucket p i t t' w₁)
  unfolding upsert_recharge_bucket append_credit_ledger refresh_credit_wallet new_date
  upsert_recharge-IsGranted p i t t' w w₁ same h =
      let key = is_recharge_bucket_of i.id in
      let none_yet : find_unique key w₁.db.credit_buckets ≡ none =
        ap (λ d. find_unique key d.credit_buckets) same ∙ h in
      let row =
        new_recharge_bucket p i t
          (calculate_credit_expiry_at t' (get_recharge_credit_expiry_days i)) in
      Returns-step _ (upsert_recharge_credit_bucket i.id row) (record_recharge_grant p i) w₁
        (upsert_recharge_new i.id row w₁ none_yet)
        (
          row w₁.db.next_id,
          refl,
          record {
            found =
                find_unique-append key w₁.db.credit_buckets (row w₁.db.next_id) none_yet
                  (ground arith);
            inserted = ap (λ d. d.credit_buckets ++ (row w₁.db.next_id ∷ [])) same;
            fresh = ap (λ (d : Db). d.next_id) same;
            next = ap (λ (d : Db). suc d.next_id) same;
            full = refl;
            amount = refl;
            kept = replaced _ _ _ _ same;
          },
        )

  create_recharge-IsGranted :
      (p : Payment) (i : PaymentItem) (w : World)
      → find_unique (is_recharge_bucket_of i.id) w.db.credit_buckets ≡ none
      → Returns
          (λ r w'.
            (b : CreditBucket) × (r ≡ some b)
            × IsGranted
                (is_recharge_bucket_of i.id)
                (i.recharge_credit_amount_snapshot * i.quantity)
                w
                b
                w')
          (create_recharge_bucket p i w)
  unfolding create_recharge_bucket
  create_recharge-IsGranted p i w h =
      Returns-bind (λ _ w'. w'.db ≡ w.db) _ (or_now p.approved_at) (stamp p i) w
        (or_now_db p.approved_at w)
        λ t w₁ same.
          Returns-bind (λ _ w'. w'.db ≡ w₁.db) _ (or_now p.approved_at)
            (upsert_recharge_bucket p i t) w₁ (or_now_db p.approved_at w₁)
            λ t' w₂ same'. upsert_recharge-IsGranted p i t t' w w₂ (same' ∙ same) h
    where
      stamp : Payment → PaymentItem → ℕ → Billing (Option CreditBucket)
      stamp p i t = or_now p.approved_at >>= upsert_recharge_bucket p i t

  -- What granting the credits of a pack has done, when it returned `r`: there was a bucket; or the
  -- pack has no credits; or it made a bucket that holds the credits of the pack times the quantity.
  abbrev pub RechargeGrants : PaymentItem → World → Option CreditBucket → World → Type 0
  RechargeGrants i w none w' =
      (i.recharge_credit_amount_snapshot * i.quantity ≡ 0)
      × (find_unique (is_recharge_bucket_of i.id) w.db.credit_buckets ≡ none)
      × (w' ≡ w)
  RechargeGrants i w (some b) w' =
      Grants (is_recharge_bucket_of i.id) (i.recharge_credit_amount_snapshot * i.quantity) w b w'

  keep_recharge-RechargeGrants :
      (p : Payment) (i : PaymentItem) (w : World) (existing : Option CreditBucket)
      → find_unique (is_recharge_bucket_of i.id) w.db.credit_buckets ≡ existing
      → Returns (RechargeGrants i w) (keep_or_create_recharge p i existing w)
  unfolding keep_or_create_recharge
  keep_recharge-RechargeGrants p i w (some b) h = inl (h, refl)
  keep_recharge-RechargeGrants p i w none h =
      let n = i.recharge_credit_amount_snapshot * i.quantity in
      elim (Bool-cases (leb n 0)) [
        | inl nothing ↦ rw nothing (ground (arith), h, refl)
        | inr credits ↦ rw credits (
            Returns-map _ _ (create_recharge_bucket p i w)
              (λ r w' g. subst (λ r. RechargeGrants i w r w') (sym g.1) (inr (h, g.2)))
              (create_recharge-IsGranted p i w h))
      ]

  pub grant_recharge-RechargeGrants :
      (p : Payment) (i : PaymentItem) (w : World)
      → Returns (RechargeGrants i w) (grant_recharge_credits p i w)
  unfolding grant_recharge_credits find_recharge_credit_bucket_by_payment_item_id
  grant_recharge-RechargeGrants p i w = keep_recharge-RechargeGrants p i w _ refl

  again :
      (p : Payment) (i : PaymentItem) (w : World) (r : Option CreditBucket) (w' : World)
      → RechargeGrants i w r w'
      → keep_or_create_recharge p i
          (find_unique (is_recharge_bucket_of i.id) w'.db.credit_buckets)
          w'
        ≡ (ok r, w')
  unfolding keep_or_create_recharge
  again p i w none w' (nothing, fresh, same) =
      let fresh' : find_unique (is_recharge_bucket_of i.id) w'.db.credit_buckets ≡ none =
        ap (λ (v : World). find_unique (is_recharge_bucket_of i.id) v.db.credit_buckets) same
        ∙ fresh in
      rw (fresh', nothing)
  again p i w (some b) w' g =
      ap (λ o. keep_or_create_recharge p i o w')
        (Grants-found (is_recharge_bucket_of i.id) (i.recharge_credit_amount_snapshot * i.quantity)
          w b w' g)

  -- Granting the credits of a pack a second time changes nothing, and has the same result.
  pub grant_recharge_once :
      (p : Payment) (i : PaymentItem) (w : World)
      → Returns (λ r w'. grant_recharge_credits p i w' ≡ (ok r, w')) (grant_recharge_credits p i w)
  unfolding grant_recharge_credits find_recharge_credit_bucket_by_payment_item_id
  grant_recharge_once p i w =
      Returns-map _ _ (grant_recharge_credits p i w) (again p i w)
        (grant_recharge-RechargeGrants p i w)
