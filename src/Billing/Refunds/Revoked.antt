-- ===== src/Billing/Refunds/Revoked.antt =====
-- What a refund takes back keeps the balance of the ledger: the entitlements with their included
-- credits, and the credits of the packs.
use ssambee_be.Prelude.{
  ℕ, ◌+◌, ◌==◌, ◌≡◌, refl, ap, sym, subst, ◌∙◌, Bool, true, false, not, ◌||◌, Option, none, some,
  List, [], ◌∷◌, String, if◌then◌else◌, leb, ltb, length, get_or, find_unique, update_many, sum_by,
}
use ssambee_be.Prelude.Finds.{find_by-found}
use ssambee_be.Prelude.Int.{◌+ℤ◌, negate}
use ssambee_be.Prelude.Action.{Result, ok, err, record_not_found, pure, for_each, ◌>>=◌, ◌>>◌}
use ssambee_be.Prelude.OrderBy.{OrderBy, order_by}
use ssambee_be.Billing.Constants.{PaymentRefundStatus, is_credit_pack, is_active, is_active_bucket}
use ssambee_be.Billing.Database.{
  Payment, PaymentItem, Entitlement, CreditBucket, Actor, World, Billing,
}
use ssambee_be.Billing.Repo.{
  update_entitlement, update_payment, set_entitlements, set_payments, new_date,
  create_payment_item_revocation_history, find_included_credit_bucket_by_entitlement_id,
  find_recharge_credit_bucket_by_payment_item_id, is_included_bucket_of, is_recharge_bucket_of,
}
use ssambee_be.Billing.Credits.Wallet.{remaining}
use ssambee_be.Billing.Credits.Consume.{bucket_id}
use ssambee_be.Billing.RefundPlan.{
  UpdatePaymentRefundStatusDto, PaymentItemWithRelations, RefundEntitlementTarget, queued_of,
  active_of, target_before, choose_targets,
}
use ssambee_be.Billing.RefundPlan.Choice.{Choice, choose-Choice}
use ssambee_be.Billing.Refunds.{
  Revocation, random_uuid, canceled_entitlement, entitlement_history, claw_back,
  revoke_recharge_bucket, revoke_recharge_item, revoke_recharge_items,
  revoke_recharge_credits_for_refund, revoke_included, revoke_target, revoke_chosen,
  revoke_pass_entitlements_for_refund, completion_time,
}
use ssambee_be.Billing.Refunds.Clawback.{IsClawedBack, claw_back-IsClawedBack}
use ssambee_be.Billing.Refunds.Balance.{
  pos_minus, IsBalanced, Balances, Keeps, Balances-bind, Keeps-bind, Keeps-if, Keeps-for_each,
  after,
}

module _ ⦃o : OrderBy⦄ where
  clawed-IsBalanced :
      (r : Revocation) (item : PaymentItem) (b : CreditBucket) (w w' : World)
      → IsBalanced w
      → IsClawedBack r item b w w'
      → IsBalanced w'
  clawed-IsBalanced r item b w w' balanced c = (
    c.distinct,
    c.recorded
        ∙ ap (λ t. t +ℤ negate b.remaining_amount) balanced.1
        ∙ pos_minus (sum_by remaining w.db.credit_buckets) (sum_by remaining w'.db.credit_buckets)
            b.remaining_amount c.taken,
  )

  -- A bucket that a query has found is taken back.
  claw_back-IsBalanced :
      (r : Revocation) (item : PaymentItem) (p : CreditBucket → Bool) (b : CreditBucket) (w : World)
      → IsBalanced w
      → find_unique p w.db.credit_buckets ≡ some b
      → IsBalanced (claw_back r item b w).1
  claw_back-IsBalanced r item p b w balanced found =
      after (λ _ w'. IsClawedBack r item b w w') (claw_back r item b w)
        (λ _ w' c. clawed-IsBalanced r item b w w' balanced c)
        (claw_back-IsClawedBack r item b w balanced.0
          (find_by-found bucket_id p w.db.credit_buckets balanced.0 found))

  -- What a query of one bucket finds, `on` of it goes on with.
  found-Keeps :
      {A : Type 0} (p : CreditBucket → Bool) (on : Option CreditBucket → Billing A)
      → Keeps (on none)
      → ((b : CreditBucket) (w : World)
          → IsBalanced w
          → find_unique p w.db.credit_buckets ≡ some b
          → Balances (on (some b) w))
      → (w : World) → IsBalanced w
      → Balances (on (find_unique p w.db.credit_buckets) w)
  found-Keeps {A} p on missing present w balanced = go (find_unique p w.db.credit_buckets) refl
    where
      go : (o : Option CreditBucket) → find_unique p w.db.credit_buckets ≡ o → Balances (on o w)
      go none e = missing w balanced
      go (some b) e = present b w balanced e

  recharge_item-Keeps : (r : Revocation) (item : PaymentItem) → Keeps (revoke_recharge_item r item)
  unfolding revoke_recharge_item revoke_recharge_bucket
      find_recharge_credit_bucket_by_payment_item_id
  recharge_item-Keeps r item =
      Keeps-if (is_credit_pack item.product_type_snapshot)
        (find_recharge_credit_bucket_by_payment_item_id item.id >>= revoke_recharge_bucket r item)
        (pure false)
        (found-Keeps (is_recharge_bucket_of item.id) (revoke_recharge_bucket r item) (λ w h. h)
          (λ b w balanced found.
            back b (not (is_active_bucket b.status) || leb b.remaining_amount 0) w balanced found))
        (λ w h. h)
    where
      back :
          (b : CreditBucket) (spared : Bool) (w : World)
          → IsBalanced w
          → find_unique (is_recharge_bucket_of item.id) w.db.credit_buckets ≡ some b
          → Balances
              ((if spared then pure {S = World} false else (claw_back r item b >> pure true)) w)
      back b true w balanced found = balanced
      back b false w balanced found =
          Balances-bind (claw_back r item b) (λ _. pure true) w
            (claw_back-IsBalanced r item (is_recharge_bucket_of item.id) b w balanced found)
            (λ _ w' h. h)

  recharge_items-Keeps :
      (r : Revocation) (items : List PaymentItemWithRelations) (revoked : Bool)
      → Keeps (revoke_recharge_items r items revoked)
  unfolding revoke_recharge_items
  recharge_items-Keeps r [] revoked = λ w h. h
  recharge_items-Keeps r (i ∷ items) revoked =
      Keeps-bind (revoke_recharge_item r i.item)
        (λ again. revoke_recharge_items r items (again || revoked)) (recharge_item-Keeps r i.item)
        (λ again. recharge_items-Keeps r items (again || revoked))

  included-Keeps :
      (r : Revocation) (t : RefundEntitlementTarget)
      → Keeps (
          find_included_credit_bucket_by_entitlement_id t.entitlement.id
          >>= revoke_included r t.payment_item)
  unfolding revoke_included find_included_credit_bucket_by_entitlement_id
  included-Keeps r t =
      found-Keeps (is_included_bucket_of t.entitlement.id) (revoke_included r t.payment_item)
        (λ w h. h)
        (λ b w balanced found.
          claw_back-IsBalanced r t.payment_item (is_included_bucket_of t.entitlement.id) b w
            balanced found)

  entitlement-Keeps :
      (id : ℕ) (change : Entitlement → Entitlement) → Keeps (update_entitlement id change)
  unfolding update_entitlement
  entitlement-Keeps id change w balanced =
      elim (find_unique (λ (e : Entitlement). e.id == id) w.db.entitlements)
        as (λ (o : Option Entitlement). Balances {A = Entitlement} (elim o [
          | none ↦ (err record_not_found, w)
          | some e ↦ (
            ok (change e),
            set_entitlements (update_many (λ f. f.id == id) change w.db.entitlements) w,
          )
        ])) [ none ↦ balanced | some e ↦ balanced ]

  pub payment-Keeps : (id : ℕ) (change : Payment → Payment) → Keeps (update_payment id change)
  unfolding update_payment
  payment-Keeps id change w balanced =
      elim (find_unique (λ (p : Payment). p.id == id) w.db.payments)
        as (λ (o : Option Payment). Balances {A = Payment} (elim o [
          | none ↦ (err record_not_found, w)
          | some p ↦
              (ok (change p), set_payments (update_many (λ q. q.id == id) change w.db.payments) w)
        ])) [ none ↦ balanced | some p ↦ balanced ]

  target-Keeps : (r : Revocation) (t : RefundEntitlementTarget) → Keeps (revoke_target r t)
  unfolding revoke_target new_date create_payment_item_revocation_history
  target-Keeps r t =
      Keeps-bind new_date
        (λ now. update_entitlement t.entitlement.id (canceled_entitlement now) >> logged) (λ w h. h)
        (λ now.
          Keeps-bind (update_entitlement t.entitlement.id (canceled_entitlement now)) (λ _. logged)
            (entitlement-Keeps t.entitlement.id (canceled_entitlement now))
            (λ _.
              Keeps-bind
                (create_payment_item_revocation_history
                  (entitlement_history r t.payment_item t.entitlement))
                (λ _. credits) (λ w h. h)
                (λ _.
                  Keeps-if (is_active t.entitlement.status) taken (pure tt) (included-Keeps r t)
                    (λ w h. h))))
    where
      taken : Billing (Unit {0})
      taken =
          find_included_credit_bucket_by_entitlement_id t.entitlement.id
          >>= revoke_included r t.payment_item

      credits : Billing (Unit {0})
      credits = if is_active t.entitlement.status then taken else pure tt

      logged : Billing (Unit {0})
      logged =
          create_payment_item_revocation_history
            (entitlement_history r t.payment_item t.entitlement)
          >> credits

  choice-Keeps :
      (dto : UpdatePaymentRefundStatusDto) (queued active : List RefundEntitlementTarget)
      → Keeps (choose_targets dto queued active)
  choice-Keeps dto queued active w balanced =
      go (choose_targets dto queued active w) (choose-Choice dto queued active w)
    where
      go :
          (r : Result (List RefundEntitlementTarget) × World)
          → Choice dto.allow_active_revoke queued active
              (get_or dto.revoke_count (length queued + length active))
              w
              r
          → Balances r
      go (ok ts, w') c = subst IsBalanced (sym c.0) balanced
      go (err e, w') c = subst IsBalanced (sym c.0) balanced

  pub pass-Keeps :
      (payment : Payment) (items : List PaymentItemWithRelations)
      (dto : UpdatePaymentRefundStatusDto) (actor : Actor) (reason : String)
      → Keeps (revoke_pass_entitlements_for_refund payment items dto actor reason)
  unfolding revoke_pass_entitlements_for_refund revoke_chosen random_uuid
  pass-Keeps payment items dto actor reason =
      Keeps-if (length queued + length (active_of items) == 0) (pure false)
        (choose_targets dto queued (active_of items) >>= chosen) (λ w h. h)
        (Keeps-bind (choose_targets dto queued (active_of items)) chosen
          (choice-Keeps dto queued (active_of items))
          (λ targets.
            Keeps-bind random_uuid
              (λ id. for_each (revoke_target (batch id)) targets >> pure (ltb 0 (length targets)))
              (λ w h. h)
              (λ id.
                Keeps-bind (for_each (revoke_target (batch id)) targets)
                  (λ _. pure (ltb 0 (length targets)))
                  (Keeps-for_each (revoke_target (batch id)) targets (target-Keeps (batch id)))
                  (λ _ w h. h))))
    where
      queued : List RefundEntitlementTarget
      queued = order_by target_before (queued_of items)

      chosen : List RefundEntitlementTarget → Billing Bool
      chosen targets = revoke_chosen payment targets actor reason

      batch : ℕ → Revocation
      batch id = record { payment = payment; actor = actor; reason = reason; batch_id = id }

  pub recharge-Keeps :
      (payment : Payment) (items : List PaymentItemWithRelations) (actor : Actor) (reason : String)
      → Keeps (revoke_recharge_credits_for_refund payment items actor reason)
  unfolding revoke_recharge_credits_for_refund random_uuid
  recharge-Keeps payment items actor reason =
      Keeps-bind random_uuid (λ id. revoke_recharge_items (batch id) items false) (λ w h. h)
        (λ id. recharge_items-Keeps (batch id) items false)
    where
      batch : ℕ → Revocation
      batch id = record { payment = payment; actor = actor; reason = reason; batch_id = id }

  pub time-Keeps : (status : PaymentRefundStatus) → Keeps (completion_time status)
  unfolding completion_time new_date
  time-Keeps PaymentRefundStatus.completed = λ w h. h
  time-Keeps PaymentRefundStatus.pending = λ w h. h
  time-Keeps PaymentRefundStatus.not_refunded = λ w h. h
