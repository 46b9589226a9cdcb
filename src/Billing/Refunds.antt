-- ===== src/Billing/Refunds.antt =====
-- The refunds of src/services/billing.service.ts: what a payment bought is taken back, entitlements
-- and credits, with one entry in the revocation histories for each.
pub mod Clawback
pub mod Balance
pub mod Revoked
pub mod Status
pub mod Tests
use Prim.Native.String.{len}
use ssambee_be.Prelude.{
  ℕ, zero, suc, ◌+◌, ◌-◌, ◌==◌, Bool, true, false, not, ◌&&◌, ◌||◌, Option, none, some, List, [],
  ◌∷◌, ◌++◌, String, if◌then◌else◌, get_or, is_some, ltb, leb, length, take, find_many, find_unique,
  map,
}
use ssambee_be.Prelude.Int.{ℤ, pos, negate}
use ssambee_be.Prelude.Action.{
  bad_request, conflict, not_found, throw, throw_if, or_throw, ok, for_each, pure, gets, ◌>>=◌,
  ◌>>◌,
}
use ssambee_be.Prelude.OrderBy.{OrderBy, order_by}
use ssambee_be.Billing.Constants.{
  PaymentRefundStatus, EntitlementStatus, CreditBucketStatus, CreditLedgerType,
  RevocationTargetType, RevocationActionType, is_pass_single, is_credit_pack, is_active, is_queued,
  is_active_bucket,
}
use ssambee_be.Billing.Database.{
  Payment, PaymentItem, Entitlement, CreditBucket, PaymentItemRevocationHistory, TargetStatus,
  of_entitlement, of_bucket, Actor, Billing, World,
}
use ssambee_be.Billing.Repo.{
  new_date, find_payment_by_id, list_payment_items, update_entitlement, update_credit_bucket,
  update_payment, create_payment_item_revocation_history,
  find_included_credit_bucket_by_entitlement_id, find_recharge_credit_bucket_by_payment_item_id,
  starts_before,
}
use ssambee_be.Billing.Transactions.{transaction}
use ssambee_be.Billing.Dates.{DateFns}
use ssambee_be.Billing.Payments.{get_payment}
use ssambee_be.Billing.Credits.{CreditMutationInput, append_credit_ledger}
use ssambee_be.Billing.RefundPlan.{
  UpdatePaymentRefundStatusDto, PaymentItemWithRelations, RefundEntitlementTarget, queued_of,
  active_of, target_before, choose_targets,
}

-- `String.prototype.trim` is a parameter.
abbrev pub resolve_refund_reason : (String → String) → Option String → String
resolve_refund_reason trim none = "환불 처리"
resolve_refund_reason trim (some memo) = if ltb 0 (len (trim memo)) then trim memo else "환불 처리"

-- `randomUUID`
random_uuid : Billing ℕ
random_uuid w = (ok w.db.next_id, record w { db = record (w.db) { next_id = suc w.db.next_id } })

-- What the two loops share: the payment, who refunds it, why, and the batch.
pub record Revocation : Type 0 where
  pub payment : Payment
  pub actor : Actor
  pub reason : String
  pub batch_id : ℕ

abbrev pub canceled_bucket : CreditBucket → CreditBucket
canceled_bucket b = record b { status = CreditBucketStatus.canceled; remaining_amount = 0 }

abbrev pub canceled_entitlement : ℕ → Entitlement → Entitlement
canceled_entitlement now e = record e {
  status = EntitlementStatus.canceled;
  canceled_at = some now;
}

abbrev pub bucket_history :
    Revocation → PaymentItem → CreditBucket → ℕ → PaymentItemRevocationHistory
bucket_history r item b id = record {
  id = id;
  payment_id = r.payment.id;
  payment_item_id = item.id;
  target_type = RevocationTargetType.credit_bucket;
  target_id = b.id;
  action_type = RevocationActionType.clawback;
  from_status = of_bucket b.status;
  to_status = of_bucket CreditBucketStatus.canceled;
  delta_amount = negate b.remaining_amount;
  actor_user_id = r.actor.user_id;
  actor_role = r.actor.role;
  reason = r.reason;
  batch_id = r.batch_id;
}

abbrev pub entitlement_history :
    Revocation → PaymentItem → Entitlement → ℕ → PaymentItemRevocationHistory
entitlement_history r item e id = record {
  id = id;
  payment_id = r.payment.id;
  payment_item_id = item.id;
  target_type = RevocationTargetType.entitlement;
  target_id = e.id;
  action_type = RevocationActionType.cancel;
  from_status = of_entitlement e.status;
  to_status = of_entitlement EntitlementStatus.canceled;
  delta_amount = pos 0;
  actor_user_id = r.actor.user_id;
  actor_role = r.actor.role;
  reason = r.reason;
  batch_id = r.batch_id;
}

abbrev pub clawback_entry : Revocation → CreditBucket → ℕ → CreditMutationInput
clawback_entry r b history_id = record {
  instructor_id = r.payment.instructor_id;
  credit_bucket_id = some b.id;
  ledger_type = CreditLedgerType.adjust;
  delta_amount = negate b.remaining_amount;
  reference_type = "PAYMENT_ITEM_REVOCATION";
  reference_id = some history_id;
  reason = r.reason;
}

module _ ⦃o : OrderBy⦄ where
  -- The bucket is canceled, with its histories; `revokePassEntitlementsForRefund` writes no ledger
  -- entry for an empty one.
  pub claw_back : Revocation → PaymentItem → CreditBucket → Billing (Unit {0})
  claw_back r item b = do
    canceled ← update_credit_bucket b.id canceled_bucket
    history ← create_payment_item_revocation_history (bucket_history r item b)
    if ltb 0 b.remaining_amount
        then append_credit_ledger (clawback_entry r b history.id)
        else pure tt

  -- One round of the loop of `revokeRechargeCreditsForRefund`, on the bucket found: whether it
  -- revoked something.
  pub revoke_recharge_bucket : Revocation → PaymentItem → Option CreditBucket → Billing Bool
  revoke_recharge_bucket r item none = pure false
  revoke_recharge_bucket r item (some b) =
      if not (is_active_bucket b.status) || leb b.remaining_amount 0
      then pure false
      else (claw_back r item b >> pure true)

  pub revoke_recharge_item : Revocation → PaymentItem → Billing Bool
  revoke_recharge_item r item =
      if is_credit_pack item.product_type_snapshot
      then (find_recharge_credit_bucket_by_payment_item_id item.id
          >>= revoke_recharge_bucket r item)
      else pure false

  revoke_recharge_items : Revocation → List PaymentItemWithRelations → Bool → Billing Bool
  revoke_recharge_items r [] revoked_any = pure revoked_any
  revoke_recharge_items r (i ∷ items) revoked_any = do
    revoked ← revoke_recharge_item r i.item
    revoke_recharge_items r items (revoked || revoked_any)

  pub revoke_recharge_credits_for_refund :
      Payment → List PaymentItemWithRelations → Actor → String → Billing Bool
  revoke_recharge_credits_for_refund payment items actor reason = do
    batch_id ← random_uuid
    revoke_recharge_items
        (record { payment = payment; actor = actor; reason = reason; batch_id = batch_id }) items
        false

  revoke_included : Revocation → PaymentItem → Option CreditBucket → Billing (Unit {0})
  revoke_included r item none = pure tt
  revoke_included r item (some b) = claw_back r item b

  revoke_target : Revocation → RefundEntitlementTarget → Billing (Unit {0})
  revoke_target r t = do
    now ← new_date
    update_entitlement t.entitlement.id (canceled_entitlement now)
    create_payment_item_revocation_history (entitlement_history r t.payment_item t.entitlement)
    if is_active t.entitlement.status
        then (find_included_credit_bucket_by_entitlement_id t.entitlement.id
            >>= revoke_included r t.payment_item)
        else pure tt

  revoke_chosen : Payment → List RefundEntitlementTarget → Actor → String → Billing Bool
  revoke_chosen payment targets actor reason = do
    batch_id ← random_uuid
    for_each
        (revoke_target
          (record { payment = payment; actor = actor; reason = reason; batch_id = batch_id }))
        targets
    pure (ltb 0 (length targets))

  pub revoke_pass_entitlements_for_refund :
      Payment
      → List PaymentItemWithRelations
      → UpdatePaymentRefundStatusDto
      → Actor
      → String
      → Billing Bool
  revoke_pass_entitlements_for_refund payment items dto actor reason =
      let queued = order_by target_before (queued_of items) in
      let active = active_of items in
      if length queued + length active == 0
      then pure false
      else (choose_targets dto queued active >>= λ targets.
          revoke_chosen payment targets actor reason)

  -- The rows that `findPaymentById` includes with the items.
  with_relations : List PaymentItem → World → List PaymentItemWithRelations
  with_relations items w =
      map
        (λ (i : PaymentItem). record {
          item = i;
          entitlements = find_many (λ e. e.payment_item_id == i.id) w.db.entitlements;
          revocation_histories = find_many (λ h. h.payment_item_id == i.id) w.db.revocations;
        })
        items

  has_revocation : List PaymentItemWithRelations → Bool
  has_revocation [] = false
  has_revocation (i ∷ items) = ltb 0 (length i.revocation_histories) || has_revocation items

  abbrev with_refund : UpdatePaymentRefundStatusDto → Option ℕ → Payment → Payment
  with_refund dto completed_at p = record p {
    refund_status = dto.refund_status;
    refund_memo = if is_some dto.refund_memo then dto.refund_memo else p.refund_memo;
    refund_completed_at = completed_at;
  }

  pub completion_time : PaymentRefundStatus → Billing (Option ℕ)
  completion_time PaymentRefundStatus.completed = new_date >>= λ now. pure (some now)
  completion_time PaymentRefundStatus.pending = pure none
  completion_time PaymentRefundStatus.not_refunded = pure none

  pub refund_in_transaction :
      (String → String) → ℕ → UpdatePaymentRefundStatusDto → Actor → Billing (Unit {0})
  refund_in_transaction trim payment_id dto actor = do
    found ← find_payment_by_id payment_id
    payment ← or_throw found (not_found "결제 내역을 찾을 수 없습니다.")
    rows ← list_payment_items payment_id
    items ← gets (with_relations rows)
    let revoked_before = has_revocation items
    let reason = resolve_refund_reason trim dto.refund_memo
    revoked_pass ←
        if not revoked_before || is_some dto.revoke_count
        then revoke_pass_entitlements_for_refund payment items dto actor reason
        else pure false
    revoked_recharge ←
        if revoked_before
        then pure false
        else revoke_recharge_credits_for_refund payment items actor reason
    throw_if (not revoked_before && not revoked_pass && not revoked_recharge)
        (bad_request "회수 이력이 있는 결제만 환불 상태를 변경할 수 있습니다.")
    completed_at ← completion_time dto.refund_status
    update_payment payment_id (with_refund dto completed_at)
    pure tt

  pub update_payment_refund_status :
      ⦃d : DateFns⦄ → (String → String) → ℕ → UpdatePaymentRefundStatusDto → Actor → Billing Payment
  update_payment_refund_status trim payment_id dto actor = do
    transaction (refund_in_transaction trim payment_id dto actor)
    get_payment payment_id
