-- ===== src/Billing/RefundPlan.antt =====
-- Which entitlements a refund takes back: the first half of `revokePassEntitlementsForRefund` in
-- src/services/billing.service.ts.
pub mod Choice
use Prim.Native.String.{len}
use ssambee_be.Prelude.{
  ℕ, zero, suc, ◌+◌, ◌-◌, ◌==◌, Bool, true, false, not, ◌&&◌, ◌||◌, Option, none, some, List, [],
  ◌∷◌, ◌++◌, String, if◌then◌else◌, get_or, is_some, ltb, leb, length, take, find_many, find_unique,
  map,
}
use ssambee_be.Prelude.Int.{ℤ, pos, negate}
use ssambee_be.Prelude.Action.{
  bad_request, conflict, not_found, throw, throw_if, or_throw, ok, for_each, pure, gets, ◌>>=◌,
  ◌>>◌,
}
use ssambee_be.Prelude.OrderBy.{OrderBy, order_by}
use ssambee_be.Billing.Constants.{
  PaymentRefundStatus, EntitlementStatus, CreditBucketStatus, CreditLedgerType,
  RevocationTargetType, RevocationActionType, is_pass_single, is_credit_pack, is_active, is_queued,
  is_active_bucket,
}
use ssambee_be.Billing.Database.{
  Payment, PaymentItem, Entitlement, CreditBucket, PaymentItemRevocationHistory, TargetStatus,
  of_entitlement, of_bucket, Actor, Billing, World,
}
use ssambee_be.Billing.Repo.{
  new_date, find_payment_by_id, list_payment_items, update_entitlement, update_credit_bucket,
  update_payment, create_payment_item_revocation_history,
  find_included_credit_bucket_by_entitlement_id, find_recharge_credit_bucket_by_payment_item_id,
  starts_before,
}
use ssambee_be.Billing.Transactions.{transaction}
use ssambee_be.Billing.Dates.{DateFns}
use ssambee_be.Billing.Payments.{get_payment}
use ssambee_be.Billing.Credits.{CreditMutationInput, append_credit_ledger}

pub record UpdatePaymentRefundStatusDto : Type 0 where
  pub refund_status : PaymentRefundStatus
  pub refund_memo : Option String
  pub revoke_count : Option ℕ
  pub allow_active_revoke : Bool

-- An item of the payment with the rows that `findPaymentById` includes.
pub record PaymentItemWithRelations : Type 0 where
  pub item : PaymentItem
  pub entitlements : List Entitlement
  pub revocation_histories : List PaymentItemRevocationHistory

pub record RefundEntitlementTarget : Type 0 where
  pub payment_item : PaymentItem
  pub entitlement : Entitlement

-- `QUEUED` entitlements of the passes, and the first `ACTIVE` one of each.
abbrev pub queued_of : List PaymentItemWithRelations → List RefundEntitlementTarget
queued_of [] = []
queued_of (i ∷ items) =
    let rest = queued_of items in
    if is_pass_single i.item.product_type_snapshot
    then map (λ e. record { payment_item = i.item; entitlement = e })
        (find_many (λ e. is_queued e.status) i.entitlements)
      ++ rest
    else rest

abbrev pub target_list : PaymentItem → Option Entitlement → List RefundEntitlementTarget
target_list item none = []
target_list item (some e) = record { payment_item = item; entitlement = e } ∷ []

abbrev pub active_of : List PaymentItemWithRelations → List RefundEntitlementTarget
active_of [] = []
active_of (i ∷ items) =
    let rest = active_of items in
    if is_pass_single i.item.product_type_snapshot
    then target_list i.item (find_unique (λ e. is_active e.status) i.entitlements) ++ rest
    else rest

-- The comparison of `.sort`: the latest start first, then the greatest sequence number.
abbrev pub target_before : RefundEntitlementTarget → RefundEntitlementTarget → Bool
target_before a b =
    if a.entitlement.starts_at == b.entitlement.starts_at
    then leb b.entitlement.sequence_no a.entitlement.sequence_no
    else ltb b.entitlement.starts_at a.entitlement.starts_at

-- Which entitlements are taken back, from the sorted queued ones and the active ones.
pub choose_targets :
    UpdatePaymentRefundStatusDto
    → List RefundEntitlementTarget
    → List RefundEntitlementTarget
    → Billing (List RefundEntitlementTarget)
choose_targets dto queued active =
    let max_revocable_count = length queued + length active in
    let revoke_count = get_or dto.revoke_count max_revocable_count in
    let targets = take revoke_count queued in
    if ltb max_revocable_count revoke_count
    then throw (bad_request "회수할 수 있는 이용권 수를 초과했습니다.")
    else if ltb (length targets) revoke_count
    then if dto.allow_active_revoke
      then pure (targets ++ take (revoke_count - length targets) active)
      else throw (conflict "ACTIVE_REVOKE_CONFIRM_REQUIRED")
    else pure targets
