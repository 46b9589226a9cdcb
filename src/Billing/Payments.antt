-- ===== src/Billing/Payments.antt =====
-- The payments of src/services/billing.service.ts: a bank transfer is requested, and then approved,
-- rejected or canceled. Mails and the formatting of responses are left out.
pub mod Guard
pub mod Request
pub mod Moves
pub mod Effects
pub mod Transitions
use ssambee_be.Prelude.{
  ℕ, ◌*◌, ◌==◌, Bool, true, false, not, Option, none, some, List, String, if◌then◌else◌, get_or,
}
use ssambee_be.Prelude.Action.{
  Action, bad_request, conflict, forbidden, not_found, or_throw, throw_if, pure, for_each, ◌>>=◌,
  ◌>>◌,
}
use ssambee_be.Prelude.OrderBy.{OrderBy}
use ssambee_be.Billing.Constants.{
  BillingProductType, PaymentMethodType, PaymentProviderType, PaymentStatus, PaymentRefundStatus,
  is_pass_single, is_credit_pack, is_bank_transfer, same_payment_status,
}
use ssambee_be.Billing.Dates.{DateFns}
use ssambee_be.Billing.Database.{
  BillingProduct, Payment, PaymentItem, PaymentStatusHistory, PaymentReceiptRequest, ReceiptDetails,
  Actor, Billing,
}
use ssambee_be.Billing.Repo.{
  new_date, find_product_by_id, find_payment_by_id, list_payment_items, create_payment,
  create_payment_item, create_payment_status_history, create_receipt_request, update_payment_if,
}
use ssambee_be.Billing.Transactions.{transaction}
use ssambee_be.Billing.Credits.{grant_recharge_credits, refresh_credit_wallet}
use ssambee_be.Billing.Entitlements.{provision_pass_entitlements, reconcile_instructor_state}

pub record CreateBankTransferPaymentDto : Type 0 where
  pub product_id : ℕ
  pub quantity : ℕ
  pub depositor_name : String
  pub depositor_bank_name : String
  pub receipt_request : Option ReceiptDetails

abbrev pub payment_not_found : String
payment_not_found = "결제 내역을 찾을 수 없습니다."

-- The messages of the operations on a payment that is not waiting for its deposit.
abbrev pub not_cancelable : String
not_cancelable = "입금 대기 상태에서만 결제 취소가 가능합니다."

abbrev pub not_rejectable : String
not_rejectable = "입금 대기 상태에서만 결제 반려가 가능합니다."

abbrev pub not_approvable : String
not_approvable = "입금 대기 상태에서만 결제 승인이 가능합니다."

abbrev pub not_owner : String
not_owner = "본인의 결제만 취소할 수 있습니다."

-- `PAYMENT_STATUS_TRANSITION_CONFLICT_MESSAGE`
abbrev pub transition_conflict : String
transition_conflict = "결제 상태가 변경되어 요청을 완료할 수 없습니다. 새로고침 후 다시 시도해주세요."

abbrev pub is_pending_deposit : PaymentStatus → Bool
is_pending_deposit s = same_payment_status s PaymentStatus.pending_deposit

pub update_payment_with_status_guard : ℕ → (Payment → Payment) → PaymentStatus → Billing Payment
update_payment_with_status_guard id change expected = do
  updated ← update_payment_if id change expected
  or_throw updated (conflict transition_conflict)

unfoldable pub assert_bank_transfer_purchasable : BillingProduct → Billing (Unit {0})
assert_bank_transfer_purchasable p = do
  throw_if (not p.is_active_product) (bad_request "비활성화된 상품입니다.")
  throw_if (not (is_bank_transfer p.payment_method_type)) (bad_request "현재는 무통장 결제만 지원합니다.")
  throw_if (if is_pass_single p.product_type then false else not (is_credit_pack p.product_type))
      (bad_request "현재 구매할 수 없는 상품입니다.")

assert_instructor_payment_owner : ℕ → ℕ → String → Billing Payment
assert_instructor_payment_owner payment_id instructor_id unauthorized_message = do
  found ← find_payment_by_id payment_id
  payment ← or_throw found (not_found payment_not_found)
  throw_if (not (payment.instructor_id == instructor_id)) (forbidden unauthorized_message)
  pure payment

new_payment : ℕ → CreateBankTransferPaymentDto → BillingProduct → ℕ → Payment
new_payment instructor_id dto product id = record {
  id = id;
  instructor_id = instructor_id;
  method_type = PaymentMethodType.bank_transfer;
  provider_type = PaymentProviderType.manual;
  status = PaymentStatus.pending_deposit;
  refund_status = PaymentRefundStatus.not_refunded;
  refund_memo = none;
  refund_completed_at = none;
  depositor_name = some dto.depositor_name;
  depositor_bank_name = some dto.depositor_bank_name;
  total_amount = product.price * dto.quantity;
  deposited_at = none;
  approved_at = none;
  rejected_at = none;
  canceled_at = none;
}

new_payment_item : ℕ → CreateBankTransferPaymentDto → BillingProduct → ℕ → PaymentItem
new_payment_item payment_id dto product id = record {
  id = id;
  payment_id = payment_id;
  billing_product_id = product.id;
  product_code_snapshot = product.code;
  product_name_snapshot = product.name;
  product_type_snapshot = product.product_type;
  quantity = dto.quantity;
  unit_price = product.price;
  total_price = product.price * dto.quantity;
  duration_months_snapshot = product.duration_months;
  included_credit_amount_snapshot = product.included_credit_amount;
  recharge_credit_amount_snapshot = product.recharge_credit_amount;
  recharge_expires_in_days_snapshot = none;
}

-- `mapReceiptRequest`, and the write that follows it.
request_receipt : ℕ → Option ReceiptDetails → Billing (Unit {0})
request_receipt payment_id none = pure tt
request_receipt payment_id (some details) =
    create_receipt_request (record { payment_id = payment_id; details = details })

pub create_bank_transfer_payment : ℕ → CreateBankTransferPaymentDto → Actor → Billing Payment
unfolding new_payment new_payment_item request_receipt
create_bank_transfer_payment instructor_id dto actor = do
  found ← find_product_by_id dto.product_id
  product ← or_throw found (not_found "상품을 찾을 수 없습니다.")
  assert_bank_transfer_purchasable product
  payment ← transaction do
    created ← create_payment (new_payment instructor_id dto product)
    create_payment_item (new_payment_item created.id dto product)
    create_payment_status_history (record {
      payment_id = created.id;
      from_status = none;
      to_status = PaymentStatus.pending_deposit;
      actor_user_id = actor.user_id;
      actor_role = actor.role;
      reason = none;
    })
    request_receipt created.id dto.receipt_request
    pure created
  assert_instructor_payment_owner payment.id instructor_id "본인의 결제만 조회할 수 있습니다."

-- The `data` of the guarded updates.
abbrev pub cancel_at : ℕ → Payment → Payment
cancel_at now p = record p { status = PaymentStatus.canceled; canceled_at = some now }

abbrev pub reject_at : ℕ → Payment → Payment
reject_at now p = record p { status = PaymentStatus.rejected; rejected_at = some now }

abbrev pub approve_at : ℕ → Option ℕ → Payment → Payment
approve_at now deposited_at p = record p {
  status = PaymentStatus.approved;
  deposited_at = some (get_or deposited_at now);
  approved_at = some now;
}

-- The entry of a transition in the history of the payment.
abbrev pub transition :
    ℕ → PaymentStatus → PaymentStatus → Actor → Option String → PaymentStatusHistory
transition payment_id from_status to_status actor reason = record {
  payment_id = payment_id;
  from_status = some from_status;
  to_status = to_status;
  actor_user_id = actor.user_id;
  actor_role = actor.role;
  reason = reason;
}

-- The operations of the transactions.
pub cancel_in_transaction : ℕ → ℕ → Actor → Billing (Unit {0})
cancel_in_transaction payment_id instructor_id actor = do
  payment ← assert_instructor_payment_owner payment_id instructor_id not_owner
  throw_if (not (is_pending_deposit payment.status)) (bad_request not_cancelable)
  now ← new_date
  update_payment_with_status_guard payment_id (cancel_at now) payment.status
  create_payment_status_history
      (transition payment_id payment.status PaymentStatus.canceled actor none)

pub reject_in_transaction : ℕ → Actor → String → Billing (Unit {0})
reject_in_transaction payment_id actor reason = do
  found ← find_payment_by_id payment_id
  payment ← or_throw found (not_found payment_not_found)
  throw_if (not (is_pending_deposit payment.status)) (bad_request not_rejectable)
  now ← new_date
  update_payment_with_status_guard payment_id (reject_at now) payment.status
  create_payment_status_history
      (transition payment_id payment.status PaymentStatus.rejected actor (some reason))

module _ ⦃o : OrderBy⦄ ⦃d : DateFns⦄ where
  -- The body of the loop of `approvePayment` over the items.
  provision_item : Payment → ℕ → PaymentItem → Billing (Unit {0})
  provision_item payment approved_at item = do
    if is_pass_single item.product_type_snapshot
        then provision_pass_entitlements payment.instructor_id item approved_at
        else pure tt
    if is_credit_pack item.product_type_snapshot
        then (grant_recharge_credits (record payment { approved_at = some approved_at }) item
            >> pure tt)
        else pure tt

  -- What `approvePayment` does for the payment that it approves.
  pub deliver : Payment → ℕ → Billing (Unit {0})
  unfolding provision_item
  deliver payment approved_at = do
    items ← list_payment_items payment.id
    for_each (provision_item payment approved_at) items
    refresh_credit_wallet payment.instructor_id
    pure tt

  pub approve_in_transaction : ℕ → Actor → Option String → Billing (Unit {0})
  unfolding deliver
  approve_in_transaction payment_id actor memo = do
    found ← find_payment_by_id payment_id
    payment ← or_throw found (not_found payment_not_found)
    throw_if (not (is_pending_deposit payment.status)) (bad_request not_approvable)
    approved_at ← new_date
    update_payment_with_status_guard payment_id (approve_at approved_at payment.deposited_at)
        payment.status
    create_payment_status_history
        (transition payment_id payment.status PaymentStatus.approved actor memo)
    deliver payment approved_at

  pub get_payment : ℕ → Billing Payment
  get_payment payment_id = do
    found ← find_payment_by_id payment_id
    payment ← or_throw found (not_found payment_not_found)
    now ← new_date
    reconcile_instructor_state payment.instructor_id now
    refreshed ← find_payment_by_id payment_id
    or_throw refreshed (not_found payment_not_found)

  pub approve_payment : ℕ → Actor → Option String → Billing Payment
  unfolding approve_in_transaction
  approve_payment payment_id actor memo = do
    transaction (approve_in_transaction payment_id actor memo)
    get_payment payment_id

  pub reject_payment : ℕ → Actor → String → Billing Payment
  unfolding reject_in_transaction
  reject_payment payment_id actor reason = do
    transaction (reject_in_transaction payment_id actor reason)
    get_payment payment_id

pub cancel_instructor_payment : ℕ → ℕ → Actor → Billing Payment
unfolding cancel_in_transaction
cancel_instructor_payment payment_id instructor_id actor = do
  transaction (cancel_in_transaction payment_id instructor_id actor)
  assert_instructor_payment_owner payment_id instructor_id "본인의 결제만 조회할 수 있습니다."
