-- ===== src/Billing/Refunds/Status.antt =====
-- The transaction of `updatePaymentRefundStatus` keeps the balance of the ledger.
use ssambee_be.Prelude.{
  ℕ, Bool, false, not, ◌&&◌, ◌||◌, Option, List, String, if◌then◌else◌, is_some,
}
use ssambee_be.Prelude.Action.{
  Exception, bad_request, not_found, pure, gets, or_throw, throw_if, ◌>>=◌, ◌>>◌,
}
use ssambee_be.Prelude.OrderBy.{OrderBy}
use ssambee_be.Billing.Database.{Payment, PaymentItem, Actor, World, Billing}
use ssambee_be.Billing.Repo.{find_payment_by_id, list_payment_items, update_payment}
use ssambee_be.Billing.Transactions.{transaction}
use ssambee_be.Billing.RefundPlan.{UpdatePaymentRefundStatusDto, PaymentItemWithRelations}
use ssambee_be.Billing.Refunds.{
  revoke_recharge_credits_for_refund, revoke_pass_entitlements_for_refund, with_relations,
  has_revocation, resolve_refund_reason, completion_time, with_refund, refund_in_transaction,
}
use ssambee_be.Billing.Refunds.Balance.{
  IsBalanced, Keeps, Keeps-bind, Keeps-if, Keeps-throw_if, Keeps-or_throw, Keeps-transaction,
}
use ssambee_be.Billing.Refunds.Revoked.{payment-Keeps, pass-Keeps, recharge-Keeps, time-Keeps}

module _ ⦃o : OrderBy⦄ (trim : String → String) (payment_id : ℕ)
    (dto : UpdatePaymentRefundStatusDto) (actor : Actor) where
  abbrev write : Option ℕ → Billing (Unit {0})
  write completed_at = update_payment payment_id (with_refund dto completed_at) >> pure tt

  abbrev complete : Billing (Unit {0})
  complete = completion_time dto.refund_status >>= write

  abbrev refused : Exception
  refused = bad_request "회수 이력이 있는 결제만 환불 상태를 변경할 수 있습니다."

  abbrev finish : Bool → Bool → Bool → Billing (Unit {0})
  finish revoked_before revoked_pass revoked_recharge =
      throw_if (not revoked_before && not revoked_pass && not revoked_recharge) refused >> complete

  complete-Keeps : Keeps complete
  complete-Keeps =
      Keeps-bind (completion_time dto.refund_status) write (time-Keeps dto.refund_status)
        (λ completed_at.
          Keeps-bind (update_payment payment_id (with_refund dto completed_at)) (λ _. pure tt)
            (payment-Keeps payment_id (with_refund dto completed_at)) (λ _ w h. h))

  abbrev reason : String
  reason = resolve_refund_reason trim dto.refund_memo

  abbrev revoke_pass : Payment → List PaymentItemWithRelations → Billing Bool
  revoke_pass payment items =
      if not (has_revocation items) || is_some dto.revoke_count
      then revoke_pass_entitlements_for_refund payment items dto actor reason
      else pure false

  abbrev revoke_recharge : Payment → List PaymentItemWithRelations → Billing Bool
  revoke_recharge payment items =
      if has_revocation items
      then pure false
      else revoke_recharge_credits_for_refund payment items actor reason

  abbrev revoke : Payment → List PaymentItemWithRelations → Billing (Unit {0})
  revoke payment items = revoke_pass payment items >>= λ revoked_pass.
      revoke_recharge payment items >>= finish (has_revocation items) revoked_pass

  revoke-Keeps :
      (payment : Payment) (items : List PaymentItemWithRelations) → Keeps (revoke payment items)
  revoke-Keeps payment items =
      Keeps-bind (revoke_pass payment items)
        (λ revoked_pass.
          revoke_recharge payment items >>= finish (has_revocation items) revoked_pass)
        (Keeps-if (not (has_revocation items) || is_some dto.revoke_count)
          (revoke_pass_entitlements_for_refund payment items dto actor reason) (pure false)
          (pass-Keeps payment items dto actor reason) (λ w h. h))
        (λ revoked_pass.
          Keeps-bind (revoke_recharge payment items) (finish (has_revocation items) revoked_pass)
            (Keeps-if (has_revocation items) (pure false)
              (revoke_recharge_credits_for_refund payment items actor reason) (λ w h. h)
              (recharge-Keeps payment items actor reason))
            (λ revoked_recharge.
              let wrong = not (has_revocation items) && not revoked_pass && not revoked_recharge in
              Keeps-bind (throw_if wrong refused) (λ _. complete) (Keeps-throw_if wrong refused)
                (λ _. complete-Keeps)))

  abbrev revoke_items : Payment → List PaymentItem → Billing (Unit {0})
  revoke_items payment rows = gets (with_relations rows) >>= revoke payment

  abbrev refund_found : Option Payment → Billing (Unit {0})
  refund_found found = or_throw found (not_found "결제 내역을 찾을 수 없습니다.") >>= λ payment.
      list_payment_items payment_id >>= revoke_items payment

  refund-Keeps : Keeps (refund_in_transaction trim payment_id dto actor)
  unfolding refund_in_transaction find_payment_by_id list_payment_items
  refund-Keeps =
      Keeps-bind (find_payment_by_id payment_id) refund_found (λ w h. h)
        (λ found.
          Keeps-bind (or_throw found (not_found "결제 내역을 찾을 수 없습니다."))
            (λ payment. list_payment_items payment_id >>= revoke_items payment)
            (Keeps-or_throw found (not_found "결제 내역을 찾을 수 없습니다."))
            (λ payment.
              Keeps-bind (list_payment_items payment_id) (revoke_items payment) (λ w h. h)
                (λ rows.
                  Keeps-bind (gets (with_relations rows)) (revoke payment) (λ w h. h)
                    (revoke-Keeps payment))))

  -- If the entries of the ledger sum to the credits that the buckets have left, then they do so
  -- after the transaction of updatePaymentRefundStatus, whether it returns or throws: what the
  -- buckets of the passes and of the packs lose is written to the ledger.
  pub refund-IsBalanced :
      (w : World)
      → IsBalanced w
      → IsBalanced (transaction (refund_in_transaction trim payment_id dto actor) w).1
  refund-IsBalanced =
      Keeps-transaction (refund_in_transaction trim payment_id dto actor) refund-Keeps
