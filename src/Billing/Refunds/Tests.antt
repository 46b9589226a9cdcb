-- ===== src/Billing/Refunds/Tests.antt =====
-- The theorems on the refunds and on the balance of the ledger, at the tables of two instructors.
use ssambee_be.Prelude.{◌==◌, ℕ, refl, none, some, true, [], ◌∷◌, arith}
use ssambee_be.Prelude.Action.{Returns}
use ssambee_be.Billing.Constants.{
  CreditLedgerType, PaymentRefundStatus, PaymentStatus, EntitlementStatus,
}
use ssambee_be.Prelude.Int.{pos, int_laws}
use ssambee_be.Billing.Database.{World}
use ssambee_be.Billing.Transactions.{transaction, run_serializable_transaction_with_retry}
use ssambee_be.Billing.Credits.{Reference}
use ssambee_be.Billing.Spending.{use_credits}
use ssambee_be.Billing.Spending.Ledger.{spending-IsBalanced}
use ssambee_be.Billing.RefundPlan.{RefundEntitlementTarget, UpdatePaymentRefundStatusDto}
use ssambee_be.Billing.Refunds.{Revocation, claw_back, refund_in_transaction}
use ssambee_be.Billing.Refunds.Balance.{IsBalanced}
use ssambee_be.Billing.Refunds.Status.{refund-IsBalanced}
use ssambee_be.Billing.RefundPlan.Choice.{Choice}
use ssambee_be.Billing.Refunds.Clawback.{IsClawedBack, claw_back-IsClawedBack}
use ssambee_be.Billing.Samples.{
  sample_bucket, sorting, calendar, pass_item, pack_item, sample_payment, sample_entitlement,
  sample_world, sample_actor, sample_db,
}

abbrev refund : Revocation
refund = record {
  payment = sample_payment 11 PaymentStatus.approved;
  actor = sample_actor;
  reason = "환불 처리";
  batch_id = 99;
}

claw_back_example :
    Returns
      (λ _ w'. IsClawedBack refund pack_item (sample_bucket 31 1 7 2000) sample_world w')
      (claw_back refund pack_item (sample_bucket 31 1 7 2000) sample_world)
claw_back_example =
    claw_back-IsClawedBack refund pack_item (sample_bucket 31 1 7 2000) sample_world (ground arith)
      refl

abbrev two_of_three : UpdatePaymentRefundStatusDto
two_of_three = record {
  refund_status = PaymentRefundStatus.pending;
  refund_memo = none;
  revoke_count = some 2;
  allow_active_revoke = true;
}

abbrev target : ℕ → EntitlementStatus → RefundEntitlementTarget
target id status = record {
  payment_item = pass_item;
  entitlement = sample_entitlement id status 10 900;
}

-- The pack of payment 11 has 7 credits left, which the ledger says.
abbrev balanced_world : World
balanced_world = record sample_world {
  db = record sample_db {
    credit_buckets = record (sample_bucket 31 1 7 2000) { payment_item_id = some 22 } ∷ [];
    ledgers =
        (record {
          instructor_id = 1;
          credit_bucket_id = some 31;
          ledger_type = CreditLedgerType.grant;
          delta_amount = pos 7;
          balance_after_total = 7;
          balance_after_included = 0;
          balance_after_recharge = 7;
          reference_type = "PAYMENT_ITEM";
          reference_id = some 22;
          reason = "";
        })
        ∷ [];
  };
}

refund_example :
    IsBalanced
      (transaction (refund_in_transaction (λ s. s) 11 two_of_three sample_actor) balanced_world).1
refund_example =
    refund-IsBalanced (λ s. s) 11 two_of_three sample_actor balanced_world
      (ground arith, omega int_laws)

abbrev exam_reference : Reference
exam_reference = record { reference_type = "EXAM"; reference_id = some 3; reason = none }

-- The first attempt is aborted; the second one takes 5 of the 7 credits.
spending_example :
    IsBalanced
      (run_serializable_transaction_with_retry
        (λ k. k == 0)
        (use_credits 1 exam_reference 5)
        balanced_world).1
spending_example =
    spending-IsBalanced 1 exam_reference (λ k. k == 0) 5 balanced_world
      (ground arith, omega int_laws)
