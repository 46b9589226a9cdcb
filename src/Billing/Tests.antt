-- ===== src/Billing/Tests.antt =====
-- The theorems on the billing modules, at the sample tables.
use ssambee_be.Prelude.{
  ℕ, ◌+◌, ◌≡◌, ◌↔◌, ◌≤◌, refl, Bool, false, none, some, List, ◌++◌, ◌==◌, arith,
}
use ssambee_be.Prelude.Action.{ok, err, Returns, Returns-map, conflict}
use ssambee_be.Billing.Constants.{CreditLedgerType, PaymentStatus, CreditLedgerType}
use ssambee_be.Prelude.Int.{pos}
use ssambee_be.Billing.Dates.{
  get_next_entitlement_start_at, calculate_monthly_entitlement_end_at, calculate_credit_expiry_at,
  le-entitlement_end, le-credit_expiry,
}
use ssambee_be.Billing.Database.{cash_receipt, Entitlement, World}
use ssambee_be.Billing.Credits.{
  Reference, CreditMutationInput, refresh_credit_wallet, append_credit_ledger,
  grant_recharge_credits,
}
use ssambee_be.Billing.Credits.Wallet.{
  available_total, IsRefreshed, IsAppended, refresh-IsRefreshed, append-IsAppended,
}
use ssambee_be.Billing.Credits.Recharges.{
  RechargeGrants, grant_recharge_once, grant_recharge-RechargeGrants,
}
use ssambee_be.Billing.Transactions.{run_serializable_transaction_with_retry}
use ssambee_be.Billing.Transactions.Retry.{Commits, retry-Commits, retry-Returns}
use ssambee_be.Billing.Entitlements.{provision_pass_entitlements}
use ssambee_be.Billing.Entitlements.Provision.{
  Appends, AreDisjoint, provision_pass-Appends, provision_pass-AreDisjoint,
}
use ssambee_be.Billing.Spending.{use_credits}
use ssambee_be.Billing.Spending.Whole.{Outcome as SpendingOutcome}
use ssambee_be.Billing.Spending.Consumption.{IsConsumed, use_credits-IsConsumed, use_credits_iff}
use ssambee_be.Billing.Payments.Request.{Requested, create-Requested}
use ssambee_be.Billing.Payments.{
  CreateBankTransferPaymentDto, create_bank_transfer_payment, transition_conflict,
  update_payment_with_status_guard, approve_at, cancel_at, approve_in_transaction,
  cancel_in_transaction, reject_in_transaction, not_approvable, not_rejectable,
}
use ssambee_be.Billing.Payments.Guard.{guard_once}
use ssambee_be.Billing.Payments.Moves.{Outcome, refuse_unless_pending, refuse_cancel}
use ssambee_be.Billing.Payments.Transitions.{
  Approved, Rejected, Canceled, approve-Outcome, reject-Outcome, cancel-Outcome,
}
use ssambee_be.Billing.Samples.{
  sample_product, sorting, calendar, calendar-IsCalendar, pass_item, pack_item, sample_payment,
  sample_world, sample_actor,
}

refresh-Returns :
    (w₀ : World)
    → w₀.db ≡ sample_world.db
    → Returns
        (λ s _. s.total_available ≡ s.included_available + s.recharge_available)
        (refresh_credit_wallet 1 w₀)
refresh-Returns w₀ h =
    Returns-map (IsRefreshed 1 w₀)
      (λ s _. s.total_available ≡ s.included_available + s.recharge_available)
      (refresh_credit_wallet 1 w₀) (λ s w' r. r.split) (refresh-IsRefreshed 1 w₀)

abbrev exam_reference : Reference
exam_reference = record { reference_type = "EXAM"; reference_id = some 3; reason = none }

use_credits_example :
    Returns
      (IsConsumed 1 exam_reference sample_world 9)
      (use_credits 1 exam_reference 9 sample_world)
use_credits_example =
    use_credits-IsConsumed 1 exam_reference sample_world 9 (ground arith) (omega arith)

use_credits_iff_example :
    Returns (λ _ _. Unit) (use_credits 1 exam_reference 12 sample_world)
    ↔ (12 ≤ available_total 1 1000 sample_world.db.credit_buckets)
use_credits_iff_example = use_credits_iff 1 exam_reference sample_world 12 (ground arith)

abbrev first_aborts : ℕ → Bool
first_aborts k = k == 0

retry-Commits_example : Commits first_aborts (use_credits 1 exam_reference 9) sample_world (
    run_serializable_transaction_with_retry first_aborts
      (use_credits 1 exam_reference 9)
      sample_world)
retry-Commits_example = retry-Commits first_aborts (use_credits 1 exam_reference 9) sample_world

retry-Returns_example :
    Returns
      (λ s _. s.total_available ≡ s.included_available + s.recharge_available)
      (run_serializable_transaction_with_retry first_aborts (refresh_credit_wallet 1) sample_world)
retry-Returns_example =
    retry-Returns first_aborts (refresh_credit_wallet 1)
      (λ s _. s.total_available ≡ s.included_available + s.recharge_available) sample_world
      refresh-Returns 1 (omega arith) refl

provision_example :
    Returns
      (λ _. Appends 1 pass_item 1000 4 1 1801 false sample_world)
      (provision_pass_entitlements 1 pass_item 1000 sample_world)
unfolding sorting get_next_entitlement_start_at
provision_example = provision_pass-Appends 1 pass_item 1000 sample_world

disjoint_example :
    Returns
      (λ _ w'.
        (rows : List Entitlement) × (w'.db.entitlements ≡ sample_world.db.entitlements ++ rows)
        × AreDisjoint rows)
      (provision_pass_entitlements 1 pass_item 1000 sample_world)
disjoint_example = provision_pass-AreDisjoint 1 pass_item 1000 calendar-IsCalendar sample_world

recharge_once_example :
    Returns
      (λ r w'.
        grant_recharge_credits (sample_payment 11 PaymentStatus.approved) pack_item w' ≡ (ok r, w'))
      (grant_recharge_credits (sample_payment 11 PaymentStatus.approved) pack_item sample_world)
recharge_once_example =
    grant_recharge_once (sample_payment 11 PaymentStatus.approved) pack_item sample_world

recharge_example :
    Returns
      (RechargeGrants pack_item sample_world)
      (grant_recharge_credits (sample_payment 11 PaymentStatus.approved) pack_item sample_world)
recharge_example =
    grant_recharge-RechargeGrants (sample_payment 11 PaymentStatus.approved) pack_item sample_world

refresh_example : Returns (IsRefreshed 1 sample_world) (refresh_credit_wallet 1 sample_world)
refresh_example = refresh-IsRefreshed 1 sample_world

abbrev grant_entry : CreditMutationInput
grant_entry = record {
  instructor_id = 1;
  credit_bucket_id = some 31;
  ledger_type = CreditLedgerType.grant;
  delta_amount = pos 7;
  reference_type = "PAYMENT_ITEM";
  reference_id = some 22;
  reason = "";
}

append_example :
    Returns
      (λ _ w'. IsAppended grant_entry sample_world w')
      (append_credit_ledger grant_entry sample_world)
append_example = append-IsAppended grant_entry sample_world

entitlement_end_example : 1000 ≤ calculate_monthly_entitlement_end_at 1000 1
entitlement_end_example = le-entitlement_end calendar-IsCalendar 1000 1 (omega arith)

credit_expiry_example : 1000 ≤ calculate_credit_expiry_at 1000 90
credit_expiry_example = le-credit_expiry calendar-IsCalendar 1000 90 (omega arith)

approve_example :
    Outcome
      (refuse_unless_pending not_approvable)
      (Approved 11 sample_actor none sample_world)
      sample_world
      (some (sample_payment 11 PaymentStatus.pending_deposit))
      (approve_in_transaction 11 sample_actor none sample_world)
approve_example = approve-Outcome 11 sample_actor none sample_world

reject_example :
    Outcome
      (refuse_unless_pending not_rejectable)
      (Rejected 11 sample_actor "" sample_world)
      sample_world
      (some (sample_payment 11 PaymentStatus.pending_deposit))
      (reject_in_transaction 11 sample_actor "" sample_world)
reject_example = reject-Outcome 11 sample_actor "" sample_world

cancel_example :
    Outcome
      (refuse_cancel 1)
      (Canceled 11 1 sample_actor sample_world)
      sample_world
      (some (sample_payment 11 PaymentStatus.pending_deposit))
      (cancel_in_transaction 11 1 sample_actor sample_world)
cancel_example = cancel-Outcome 11 1 sample_actor sample_world

guard_example :
    Returns
      (λ paid w'.
        (paid ≡ approve_at 1000 none (sample_payment 11 PaymentStatus.pending_deposit))
        × (update_payment_with_status_guard 11 (cancel_at 1001) PaymentStatus.pending_deposit w'
            ≡ (err (conflict transition_conflict), w')))
      (update_payment_with_status_guard 11
        (approve_at 1000 none)
        PaymentStatus.pending_deposit
        sample_world)
guard_example =
    guard_once 11 PaymentStatus.pending_deposit (approve_at 1000 none) (cancel_at 1001) sample_world
      (λ q. refl) (λ q. refl) refl refl

abbrev transfer : CreateBankTransferPaymentDto
transfer = record {
  product_id = 5;
  quantity = 2;
  depositor_name = "NAME";
  depositor_bank_name = "BANK";
  receipt_request = some (cash_receipt "010");
}

create_example :
    Requested 1 transfer sample_actor sample_world
      (some sample_product)
      (create_bank_transfer_payment 1 transfer sample_actor sample_world)
create_example = create-Requested 1 transfer sample_actor sample_world (ground arith)
