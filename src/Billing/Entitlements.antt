-- ===== src/Billing/Entitlements.antt =====
-- The entitlements of src/services/billing.service.ts: a pass gives one entitlement for each month,
-- and `reconcileInstructorState` expires and activates them as time goes on.
pub mod Provision
pub mod Fates
pub mod Settle
pub mod Effects
pub mod Buckets
pub mod Expiry
pub mod Reconcile
use ssambee_be.Prelude.{
  ℕ, zero, suc, ◌+◌, ◌*◌, Bool, true, false, Option, none, some, List, ◌==◌, if◌then◌else◌, get_or,
  head?, find_unique, not, is_some,
}
use ssambee_be.Prelude.Action.{Result, ok, err, pure, for_each, ◌>>=◌, ◌>>◌}
use ssambee_be.Prelude.OrderBy.{OrderBy}
use ssambee_be.Billing.Constants.{EntitlementStatus, is_active, monthly_amount}
use ssambee_be.Billing.Dates.{
  DateFns, calculate_monthly_entitlement_end_at, get_next_entitlement_start_at,
}
use ssambee_be.Billing.Database.{PaymentItem, Entitlement, Billing, World}
use ssambee_be.Billing.Repo.{
  update_entitlement, create_entitlement, find_latest_entitlement, list_entitlements_to_expire,
  find_active_entitlement, find_ready_queued_entitlement, list_credit_buckets_to_expire,
  list_entitlements_by_instructor,
}
use ssambee_be.Billing.Transactions.{transaction}
use ssambee_be.Billing.Credits.{
  WalletSnapshot, grant_included_credits_for_entitlement, expire_credit_bucket,
  refresh_credit_wallet,
}

-- `item.includedCreditAmountSnapshot || IncludedCreditPolicy.MONTHLY_AMOUNT`
abbrev or_monthly_amount : ℕ → ℕ
or_monthly_amount n = if n == 0 then monthly_amount else n

expire_entitlement : Entitlement → ℕ → Billing Entitlement
expire_entitlement e now =
    update_entitlement e.id
      λ f. record f { status = EntitlementStatus.expired; expired_at = some now }

module _ ⦃o : OrderBy⦄ where
  activate_entitlement : Entitlement → ℕ → Billing Entitlement
  activate_entitlement e now = do
    activated ←
        update_entitlement e.id
          λ f. record f { status = EntitlementStatus.active; activated_at = some now }
    grant_included_credits_for_entitlement activated
    pure activated

  -- The rounds of the `while` loop of `reconcileInstructorState`: `rest` is the loop after it.
  activate_ready : ℕ → Option Entitlement → Billing (Unit {0}) → Billing (Unit {0})
  activate_ready now none rest = pure tt
  activate_ready now (some e) rest = activate_entitlement e now >> rest

  settle_current : ℕ → ℕ → Option Entitlement → Billing (Unit {0}) → Billing (Unit {0})
  settle_current instructor_id now (some _) rest = pure tt
  settle_current instructor_id now none rest = do
    ready_queued ← find_ready_queued_entitlement instructor_id now
    activate_ready now ready_queued rest

  settle_overdue : ℕ → ℕ → Option Entitlement → Billing (Unit {0}) → Billing (Unit {0})
  settle_overdue instructor_id now (some e) rest = expire_entitlement e now >> rest
  settle_overdue instructor_id now none rest = do
    current ← find_active_entitlement instructor_id now
    settle_current instructor_id now current rest

  -- The loop, on the rounds that its guard leaves.
  pub settle_entitlements : ℕ → ℕ → ℕ → Billing (Unit {0})
  settle_entitlements zero instructor_id now = pure tt
  settle_entitlements (suc guard) instructor_id now = do
    overdue ← list_entitlements_to_expire now instructor_id
    settle_overdue instructor_id now (head? overdue) (settle_entitlements guard instructor_id now)

  pub record ReconciledState : Type 0 where
    pub wallet : WalletSnapshot
    pub entitlements : List Entitlement
    pub active_entitlement : Option Entitlement

  -- `reconcileInstructorState` without an abort signal.
  pub reconcile_instructor_state : ℕ → ℕ → Billing ReconciledState
  reconcile_instructor_state instructor_id now = transaction do
    settle_entitlements 120 instructor_id now
    expiring_buckets ← list_credit_buckets_to_expire now instructor_id
    for_each (λ b. expire_credit_bucket b now >> pure tt) expiring_buckets
    wallet ← refresh_credit_wallet instructor_id
    entitlements ← list_entitlements_by_instructor instructor_id
    pure (record {
      wallet = wallet;
      entitlements = entitlements;
      active_entitlement = find_unique (λ e. is_active e.status) entitlements;
    })

  module _ ⦃d : DateFns⦄ (instructor_id : ℕ) (item : PaymentItem) (now : ℕ) where
    -- The row of one round of the loop of `provisionPassEntitlements`.
    new_entitlement : ℕ → ℕ → Bool → ℕ → Entitlement
    new_entitlement sequence_no starts_at activate id = record {
      id = id;
      instructor_id = instructor_id;
      payment_item_id = item.id;
      sequence_no = sequence_no;
      status = if activate then EntitlementStatus.active else EntitlementStatus.queued;
      starts_at = starts_at;
      ends_at = calculate_monthly_entitlement_end_at starts_at 1;
      activated_at = if activate then some now else none;
      expired_at = none;
      canceled_at = none;
      included_credit_amount = or_monthly_amount item.included_credit_amount_snapshot;
    }

    -- The loop on the rounds left, `sequenceNo`, `cursorStartAt` and `shouldActivateImmediately`.
    provision_months : ℕ → ℕ → ℕ → Bool → Billing (Unit {0})
    provision_months zero sequence_no cursor_start_at activate = pure tt
    provision_months (suc rounds) sequence_no cursor_start_at activate = do
      entitlement ← create_entitlement (new_entitlement sequence_no cursor_start_at activate)
      if activate then (grant_included_credits_for_entitlement entitlement >> pure tt) else pure tt
      provision_months rounds (sequence_no + 1)
          (get_next_entitlement_start_at (calculate_monthly_entitlement_end_at cursor_start_at 1))
          false

    -- `cursorStartAt` before the loop.
    abbrev pub first_start_at : Option Entitlement → ℕ
    first_start_at none = now
    first_start_at (some latest) = get_next_entitlement_start_at latest.ends_at

    pub provision_pass_entitlements : Billing (Unit {0})
    provision_pass_entitlements = do
      let total_entitlement_count = get_or item.duration_months_snapshot 1 * item.quantity
      latest ← find_latest_entitlement instructor_id
      provision_months total_entitlement_count 1 (first_start_at latest) (not (is_some latest))
