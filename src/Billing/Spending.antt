-- ===== src/Billing/Spending.antt =====
-- `consumeCredits` of src/services/billing.service.ts.
pub mod Consumption
pub mod Whole
pub mod Ledger
use ssambee_be.Prelude.{ℕ, ◌+◌, Bool, foldl, ltb}
use ssambee_be.Prelude.Int.{ℤ, pos, pos_part, leb_ℤ}
use ssambee_be.Prelude.Action.{bad_request, throw_if, pure, ◌>>=◌, ◌>>◌}
use ssambee_be.Prelude.OrderBy.{OrderBy}
use ssambee_be.Billing.Database.{CreditBucket, Billing}
use ssambee_be.Billing.Repo.{new_date, list_active_credit_buckets}
use ssambee_be.Billing.Transactions.{run_serializable_transaction_with_retry}
use ssambee_be.Billing.Credits.{WalletSnapshot, Reference, refresh_credit_wallet, consume_buckets}
use ssambee_be.Billing.Entitlements.{reconcile_instructor_state}

pub record Consumed : Type 0 where
  pub consumed_amount : ℕ
  pub wallet : WalletSnapshot

abbrev pub add_remaining : ℕ → CreditBucket → ℕ
add_remaining sum b = sum + b.remaining_amount

module _ ⦃o : OrderBy⦄ (instructor_id : ℕ) (reference : Reference) where
  -- The operation of the transaction.
  pub use_credits : ℕ → Billing Consumed
  use_credits amount = do
    active_buckets ← list_active_credit_buckets instructor_id
    throw_if (ltb (foldl add_remaining 0 active_buckets) amount)
        (bad_request "INSUFFICIENT_CREDITS")
    consume_buckets instructor_id reference active_buckets amount
    wallet ← refresh_credit_wallet instructor_id
    pure (record { consumed_amount = amount; wallet = wallet })

  pub consume_credits : (ℕ → Bool) → ℤ → Billing Consumed
  consume_credits aborts amount = do
    throw_if (leb_ℤ amount (pos 0)) (bad_request "차감할 크레딧은 1 이상이어야 합니다.")
    now ← new_date
    reconcile_instructor_state instructor_id now
    run_serializable_transaction_with_retry aborts (use_credits (pos_part amount))
