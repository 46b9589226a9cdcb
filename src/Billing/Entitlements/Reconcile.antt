-- ===== src/Billing/Entitlements/Reconcile.antt =====
-- What `reconcileInstructorState` as a whole leaves.
use ssambee_be.Prelude.{ℕ, ◌≡◌, false, List, ◌==◌, All, HasDistinct, find_many, find_unique}
use ssambee_be.Prelude.Action.{pure, for_each, ◌>>=◌}
use ssambee_be.Prelude.OrderBy.{OrderBy, order_by}
use ssambee_be.Billing.Constants.{is_active}
use ssambee_be.Billing.Database.{CreditBucket, World, Billing}
use ssambee_be.Billing.Repo.{is_overdue_bucket, starts_before, list_entitlements_by_instructor}
use ssambee_be.Billing.Credits.{WalletSnapshot, expire_credit_bucket, refresh_credit_wallet}
use ssambee_be.Billing.Credits.Wallet.{available_total}
use ssambee_be.Billing.Credits.Consume.{bucket_id}
use ssambee_be.Billing.Entitlements.{ReconciledState}
use ssambee_be.Billing.Entitlements.Fates.{IsSettled}

module _ ⦃o : OrderBy⦄ (i now : ℕ) where
  -- What the reconciliation of an instructor leaves: the entitlements are settled, no active bucket
  -- is past its expiry, and it returns the wallet and the entitlements as they are then.
  pub record IsReconciled (w : World) (st : ReconciledState) (w' : World) : Type 0 where
    pub settled : IsSettled i now w.db.entitlements w'.db.entitlements
    pub cleared : All (λ b. is_overdue_bucket i now b ≡ false) w'.db.credit_buckets
    pub distinct : HasDistinct bucket_id w'.db.credit_buckets
    pub read_at : ℕ
    pub wallet_total : st.wallet.total_available ≡ available_total i read_at w'.db.credit_buckets
    pub listed :
        st.entitlements
        ≡ order_by starts_before (find_many (λ e. e.instructor_id == i) w'.db.entitlements)
    pub current : st.active_entitlement ≡ find_unique (λ e. is_active e.status) st.entitlements

  report : WalletSnapshot → Billing ReconciledState
  report wallet = do
    entitlements ← list_entitlements_by_instructor i
    pure (record {
      wallet = wallet;
      entitlements = entitlements;
      active_entitlement = find_unique (λ e. is_active e.status) entitlements;
    })

  expire_each : List CreditBucket → Billing ReconciledState
  expire_each bs = for_each (λ b. expire_credit_bucket b now >>= λ _. pure tt) bs >>= λ _.
      refresh_credit_wallet i >>= report
