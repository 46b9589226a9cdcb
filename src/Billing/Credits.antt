-- ===== src/Billing/Credits.antt =====
-- The credits of src/services/billing.service.ts: the wallet, the ledger, and the buckets that are
-- granted, used up and expired. Their theorems stand in the modules below.
pub mod Wallet
pub mod Grants
pub mod Recharges
pub mod Consume
use ssambee_be.Prelude.{
  ℕ, ◌-◌, ◌*◌, min, Bool, Option, none, some, List, [], ◌∷◌, foldl, String, ltb, leb, ◌==◌,
  if◌then◌else◌, get_or, ◌+◌,
}
use ssambee_be.Prelude.Int.{ℤ, negate, pos}
use ssambee_be.Prelude.Action.{pure, ◌>>=◌, ◌>>◌}
use ssambee_be.Prelude.OrderBy.{OrderBy}
use ssambee_be.Billing.Constants.{
  CreditSourceType, CreditBucketStatus, CreditLedgerType, is_active_bucket, is_recharge_pack,
  is_entitlement_included, recharge_expires_in_days,
}
use ssambee_be.Billing.Dates.{DateFns, calculate_credit_expiry_at}
use ssambee_be.Billing.Database.{Payment, PaymentItem, Entitlement, CreditBucket, Billing}
use ssambee_be.Billing.Repo.{
  new_date, list_active_credit_buckets, upsert_credit_wallet, create_credit_ledger,
  find_included_credit_bucket_by_entitlement_id, find_recharge_credit_bucket_by_payment_item_id,
  upsert_included_credit_bucket, upsert_recharge_credit_bucket, update_credit_bucket,
}

-- The amounts of `refreshCreditWallet`, without `lastReconciledAt`.
pub record WalletSnapshot : Type 0 where
  pub total_available : ℕ
  pub included_available : ℕ
  pub recharge_available : ℕ

abbrev pub add_bucket : WalletSnapshot → CreditBucket → WalletSnapshot
add_bucket acc b = record {
  total_available = acc.total_available + b.remaining_amount;
  included_available =
      acc.included_available
      + (if is_entitlement_included b.source_type then b.remaining_amount else 0);
  recharge_available =
      acc.recharge_available + (if is_recharge_pack b.source_type then b.remaining_amount else 0);
}

abbrev pub empty_snapshot : WalletSnapshot
empty_snapshot = record { total_available = 0; included_available = 0; recharge_available = 0 }

pub record CreditMutationInput : Type 0 where
  pub instructor_id : ℕ
  pub credit_bucket_id : Option ℕ
  pub ledger_type : CreditLedgerType
  pub delta_amount : ℤ
  pub reference_type : String
  pub reference_id : Option ℕ
  pub reason : String

-- `t ?? new Date()`
abbrev pub or_now : Option ℕ → Billing ℕ
or_now none = new_date
or_now (some t) = pure t

-- `getRechargeCreditExpiryDays`
abbrev pub get_recharge_credit_expiry_days : PaymentItem → ℕ
get_recharge_credit_expiry_days item =
    get_or item.recharge_expires_in_days_snapshot recharge_expires_in_days

module _ ⦃o : OrderBy⦄ where
  unfoldable pub refresh_credit_wallet : ℕ → Billing WalletSnapshot
  unfolding list_active_credit_buckets upsert_credit_wallet
  refresh_credit_wallet instructor_id = do
    active_buckets ← list_active_credit_buckets instructor_id
    let snapshot = foldl add_bucket empty_snapshot active_buckets
    now ← new_date
    upsert_credit_wallet (record {
      instructor_id = instructor_id;
      total_available = snapshot.total_available;
      included_available = snapshot.included_available;
      recharge_available = snapshot.recharge_available;
      last_reconciled_at = now;
    })
    pure snapshot

  unfoldable pub append_credit_ledger : CreditMutationInput → Billing (Unit {0})
  unfolding create_credit_ledger
  append_credit_ledger input = do
    snapshot ← refresh_credit_wallet input.instructor_id
    create_credit_ledger (record {
      instructor_id = input.instructor_id;
      credit_bucket_id = input.credit_bucket_id;
      ledger_type = input.ledger_type;
      delta_amount = input.delta_amount;
      balance_after_total = snapshot.total_available;
      balance_after_included = snapshot.included_available;
      balance_after_recharge = snapshot.recharge_available;
      reference_type = input.reference_type;
      reference_id = input.reference_id;
      reason = input.reason;
    })

  new_included_bucket : Entitlement → ℕ → ℕ → CreditBucket
  new_included_bucket e granted_at id = record {
    id = id;
    instructor_id = e.instructor_id;
    payment_item_id = some e.payment_item_id;
    entitlement_id = some e.id;
    source_type = CreditSourceType.entitlement_included;
    status = CreditBucketStatus.active;
    original_amount = e.included_credit_amount;
    remaining_amount = e.included_credit_amount;
    granted_at = granted_at;
    expires_at = e.ends_at;
  }

  record_included_grant : Entitlement → CreditBucket → Billing CreditBucket
  record_included_grant e bucket = do
    append_credit_ledger (record {
      instructor_id = e.instructor_id;
      credit_bucket_id = some bucket.id;
      ledger_type = CreditLedgerType.grant;
      delta_amount = pos e.included_credit_amount;
      reference_type = "ENTITLEMENT";
      reference_id = some e.id;
      reason = "이용권 기본 크레딧 지급";
    })
    pure bucket

  upsert_included_bucket : Entitlement → ℕ → Billing CreditBucket
  unfolding new_included_bucket record_included_grant
  upsert_included_bucket e granted_at = do
    bucket ← upsert_included_credit_bucket e.id (new_included_bucket e granted_at)
    record_included_grant e bucket

  create_included_bucket : Entitlement → Billing CreditBucket
  unfolding upsert_included_bucket
  create_included_bucket e = do upsert_included_bucket e (← or_now e.activated_at)

  keep_or_create_included : Entitlement → Option CreditBucket → Billing CreditBucket
  keep_or_create_included e (some bucket) = pure bucket
  keep_or_create_included e none = create_included_bucket e

  pub grant_included_credits_for_entitlement : Entitlement → Billing CreditBucket
  unfolding keep_or_create_included create_included_bucket
  grant_included_credits_for_entitlement e = do
    existing ← find_included_credit_bucket_by_entitlement_id e.id
    keep_or_create_included e existing

  expire_reason : ℕ → CreditBucket → String
  expire_reason now b = if leb b.expires_at now then "크레딧 만료" else "이용권 만료"

  pub expiry_entry : CreditBucket → ℕ → CreditMutationInput
  unfolding expire_reason
  expiry_entry b now = record {
    instructor_id = b.instructor_id;
    credit_bucket_id = some b.id;
    ledger_type = CreditLedgerType.expire;
    delta_amount = negate b.remaining_amount;
    reference_type = "CREDIT_BUCKET";
    reference_id = some b.id;
    reason = expire_reason now b;
  }

  unfoldable pub expire_active_bucket : CreditBucket → ℕ → Billing CreditBucket
  unfolding update_credit_bucket expiry_entry
  expire_active_bucket b now = do
    expired ←
        update_credit_bucket b.id
          λ c. record c { status = CreditBucketStatus.expired; remaining_amount = 0 }
    if ltb 0 b.remaining_amount
        then append_credit_ledger (expiry_entry b now)
        else (refresh_credit_wallet b.instructor_id >> pure tt)
    pure expired

  unfoldable pub expire_credit_bucket : CreditBucket → ℕ → Billing CreditBucket
  unfolding expire_active_bucket
  expire_credit_bucket b now =
      if is_active_bucket b.status then expire_active_bucket b now else pure b

  module _ ⦃d : DateFns⦄ where
    new_recharge_bucket : Payment → PaymentItem → ℕ → ℕ → ℕ → CreditBucket
    new_recharge_bucket payment item granted_at expires_at id = record {
      id = id;
      instructor_id = payment.instructor_id;
      payment_item_id = some item.id;
      entitlement_id = none;
      source_type = CreditSourceType.recharge_pack;
      status = CreditBucketStatus.active;
      original_amount = item.recharge_credit_amount_snapshot * item.quantity;
      remaining_amount = item.recharge_credit_amount_snapshot * item.quantity;
      granted_at = granted_at;
      expires_at = expires_at;
    }

    record_recharge_grant : Payment → PaymentItem → CreditBucket → Billing (Option CreditBucket)
    record_recharge_grant payment item bucket = do
      append_credit_ledger (record {
        instructor_id = payment.instructor_id;
        credit_bucket_id = some bucket.id;
        ledger_type = CreditLedgerType.grant;
        delta_amount = pos (item.recharge_credit_amount_snapshot * item.quantity);
        reference_type = "PAYMENT_ITEM";
        reference_id = some item.id;
        reason = "충전권 크레딧 지급";
      })
      pure (some bucket)

    upsert_recharge_bucket : Payment → PaymentItem → ℕ → ℕ → Billing (Option CreditBucket)
    unfolding new_recharge_bucket record_recharge_grant
    upsert_recharge_bucket payment item granted_at base_at = do
      let expires_at = calculate_credit_expiry_at base_at (get_recharge_credit_expiry_days item)
      bucket ←
          upsert_recharge_credit_bucket item.id
            (new_recharge_bucket payment item granted_at expires_at)
      record_recharge_grant payment item bucket

    create_recharge_bucket : Payment → PaymentItem → Billing (Option CreditBucket)
    unfolding upsert_recharge_bucket
    create_recharge_bucket payment item = do
      granted_at ← or_now payment.approved_at
      base_at ← or_now payment.approved_at
      upsert_recharge_bucket payment item granted_at base_at

    keep_or_create_recharge :
        Payment → PaymentItem → Option CreditBucket → Billing (Option CreditBucket)
    keep_or_create_recharge payment item (some bucket) = pure (some bucket)
    keep_or_create_recharge payment item none =
        if leb (item.recharge_credit_amount_snapshot * item.quantity) 0
        then pure none
        else create_recharge_bucket payment item

    pub grant_recharge_credits : Payment → PaymentItem → Billing (Option CreditBucket)
    unfolding keep_or_create_recharge create_recharge_bucket
    grant_recharge_credits payment item = do
      existing ← find_recharge_credit_bucket_by_payment_item_id item.id
      keep_or_create_recharge payment item existing

-- What the caller of `consumeCredits` says the credits are used for.
pub record Reference : Type 0 where
  pub reference_type : String
  pub reference_id : Option ℕ
  pub reason : Option String

-- The `data` of the update: `nextRemaining`, and the status that follows from it.
abbrev pub take_from : CreditBucket → ℕ → CreditBucket → CreditBucket
take_from b amount c =
    let next_remaining = b.remaining_amount - amount in
    record c {
      remaining_amount = next_remaining;
      status =
          if next_remaining == 0 then CreditBucketStatus.depleted else CreditBucketStatus.active;
    }

module _ ⦃o : OrderBy⦄ (instructor_id : ℕ) (reference : Reference) where
  use_entry : CreditBucket → ℕ → CreditMutationInput
  use_entry b amount = record {
    instructor_id = instructor_id;
    credit_bucket_id = some b.id;
    ledger_type = CreditLedgerType.use_credits;
    delta_amount = negate amount;
    reference_type = reference.reference_type;
    reference_id = reference.reference_id;
    reason = get_or reference.reason "크레딧 사용";
  }

  -- The body of the loop of `consumeCredits`: takes `amount` credits from the bucket.
  consume_bucket : CreditBucket → ℕ → Billing (Unit {0})
  unfolding use_entry
  consume_bucket b amount = do
    update_credit_bucket b.id (take_from b amount)
    append_credit_ledger (use_entry b amount)

  -- The loop, on the buckets left and `remainingToUse`.
  pub consume_buckets : List CreditBucket → ℕ → Billing (Unit {0})
  consume_buckets [] remaining_to_use = pure tt
  consume_buckets (b ∷ bs) remaining_to_use =
      let consume_amount = min b.remaining_amount remaining_to_use in
      let rest = consume_buckets bs (remaining_to_use - consume_amount) in
      if leb remaining_to_use 0 then pure tt else (consume_bucket b consume_amount >> rest)
