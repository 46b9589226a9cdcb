-- ===== src/Billing/Constants.antt =====
-- src/constants/billing.constant.ts: each `as const` object is a data type with one constructor for
-- each of its values, and `===` on them is a Boolean test by clauses.
use ssambee_be.Prelude.{ℕ, ◌≡◌, Bool, true, false, arith, ◌==◌}

pub data BillingProductType : Type 0 where
  pass_single pass_subscription credit_pack : BillingProductType

pub data BillingMode : Type 0 where
  one_time recurring : BillingMode

pub data PaymentMethodType : Type 0 where
  bank_transfer toss_link toss_billing : PaymentMethodType

pub data PaymentProviderType : Type 0 where
  manual toss : PaymentProviderType

pub data PaymentStatus : Type 0 where
  pending_deposit approved rejected canceled failed expired : PaymentStatus

pub data PaymentRefundStatus : Type 0 where
  not_refunded pending completed : PaymentRefundStatus

pub data EntitlementStatus : Type 0 where
  queued active expired canceled : EntitlementStatus

pub data CreditSourceType : Type 0 where
  entitlement_included recharge_pack : CreditSourceType

pub data CreditBucketStatus : Type 0 where
  active depleted expired canceled : CreditBucketStatus

pub data CreditLedgerType : Type 0 where
  grant use_credits expire adjust : CreditLedgerType

pub data RevocationTargetType : Type 0 where
  entitlement credit_bucket : RevocationTargetType

pub data RevocationActionType : Type 0 where
  cancel clawback : RevocationActionType

-- `IncludedCreditPolicy`
abbrev pub monthly_amount : ℕ
monthly_amount = 1000

abbrev pub recharge_expires_in_days : ℕ
recharge_expires_in_days = 90

abbrev pub is_pass_single : BillingProductType → Bool
is_pass_single BillingProductType.pass_single = true
is_pass_single BillingProductType.pass_subscription = false
is_pass_single BillingProductType.credit_pack = false

abbrev pub is_credit_pack : BillingProductType → Bool
is_credit_pack BillingProductType.credit_pack = true
is_credit_pack BillingProductType.pass_subscription = false
is_credit_pack BillingProductType.pass_single = false

-- `EXPOSED_BILLING_PRODUCT_TYPES.includes(productType)`
abbrev pub is_exposed_billing_product_type : BillingProductType → Bool
is_exposed_billing_product_type BillingProductType.pass_single = true
is_exposed_billing_product_type BillingProductType.credit_pack = true
is_exposed_billing_product_type BillingProductType.pass_subscription = false

abbrev pub is_bank_transfer : PaymentMethodType → Bool
is_bank_transfer PaymentMethodType.bank_transfer = true
is_bank_transfer PaymentMethodType.toss_link = false
is_bank_transfer PaymentMethodType.toss_billing = false

abbrev pub is_active_bucket : CreditBucketStatus → Bool
is_active_bucket CreditBucketStatus.active = true
is_active_bucket CreditBucketStatus.depleted = false
is_active_bucket CreditBucketStatus.expired = false
is_active_bucket CreditBucketStatus.canceled = false

abbrev pub is_recharge_pack : CreditSourceType → Bool
is_recharge_pack CreditSourceType.recharge_pack = true
is_recharge_pack CreditSourceType.entitlement_included = false

abbrev pub is_entitlement_included : CreditSourceType → Bool
is_entitlement_included CreditSourceType.entitlement_included = true
is_entitlement_included CreditSourceType.recharge_pack = false

abbrev pub is_queued : EntitlementStatus → Bool
is_queued EntitlementStatus.queued = true
is_queued EntitlementStatus.active = false
is_queued EntitlementStatus.expired = false
is_queued EntitlementStatus.canceled = false

abbrev pub is_active : EntitlementStatus → Bool
is_active EntitlementStatus.active = true
is_active EntitlementStatus.queued = false
is_active EntitlementStatus.expired = false
is_active EntitlementStatus.canceled = false

abbrev pub payment_status_code : PaymentStatus → ℕ
payment_status_code PaymentStatus.pending_deposit = 0
payment_status_code PaymentStatus.approved = 1
payment_status_code PaymentStatus.rejected = 2
payment_status_code PaymentStatus.canceled = 3
payment_status_code PaymentStatus.failed = 4
payment_status_code PaymentStatus.expired = 5

abbrev pub same_payment_status : PaymentStatus → PaymentStatus → Bool
same_payment_status s t = payment_status_code s == payment_status_code t

pub same_payment_status_sound : (s t : PaymentStatus) → same_payment_status s t ≡ true → s ≡ t
same_payment_status_sound s t h = ground arith
