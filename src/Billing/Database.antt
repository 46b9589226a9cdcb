-- ===== src/Billing/Database.antt =====
-- The billing tables of prisma/schema.prisma, as lists of rows, and the state that the service acts
-- on. Amounts are stored as naturals; the deltas of the ledger are signed.
use ssambee_be.Prelude.{ℕ, Bool, Option, List, String}
use ssambee_be.Prelude.Int.{ℤ}
use ssambee_be.Prelude.Action.{Action}
use ssambee_be.Billing.Constants.{
  BillingProductType, BillingMode, PaymentMethodType, PaymentProviderType, PaymentStatus,
  PaymentRefundStatus, EntitlementStatus, CreditSourceType, CreditBucketStatus, CreditLedgerType,
  RevocationTargetType, RevocationActionType,
}

pub record BillingProduct : Type 0 where
  pub id : ℕ
  pub code : String
  pub name : String
  pub product_type : BillingProductType
  pub billing_mode : BillingMode
  pub payment_method_type : PaymentMethodType
  pub duration_months : Option ℕ
  pub included_credit_amount : ℕ
  pub recharge_credit_amount : ℕ
  pub price : ℕ
  pub is_active_product : Bool

pub record Payment : Type 0 where
  pub id : ℕ
  pub instructor_id : ℕ
  pub method_type : PaymentMethodType
  pub provider_type : PaymentProviderType
  pub status : PaymentStatus
  pub refund_status : PaymentRefundStatus
  pub refund_memo : Option String
  pub refund_completed_at : Option ℕ
  pub depositor_name : Option String
  pub depositor_bank_name : Option String
  pub total_amount : ℕ
  pub deposited_at : Option ℕ
  pub approved_at : Option ℕ
  pub rejected_at : Option ℕ
  pub canceled_at : Option ℕ

pub record PaymentItem : Type 0 where
  pub id : ℕ
  pub payment_id : ℕ
  pub billing_product_id : ℕ
  pub product_code_snapshot : String
  pub product_name_snapshot : String
  pub product_type_snapshot : BillingProductType
  pub quantity : ℕ
  pub unit_price : ℕ
  pub total_price : ℕ
  pub duration_months_snapshot : Option ℕ
  pub included_credit_amount_snapshot : ℕ
  pub recharge_credit_amount_snapshot : ℕ
  pub recharge_expires_in_days_snapshot : Option ℕ

pub record PaymentStatusHistory : Type 0 where
  pub payment_id : ℕ
  pub from_status : Option PaymentStatus
  pub to_status : PaymentStatus
  pub actor_user_id : Option ℕ
  pub actor_role : Option String
  pub reason : Option String

pub record Entitlement : Type 0 where
  pub id : ℕ
  pub instructor_id : ℕ
  pub payment_item_id : ℕ
  pub sequence_no : ℕ
  pub status : EntitlementStatus
  pub starts_at : ℕ
  pub ends_at : ℕ
  pub activated_at : Option ℕ
  pub expired_at : Option ℕ
  pub canceled_at : Option ℕ
  pub included_credit_amount : ℕ

pub record CreditBucket : Type 0 where
  pub id : ℕ
  pub instructor_id : ℕ
  pub payment_item_id : Option ℕ
  pub entitlement_id : Option ℕ
  pub source_type : CreditSourceType
  pub status : CreditBucketStatus
  pub original_amount : ℕ
  pub remaining_amount : ℕ
  pub granted_at : ℕ
  pub expires_at : ℕ

pub record CreditWallet : Type 0 where
  pub instructor_id : ℕ
  pub total_available : ℕ
  pub included_available : ℕ
  pub recharge_available : ℕ
  pub last_reconciled_at : ℕ

pub record CreditLedger : Type 0 where
  pub instructor_id : ℕ
  pub credit_bucket_id : Option ℕ
  pub ledger_type : CreditLedgerType
  pub delta_amount : ℤ
  pub balance_after_total : ℕ
  pub balance_after_included : ℕ
  pub balance_after_recharge : ℕ
  pub reference_type : String
  pub reference_id : Option ℕ
  pub reason : String

-- The status column of a revocation history holds the status of an entitlement or of a bucket.
pub data TargetStatus : Type 0 where
  of_entitlement : EntitlementStatus → TargetStatus
  of_bucket : CreditBucketStatus → TargetStatus

pub record PaymentItemRevocationHistory : Type 0 where
  pub id : ℕ
  pub payment_id : ℕ
  pub payment_item_id : ℕ
  pub target_type : RevocationTargetType
  pub target_id : ℕ
  pub action_type : RevocationActionType
  pub from_status : TargetStatus
  pub to_status : TargetStatus
  pub delta_amount : ℤ
  pub actor_user_id : Option ℕ
  pub actor_role : Option String
  pub reason : String
  pub batch_id : ℕ

pub record BusinessReceipt : Type 0 where
  pub business_registration_number : String
  pub business_name : String
  pub representative_name : String
  pub tax_invoice_email : String
  pub business_type : Option String
  pub business_category : Option String
  pub business_address : Option String

-- The columns of a receipt request that depend on its type; `cash_receipt` has the phone number.
pub data ReceiptDetails : Type 0 where
  cash_receipt : String → ReceiptDetails
  business_receipt : BusinessReceipt → ReceiptDetails

pub record PaymentReceiptRequest : Type 0 where
  pub payment_id : ℕ
  pub details : ReceiptDetails

-- `next_id` stands for the identifiers that the database makes: each is new.
pub record Db : Type 0 where
  pub instructors : List ℕ
  pub products : List BillingProduct
  pub payments : List Payment
  pub payment_items : List PaymentItem
  pub status_histories : List PaymentStatusHistory
  pub entitlements : List Entitlement
  pub credit_buckets : List CreditBucket
  pub wallets : List CreditWallet
  pub ledgers : List CreditLedger
  pub receipt_requests : List PaymentReceiptRequest
  pub revocations : List PaymentItemRevocationHistory
  pub next_id : ℕ

-- `clock k` is what the k-th call of `new Date()` returns, and `reads` counts the calls so far.
pub record World : Type 0 where
  pub db : Db
  pub clock : ℕ → ℕ
  pub reads : ℕ

abbrev pub Billing : Type 0 → Type 0
Billing = Action World

-- The user on whose behalf an operation runs.
pub record Actor : Type 0 where
  pub user_id : Option ℕ
  pub role : Option String
