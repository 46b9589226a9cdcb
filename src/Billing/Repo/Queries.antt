-- ===== src/Billing/Repo/Queries.antt =====
-- The reads of src/repos/billing.repo.ts: each is a `where` clause over a table, and an `orderBy`.
use ssambee_be.Prelude.{
  ℕ, suc, Bool, true, false, ◌&&◌, Option, none, some, List, ltb, leb, ◌==◌, if◌then◌else◌, head?,
  find_many, find_unique,
}
use ssambee_be.Prelude.Action.{ok, gets, ◌>>=◌}
use ssambee_be.Prelude.OrderBy.{OrderBy, order_by}
use ssambee_be.Billing.Constants.{
  is_active, is_queued, is_active_bucket, is_entitlement_included, is_recharge_pack,
}
use ssambee_be.Billing.Database.{
  BillingProduct, Payment, PaymentItem, Entitlement, CreditBucket, Billing,
}

-- `new Date()`
unfoldable pub new_date : Billing ℕ
new_date w = (ok (w.clock w.reads), record w { reads = suc w.reads })

-- A column that may be null equals a value.
abbrev pub is_id : Option ℕ → ℕ → Bool
is_id none k = false
is_id (some j) k = j == k

-- `expiresAt: { gt: now }` among the rest of the `where` clause of `listActiveCreditBuckets`.
abbrev pub is_available : ℕ → ℕ → CreditBucket → Bool
is_available instructor_id now b =
    b.instructor_id == instructor_id
    && is_active_bucket b.status
    && ltb 0 b.remaining_amount
    && ltb now b.expires_at

-- `orderBy: [{ expiresAt: 'asc' }, { grantedAt: 'asc' }, { id: 'asc' }]`
abbrev pub bucket_before : CreditBucket → CreditBucket → Bool
bucket_before a b =
    if a.expires_at == b.expires_at
    then if a.granted_at == b.granted_at then leb a.id b.id else ltb a.granted_at b.granted_at
    else ltb a.expires_at b.expires_at

-- `orderBy: [{ startsAt: 'asc' }, { sequenceNo: 'asc' }]`
abbrev pub starts_before : Entitlement → Entitlement → Bool
starts_before a b =
    if a.starts_at == b.starts_at
    then leb a.sequence_no b.sequence_no
    else ltb a.starts_at b.starts_at

-- `orderBy: [{ endsAt: 'desc' }, { sequenceNo: 'desc' }]`
abbrev pub ends_after : Entitlement → Entitlement → Bool
ends_after a b =
    if a.ends_at == b.ends_at then leb b.sequence_no a.sequence_no else ltb b.ends_at a.ends_at

-- An ACTIVE or QUEUED entitlement of the instructor.
abbrev pub is_pending_entitlement : ℕ → Entitlement → Bool
is_pending_entitlement instructor_id e =
    e.instructor_id == instructor_id && (if is_active e.status then true else is_queued e.status)

abbrev pub is_current : ℕ → ℕ → Entitlement → Bool
is_current instructor_id now e =
    e.instructor_id == instructor_id && is_active e.status && ltb now e.ends_at

abbrev pub is_ready : ℕ → ℕ → Entitlement → Bool
is_ready instructor_id now e =
    e.instructor_id == instructor_id
    && is_queued e.status
    && leb e.starts_at now
    && ltb now e.ends_at

abbrev pub is_overdue : ℕ → ℕ → Entitlement → Bool
is_overdue instructor_id now e =
    e.instructor_id == instructor_id && is_active e.status && leb e.ends_at now

abbrev pub is_overdue_bucket : ℕ → ℕ → CreditBucket → Bool
is_overdue_bucket instructor_id now b =
    b.instructor_id == instructor_id && is_active_bucket b.status && leb b.expires_at now

abbrev pub is_included_bucket_of : ℕ → CreditBucket → Bool
is_included_bucket_of entitlement_id b =
    is_id b.entitlement_id entitlement_id && is_entitlement_included b.source_type

abbrev pub is_recharge_bucket_of : ℕ → CreditBucket → Bool
is_recharge_bucket_of payment_item_id b =
    is_id b.payment_item_id payment_item_id && is_recharge_pack b.source_type

unfoldable pub find_instructor_by_id : ℕ → Billing (Option ℕ)
find_instructor_by_id id = gets λ w. find_unique (λ i. i == id) w.db.instructors

unfoldable pub find_product_by_id : ℕ → Billing (Option BillingProduct)
find_product_by_id id = gets λ w. find_unique (λ p. p.id == id) w.db.products

-- The payment's own row; its items are `list_payment_items`.
unfoldable pub find_payment_by_id : ℕ → Billing (Option Payment)
find_payment_by_id id = gets λ w. find_unique (λ p. p.id == id) w.db.payments

unfoldable pub list_payment_items : ℕ → Billing (List PaymentItem)
list_payment_items payment_id =
    gets λ w. find_many (λ i. i.payment_id == payment_id) w.db.payment_items

unfoldable pub find_included_credit_bucket_by_entitlement_id : ℕ → Billing (Option CreditBucket)
find_included_credit_bucket_by_entitlement_id id =
    gets λ w. find_unique (is_included_bucket_of id) w.db.credit_buckets

unfoldable pub find_recharge_credit_bucket_by_payment_item_id : ℕ → Billing (Option CreditBucket)
find_recharge_credit_bucket_by_payment_item_id id =
    gets λ w. find_unique (is_recharge_bucket_of id) w.db.credit_buckets

module _ ⦃o : OrderBy⦄ where
  -- With the transaction in the place of the time, `resolveNowAndTx` reads the clock.
  unfoldable pub list_active_credit_buckets : ℕ → Billing (List CreditBucket)
  unfolding new_date
  list_active_credit_buckets instructor_id = do
    now ← new_date
    gets
        λ w. order_by bucket_before (find_many (is_available instructor_id now) w.db.credit_buckets)

  unfoldable pub list_credit_buckets_to_expire : ℕ → ℕ → Billing (List CreditBucket)
  list_credit_buckets_to_expire now instructor_id = gets λ w.
      order_by (λ a b. leb a.expires_at b.expires_at)
        (find_many (is_overdue_bucket instructor_id now) w.db.credit_buckets)

  unfoldable pub find_latest_entitlement : ℕ → Billing (Option Entitlement)
  find_latest_entitlement instructor_id = gets λ w.
      head?
        (order_by ends_after (find_many (is_pending_entitlement instructor_id) w.db.entitlements))

  unfoldable pub find_active_entitlement : ℕ → ℕ → Billing (Option Entitlement)
  find_active_entitlement instructor_id now = gets λ w. head? (
      order_by (λ a b. leb a.starts_at b.starts_at)
        (find_many (is_current instructor_id now) w.db.entitlements))

  unfoldable pub find_ready_queued_entitlement : ℕ → ℕ → Billing (Option Entitlement)
  find_ready_queued_entitlement instructor_id now =
      gets λ w.
        head? (order_by starts_before (find_many (is_ready instructor_id now) w.db.entitlements))

  unfoldable pub list_entitlements_to_expire : ℕ → ℕ → Billing (List Entitlement)
  list_entitlements_to_expire now instructor_id = gets λ w.
      order_by (λ a b. leb a.ends_at b.ends_at)
        (find_many (is_overdue instructor_id now) w.db.entitlements)

  unfoldable pub list_entitlements_by_instructor : ℕ → Billing (List Entitlement)
  list_entitlements_by_instructor instructor_id = gets λ w.
      order_by starts_before (find_many (λ e. e.instructor_id == instructor_id) w.db.entitlements)
