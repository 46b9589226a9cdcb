-- ===== src/Billing/Repo/Writes.antt =====
-- The writes of src/repos/billing.repo.ts. A row to insert is given as a function of its new `id`,
-- and the `data` of an update as a function on the row.
use ssambee_be.Prelude.{
  ℕ, suc, Bool, ◌&&◌, Option, none, some, List, [], ◌∷◌, ◌++◌, ◌==◌, if◌then◌else◌, find_unique,
  update_many, count_where, upsert_row,
}
use ssambee_be.Prelude.Action.{record_not_found, ok, err, modify}
use ssambee_be.Billing.Constants.{PaymentStatus, same_payment_status}
use ssambee_be.Billing.Database.{
  Payment, PaymentItem, PaymentStatusHistory, Entitlement, CreditBucket, CreditWallet, CreditLedger,
  PaymentItemRevocationHistory, PaymentReceiptRequest, Billing, World,
}
use ssambee_be.Billing.Repo.Queries.{is_included_bucket_of, is_recharge_bucket_of}

-- The tables of a world, replaced one at a time.
abbrev pub set_buckets : List CreditBucket → World → World
set_buckets rows w = record w { db = record (w.db) { credit_buckets = rows } }

abbrev pub set_entitlements : List Entitlement → World → World
set_entitlements rows w = record w { db = record (w.db) { entitlements = rows } }

abbrev pub set_payments : List Payment → World → World
set_payments rows w = record w { db = record (w.db) { payments = rows } }

unfoldable pub create_payment : (ℕ → Payment) → Billing Payment
create_payment row w =
    let new = row w.db.next_id in
    (
      ok new,
      record w {
        db = record (w.db) { payments = w.db.payments ++ (new ∷ []); next_id = suc w.db.next_id };
      },
    )

-- Without an expected status: `update`, which throws on a missing row.
unfoldable pub update_payment : ℕ → (Payment → Payment) → Billing Payment
update_payment id change w = elim (find_unique (λ p. p.id == id) w.db.payments) [
  | none ↦ (err record_not_found, w)
  | some p ↦ (ok (change p), set_payments (update_many (λ q. q.id == id) change w.db.payments) w)
]

-- With one: `updateMany` on the rows that still have it, then `findUnique`; `none` is null.
unfoldable pub update_payment_if :
    ℕ → (Payment → Payment) → PaymentStatus → Billing (Option Payment)
update_payment_if id change expected w =
    let matches : Payment → Bool = λ p. p.id == id && same_payment_status p.status expected in
    if count_where matches w.db.payments == 0
    then (ok none, w)
    else let rows = update_many matches change w.db.payments in
      (ok (find_unique (λ p. p.id == id) rows), set_payments rows w)

unfoldable pub create_payment_item : (ℕ → PaymentItem) → Billing PaymentItem
create_payment_item row w =
    let new = row w.db.next_id in
    (
      ok new,
      record w {
        db = record (w.db) {
          payment_items = w.db.payment_items ++ (new ∷ []);
          next_id = suc w.db.next_id;
        };
      },
    )

unfoldable pub create_payment_status_history : PaymentStatusHistory → Billing (Unit {0})
create_payment_status_history row =
    modify λ w. record w {
      db = record (w.db) { status_histories = w.db.status_histories ++ (row ∷ []) };
    }

unfoldable pub create_receipt_request : PaymentReceiptRequest → Billing (Unit {0})
create_receipt_request row =
    modify λ w. record w {
      db = record (w.db) { receipt_requests = w.db.receipt_requests ++ (row ∷ []) };
    }

unfoldable pub create_entitlement : (ℕ → Entitlement) → Billing Entitlement
create_entitlement row w =
    let new = row w.db.next_id in
    (
      ok new,
      record w {
        db = record (w.db) {
          entitlements = w.db.entitlements ++ (new ∷ []);
          next_id = suc w.db.next_id;
        };
      },
    )

unfoldable pub update_entitlement : ℕ → (Entitlement → Entitlement) → Billing Entitlement
update_entitlement id change w = elim (find_unique (λ e. e.id == id) w.db.entitlements) [
  | none ↦ (err record_not_found, w)
  | some e ↦
      (ok (change e), set_entitlements (update_many (λ f. f.id == id) change w.db.entitlements) w)
]

unfoldable pub update_credit_bucket : ℕ → (CreditBucket → CreditBucket) → Billing CreditBucket
update_credit_bucket id change w = elim (find_unique (λ b. b.id == id) w.db.credit_buckets) [
  | none ↦ (err record_not_found, w)
  | some b ↦
      (ok (change b), set_buckets (update_many (λ c. c.id == id) change w.db.credit_buckets) w)
]

abbrev pub insert_bucket : CreditBucket → World → World
insert_bucket new w = record w {
  db = record (w.db) {
    credit_buckets = w.db.credit_buckets ++ (new ∷ []);
    next_id = suc w.db.next_id;
  };
}

create_credit_bucket : (ℕ → CreditBucket) → Billing CreditBucket
create_credit_bucket row w = let new = row w.db.next_id in (ok new, insert_bucket new w)

-- The `update` part of the two upserts of a bucket.
abbrev renew_bucket : CreditBucket → CreditBucket → CreditBucket
renew_bucket payload b = record b {
  source_type = payload.source_type;
  original_amount = payload.original_amount;
  remaining_amount = payload.remaining_amount;
  expires_at = payload.expires_at;
  status = payload.status;
}

unfoldable pub upsert_included_credit_bucket : ℕ → (ℕ → CreditBucket) → Billing CreditBucket
unfolding create_credit_bucket
upsert_included_credit_bucket entitlement_id row w =
    elim (find_unique (is_included_bucket_of entitlement_id) w.db.credit_buckets) [
      | none ↦ create_credit_bucket row w
      | some b ↦
          let change = renew_bucket (row b.id) in
          (
            ok (change b),
            set_buckets
                (update_many (is_included_bucket_of entitlement_id) change w.db.credit_buckets) w,
          )
    ]

unfoldable pub upsert_recharge_credit_bucket : ℕ → (ℕ → CreditBucket) → Billing CreditBucket
unfolding create_credit_bucket
upsert_recharge_credit_bucket payment_item_id row w =
    elim (find_unique (is_recharge_bucket_of payment_item_id) w.db.credit_buckets) [
      | none ↦ create_credit_bucket row w
      | some b ↦
          let change = renew_bucket (row b.id) in
          (
            ok (change b),
            set_buckets
                (update_many (is_recharge_bucket_of payment_item_id) change w.db.credit_buckets) w,
          )
    ]

unfoldable pub upsert_credit_wallet : CreditWallet → Billing (Unit {0})
upsert_credit_wallet wallet = modify λ w. record w {
  db = record (w.db) { wallets = upsert_row (λ v. v.instructor_id) wallet w.db.wallets };
}

unfoldable pub create_credit_ledger : CreditLedger → Billing (Unit {0})
create_credit_ledger row =
    modify λ w. record w { db = record (w.db) { ledgers = w.db.ledgers ++ (row ∷ []) } }

unfoldable pub create_payment_item_revocation_history :
    (ℕ → PaymentItemRevocationHistory) → Billing PaymentItemRevocationHistory
create_payment_item_revocation_history row w =
    let new = row w.db.next_id in
    (
      ok new,
      record w {
        db = record (w.db) {
          revocations = w.db.revocations ++ (new ∷ []);
          next_id = suc w.db.next_id;
        };
      },
    )
