-- ===== src/Billing/Samples.antt =====
-- Concrete parameters, tables and rows that the tests of the billing modules run on: an insertion
-- sort for `orderBy`, a calendar whose months have 30 days, and the tables of two instructors.
use mathlib.Core.List.{Perm}
use mathlib.Core.List.Perm
use ssambee_be.Prelude.{
  ℕ, ◌+◌, ◌*◌, ◌-◌, ◌/◌, refl, Bool, true, Option, none, some, List, [], ◌∷◌, arith, if◌then◌else◌,
  inl, inr, Bool-cases, ◌≡◌, true, false, All, All-map,
}
use ssambee_be.Prelude.OrderBy.{OrderBy, IsSortedBy, IsTotal, IsTransitive, IsSorting}
use ssambee_be.Billing.Constants.{
  BillingMode, BillingProductType, PaymentMethodType, PaymentProviderType, PaymentStatus,
  PaymentRefundStatus, EntitlementStatus, CreditSourceType, CreditBucketStatus,
}
use ssambee_be.Billing.Dates.{DateFns, IsCalendar, day_ms}
use ssambee_be.Billing.Database.{
  BillingProduct, Payment, PaymentItem, Entitlement, CreditBucket, Db, World, Actor,
}

module _ {A : Type 0} (before : A → A → Bool) where
  abbrev insert : A → List A → List A
  insert x [] = x ∷ []
  insert x (y ∷ ys) = let rest = insert x ys in if before x y then x ∷ y ∷ ys else y ∷ rest

  abbrev pub insertion_sort : List A → List A
  insertion_sort [] = []
  insertion_sort (x ∷ xs) = insert x (insertion_sort xs)

  insert-Perm : (x : A) (ys : List A) → Perm (insert x ys) (x ∷ ys)
  insert-Perm x [] = Perm.rfl
  insert-Perm x (y ∷ ys) = elim (Bool-cases (before x y)) [
    | inl e ↦ rw e Perm.rfl
    | inr e ↦ rw e (Perm.trans (Perm.cons y (insert-Perm x ys)) (Perm.swap x y ys))
  ]

  pub insertion_sort-Perm : (xs : List A) → Perm (insertion_sort xs) xs
  insertion_sort-Perm [] = Perm.nil
  insertion_sort-Perm (x ∷ xs) =
      Perm.trans (insert-Perm x (insertion_sort xs)) (Perm.cons x (insertion_sort-Perm xs))

  insert-All : (P : A → Type 0) (x : A) (ys : List A) → P x → All P ys → All P (insert x ys)
  insert-All P x [] h all = (h, tt)
  insert-All P x (y ∷ ys) h all = elim (Bool-cases (before x y)) [
    | inl e ↦ rw e (h, all)
    | inr e ↦ rw e (all.0, insert-All P x ys h all.1)
  ]

  module _ (total : IsTotal before) (transitive : IsTransitive before) where
    turned : (x y : A) → before x y ≡ false → before y x ≡ true
    turned x y e = elim (total x y) [ inl h ↦ absurd (ground arith) | inr h ↦ h ]

    insert-IsSortedBy :
        (x : A) (ys : List A) → IsSortedBy before ys → IsSortedBy before (insert x ys)
    insert-IsSortedBy x [] sorted = (tt, tt)
    insert-IsSortedBy x (y ∷ ys) sorted = elim (Bool-cases (before x y)) [
      | inl e ↦ rw e ((e, All-map (λ (z : A) h. transitive x y z e h) ys sorted.0), sorted)
      | inr e ↦ rw e (
        insert-All (λ z. before y z ≡ true) x ys (turned x y e) sorted.0,
        insert-IsSortedBy x ys sorted.1,
      )
    ]

    insertion_sort-IsSortedBy : (xs : List A) → IsSortedBy before (insertion_sort xs)
    insertion_sort-IsSortedBy [] = tt
    insertion_sort-IsSortedBy (x ∷ xs) =
        insert-IsSortedBy x (insertion_sort xs) (insertion_sort-IsSortedBy xs)

instance unfoldable pub sorting : OrderBy
sorting = record {
  order_by = λ A before xs. insertion_sort before xs;
  order_by-perm = λ A before xs. insertion_sort-Perm before xs;
}

pub sorting-IsSorting : IsSorting sorting
unfolding sorting
sorting-IsSorting A before total transitive xs =
    insertion_sort-IsSortedBy before total transitive xs

instance pub calendar : DateFns
calendar = record {
  to_zoned_time = λ t. t + 32_400_000;
  from_zoned_time = λ t. t - 32_400_000;
  start_of_day = λ t. t / day_ms * day_ms;
  add_months = λ t m. t + m * (30 * day_ms);
  add_days = λ t n. t + n * day_ms;
}

pub calendar-IsCalendar : IsCalendar calendar
unfolding calendar
calendar-IsCalendar = record {
  from-to_zoned_time = λ t. omega arith;
  from_zoned_time_mono = λ s t h. omega arith;
  start_of_day-le = λ t. omega arith;
  lt-start_of_day = λ t. omega arith;
  add_months-le = λ t m h. omega arith;
  add_days_lem = λ t n. refl;
}

abbrev pub sample_bucket : ℕ → ℕ → ℕ → ℕ → CreditBucket
sample_bucket id instructor_id remaining_amount expires_at = record {
  id = id;
  instructor_id = instructor_id;
  payment_item_id = none;
  entitlement_id = none;
  source_type = CreditSourceType.recharge_pack;
  status = CreditBucketStatus.active;
  original_amount = 10;
  remaining_amount = remaining_amount;
  granted_at = 50;
  expires_at = expires_at;
}

abbrev pub sample_entitlement : ℕ → EntitlementStatus → ℕ → ℕ → Entitlement
sample_entitlement id status starts_at ends_at = record {
  id = id;
  instructor_id = 1;
  payment_item_id = 21;
  sequence_no = id;
  status = status;
  starts_at = starts_at;
  ends_at = ends_at;
  activated_at = none;
  expired_at = none;
  canceled_at = none;
  included_credit_amount = 300;
}

abbrev pub sample_payment : ℕ → PaymentStatus → Payment
sample_payment id status = record {
  id = id;
  instructor_id = 1;
  method_type = PaymentMethodType.bank_transfer;
  provider_type = PaymentProviderType.manual;
  status = status;
  refund_status = PaymentRefundStatus.not_refunded;
  refund_memo = none;
  refund_completed_at = none;
  depositor_name = none;
  depositor_bank_name = none;
  total_amount = 9000;
  deposited_at = none;
  approved_at = none;
  rejected_at = none;
  canceled_at = none;
}

-- A pass of two months, and two packs of 50 credits.
abbrev pub sample_item : ℕ → BillingProductType → Option ℕ → ℕ → PaymentItem
sample_item id product_type months recharge = record {
  id = id;
  payment_id = 11;
  billing_product_id = 5;
  product_code_snapshot = "CODE";
  product_name_snapshot = "NAME";
  product_type_snapshot = product_type;
  quantity = 2;
  unit_price = 4500;
  total_price = 9000;
  duration_months_snapshot = months;
  included_credit_amount_snapshot = 0;
  recharge_credit_amount_snapshot = recharge;
  recharge_expires_in_days_snapshot = none;
}

abbrev pub pass_item : PaymentItem
pass_item = sample_item 21 BillingProductType.pass_single (some 2) 0

abbrev pub pack_item : PaymentItem
pack_item = sample_item 22 BillingProductType.credit_pack none 50

abbrev pub sample_product : BillingProduct
sample_product = record {
  id = 5;
  code = "CODE";
  name = "NAME";
  product_type = BillingProductType.pass_single;
  billing_mode = BillingMode.one_time;
  payment_method_type = PaymentMethodType.bank_transfer;
  duration_months = some 2;
  included_credit_amount = 300;
  recharge_credit_amount = 0;
  price = 4500;
  is_active_product = true;
}

-- Instructor 1 has 7 credits that expire at 2000 and 4 that expire at 1500; those of bucket 33 have
-- expired, and bucket 34 is another instructor's. The entitlement 41 is overdue, and 42 is ready.
abbrev pub sample_db : Db
sample_db = record {
  instructors = 1 ∷ 2 ∷ [];
  products = sample_product ∷ [];
  payments =
      sample_payment 11 PaymentStatus.pending_deposit
      ∷ sample_payment 12 PaymentStatus.approved
      ∷ [];
  payment_items = pass_item ∷ pack_item ∷ [];
  status_histories = [];
  entitlements =
      sample_entitlement 41 EntitlementStatus.active 10 900
      ∷ sample_entitlement 42 EntitlementStatus.queued 901 1800
      ∷ [];
  credit_buckets =
      sample_bucket 31 1 7 2000
      ∷ sample_bucket 32 1 4 1500
      ∷ sample_bucket 33 1 6 60
      ∷ sample_bucket 34 2 9 2000
      ∷ [];
  wallets = [];
  ledgers = [];
  receipt_requests = [];
  revocations = [];
  next_id = 100;
}

abbrev pub sample_world : World
sample_world = record { db = sample_db; clock = λ k. 1000 + k; reads = 0 }

abbrev pub sample_actor : Actor
sample_actor = record { user_id = some 7; role = some "ADMIN" }
