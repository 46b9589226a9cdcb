-- ===== src/Billing/Entitlements/Expiry.antt =====
-- The loop of `reconcileInstructorState` over the buckets that are due to expire.
use ssambee_be.Prelude.{
  ℕ, ◌≡◌, refl, ap, sym, subst, ◌∙◌, Bool, true, false, some, List, [], ◌∷◌, ◌==◌, if◌then◌else◌,
  arith, All, HasDistinct, HasDistinct-update, IsFree, find_by, find_by-update_ne, update_many,
  sum_by, sum_by-update, length, ltb,
}
use ssambee_be.Prelude.Action.{
  Returns, Returns-step, Returns-bind, Returns-map, pure, for_each, ◌>>=◌, ◌>>◌,
}
use ssambee_be.Prelude.OrderBy.{OrderBy}
use ssambee_be.Billing.Constants.{CreditBucketStatus, is_active_bucket}
use ssambee_be.Billing.Database.{CreditBucket, World, Billing}
use ssambee_be.Billing.Repo.{is_overdue_bucket, set_buckets, new_date, update_credit_bucket}
use ssambee_be.Billing.Credits.{
  expire_active_bucket, expiry_entry, expire_credit_bucket, refresh_credit_wallet,
  append_credit_ledger,
}
use ssambee_be.Billing.Credits.Consume.{bucket_id, AreRows, update_credit_bucket_found}

abbrev pub expired_bucket : CreditBucket → CreditBucket
expired_bucket c = record c { status = CreditBucketStatus.expired; remaining_amount = 0 }

-- How many buckets of the instructor are to expire.
abbrev due_count : ℕ → ℕ → List CreditBucket → ℕ
due_count i now = sum_by λ b. if is_overdue_bucket i now b then 1 else 0

none_due :
    (i now : ℕ) (bs : List CreditBucket)
    → due_count i now bs ≡ 0
    → All (λ b. is_overdue_bucket i now b ≡ false) bs
none_due i now [] h = tt
none_due i now (b ∷ bs) h = ground (arith, none_due i now bs)

AreRows-update :
    (rows : List CreditBucket) (b : CreditBucket) (bs : List CreditBucket)
    → IsFree bucket_id b.id bs
    → AreRows rows bs
    → AreRows (update_many (λ c. c.id == b.id) expired_bucket rows) bs
AreRows-update rows b [] free h = tt
AreRows-update rows b (c ∷ bs) free h = (
  find_by-update_ne bucket_id b.id expired_bucket (λ x. refl) c.id rows free.0 ∙ h.0,
  AreRows-update rows b bs free.1 h.1,
)

module _ ⦃o : OrderBy⦄ (i now : ℕ) where
  -- Expiring an active bucket of the table changes that bucket, and no entitlement.
  abbrev Expires : CreditBucket → World → World → Type 0
  Expires b w w' =
      (w'.db.credit_buckets ≡ update_many (λ c. c.id == b.id) expired_bucket w.db.credit_buckets)
      × (w'.db.entitlements ≡ w.db.entitlements)

  expire_active-Expires :
      (b : CreditBucket) (w : World)
      → find_by bucket_id b.id w.db.credit_buckets ≡ some b
      → Returns (λ _. Expires b w) (expire_active_bucket b now w)
  unfolding expire_active_bucket update_credit_bucket append_credit_ledger refresh_credit_wallet
      new_date
  expire_active-Expires b w found =
      Returns-step (λ _. Expires b w) (update_credit_bucket b.id expired_bucket)
        (λ e. recorded (ltb 0 b.remaining_amount) >>= λ _. pure e) w
        (update_credit_bucket_found b.id expired_bucket w found)
        (written (ltb 0 b.remaining_amount))
    where
      recorded : Bool → Billing (Unit {0})
      recorded positive =
          if positive
          then append_credit_ledger (expiry_entry b now)
          else (refresh_credit_wallet b.instructor_id >> pure tt)

      written :
          (positive : Bool)
          → Returns
              (λ _. Expires b w)
              ((recorded positive >>= λ _. pure (expired_bucket b)) (
                set_buckets (update_many (λ c. c.id == b.id) expired_bucket w.db.credit_buckets) w))
      written true = (refl, refl)
      written false = (refl, refl)

  expire_bucket-Expires :
      (b : CreditBucket) (w : World)
      → find_by bucket_id b.id w.db.credit_buckets ≡ some b
      → is_active_bucket b.status ≡ true
      → Returns (λ _. Expires b w) ((expire_credit_bucket b now >>= λ _. pure tt) w)
  unfolding expire_credit_bucket
  expire_bucket-Expires b w found active =
      Returns-bind (λ _. Expires b w) (λ _. Expires b w) (expire_credit_bucket b now) (λ _. pure tt)
        w
        (subst
          (λ a. Returns (λ _. Expires b w) ((if a then expire_active_bucket b now else pure b) w))
          (sym active) (expire_active-Expires b w found))
        (λ _ w' e. e)

  -- After the loop over buckets that are all that is due, none is due.
  abbrev pub Cleared : World → World → Type 0
  Cleared w w' =
      All (λ b. is_overdue_bucket i now b ≡ false) w'.db.credit_buckets
      × HasDistinct bucket_id w'.db.credit_buckets
      × (w'.db.entitlements ≡ w.db.entitlements)

  due-active :
      (b : CreditBucket) → is_overdue_bucket i now b ≡ true → is_active_bucket b.status ≡ true
  due-active b h = ground arith

  pub expiry_loop-Cleared :
      (bs : List CreditBucket) (w : World)
      → HasDistinct bucket_id w.db.credit_buckets
      → HasDistinct bucket_id bs
      → AreRows w.db.credit_buckets bs
      → All (λ b. is_overdue_bucket i now b ≡ true) bs
      → due_count i now w.db.credit_buckets ≡ length bs
      → Returns (λ _. Cleared w) (for_each (λ b. expire_credit_bucket b now >>= λ _. pure tt) bs w)
  expiry_loop-Cleared [] w d db rows due n = (none_due i now w.db.credit_buckets n, d, refl)
  expiry_loop-Cleared (b ∷ bs) w d db rows due n =
      Returns-bind (λ _. Expires b w) (λ _. Cleared w) (expire b) (λ _. for_each expire bs) w
        (expire_bucket-Expires b w rows.0 (due-active b due.0))
        (λ _ w' (buckets, entitlements).
          Returns-map (λ _. Cleared w') (λ _. Cleared w) (for_each expire bs w')
            (λ _ w'' c. (c.0, c.1, c.2 ∙ entitlements))
            (expiry_loop-Cleared bs w'
              (subst (HasDistinct bucket_id) (sym buckets) (
                HasDistinct-update bucket_id b.id expired_bucket (λ x. refl) w.db.credit_buckets d))
              db.1
              (subst (λ rows. AreRows rows bs) (sym buckets)
                (AreRows-update w.db.credit_buckets b bs db.0 rows.1))
              due.1 (ap (due_count i now) buckets ∙ one_less)))
    where
      expire : CreditBucket → Billing (Unit {0})
      expire b = expire_credit_bucket b now >>= λ _. pure tt

      gone : is_overdue_bucket i now (expired_bucket b) ≡ false
      gone = ground arith

      one_less :
          due_count i now (update_many (λ c. c.id == b.id) expired_bucket w.db.credit_buckets)
          ≡ length bs
      one_less = ground (
        arith,
        due.0,
        gone,
        sum_by-update bucket_id b.id expired_bucket
            (λ b. if is_overdue_bucket i now b then 1 else 0) w.db.credit_buckets {x = b} d rows.0,
      )
