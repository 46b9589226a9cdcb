-- ===== src/Billing/Refunds/Clawback.antt =====
-- What taking back the credits of a bucket does.
use ssambee_be.Prelude.{
  ℕ, ◌+◌, ◌==◌, ◌≡◌, ◌≢◌, refl, Bool, true, false, some, List, [], ◌∷◌, ◌++◌, if◌then◌else◌, ltb,
  arith, find_by, sum_by, update_many, HasDistinct, HasDistinct-update, sum_by-update,
  find_by-update_self, find_by-update_ne,
}
use ssambee_be.Prelude.Int.{◌+ℤ◌, negate, total_by, total_by-append, int_laws}
use ssambee_be.Prelude.Action.{Returns, Returns-step, ◌>>=◌, pure}
use ssambee_be.Prelude.OrderBy.{OrderBy}
use ssambee_be.Billing.Database.{CreditBucket, PaymentItem, World, Billing}
use ssambee_be.Billing.Repo.{
  update_credit_bucket, create_payment_item_revocation_history, set_buckets, new_date,
}
use ssambee_be.Billing.Credits.{append_credit_ledger, refresh_credit_wallet}
use ssambee_be.Billing.Credits.Wallet.{remaining}
use ssambee_be.Billing.Credits.Consume.{bucket_id, delta, update_credit_bucket_found}
use ssambee_be.Billing.Refunds.{
  Revocation, canceled_bucket, bucket_history, clawback_entry, claw_back,
}

-- The bucket `b` has been taken back: it is canceled and empty, the credits left and those taken
-- back sum to the credits before, the ledger has the credits taken back with the sign, and the
-- histories have one entry.
pub record IsClawedBack (r : Revocation) (item : PaymentItem) (b : CreditBucket) (w w' : World)
    : Type 0 where
  pub canceled : find_by bucket_id b.id w'.db.credit_buckets ≡ some (canceled_bucket b)
  pub others :
      (k : ℕ)
      → k ≢ b.id
      → find_by bucket_id k w'.db.credit_buckets ≡ find_by bucket_id k w.db.credit_buckets
  pub taken :
      sum_by remaining w'.db.credit_buckets + b.remaining_amount
      ≡ sum_by remaining w.db.credit_buckets
  pub recorded :
      total_by delta w'.db.ledgers ≡ total_by delta w.db.ledgers +ℤ negate b.remaining_amount
  pub distinct : HasDistinct bucket_id w'.db.credit_buckets
  pub logged : w'.db.revocations ≡ w.db.revocations ++ (bucket_history r item b w.db.next_id ∷ [])

module _ ⦃o : OrderBy⦄ (r : Revocation) (item : PaymentItem) (b : CreditBucket) (w : World)
    (distinct : HasDistinct bucket_id w.db.credit_buckets)
    (found : find_by bucket_id b.id w.db.credit_buckets ≡ some b) where
  -- The world after the update of the bucket and the entry in the histories.
  abbrev rows₁ : List CreditBucket
  rows₁ = update_many (λ c. c.id == b.id) canceled_bucket w.db.credit_buckets

  abbrev written : World
  written =
      (create_payment_item_revocation_history (bucket_history r item b) (set_buckets rows₁ w)).1

  taken_back : sum_by remaining rows₁ + b.remaining_amount ≡ sum_by remaining w.db.credit_buckets
  taken_back = omega (
    arith,
    sum_by-update bucket_id b.id canceled_bucket remaining w.db.credit_buckets {x = b} distinct
        found,
  )

  entry_written :
      (positive : Bool)
      → ltb 0 b.remaining_amount ≡ positive
      → Returns
          (λ _ w'. IsClawedBack r item b w w')
          ((if positive then append_credit_ledger (clawback_entry r b w.db.next_id) else pure tt)
            written)
  unfolding append_credit_ledger refresh_credit_wallet new_date
      create_payment_item_revocation_history
  entry_written true h = record {
    canceled =
        find_by-update_self bucket_id b.id canceled_bucket (λ c. refl) w.db.credit_buckets found;
    others = λ k ne.
        find_by-update_ne bucket_id b.id canceled_bucket (λ c. refl) k w.db.credit_buckets ne;
    taken = taken_back;
    recorded = rw (total_by-append delta w.db.ledgers) (omega int_laws);
    distinct =
        HasDistinct-update bucket_id b.id canceled_bucket (λ c. refl) w.db.credit_buckets distinct;
    logged = refl;
  }
  entry_written false h = record {
    canceled =
        find_by-update_self bucket_id b.id canceled_bucket (λ c. refl) w.db.credit_buckets found;
    others = λ k ne.
        find_by-update_ne bucket_id b.id canceled_bucket (λ c. refl) k w.db.credit_buckets ne;
    taken = taken_back;
    recorded = let empty : b.remaining_amount ≡ 0 = ground arith in rw empty (omega int_laws);
    distinct =
        HasDistinct-update bucket_id b.id canceled_bucket (λ c. refl) w.db.credit_buckets distinct;
    logged = refl;
  }

  -- Taking back the credits of a bucket of the table returns, with the effect that `IsClawedBack`
  -- says: no credit is lost or made, and no other bucket changes.
  pub claw_back-IsClawedBack : Returns (λ _ w'. IsClawedBack r item b w w') (claw_back r item b w)
  unfolding claw_back create_payment_item_revocation_history
  claw_back-IsClawedBack =
      Returns-step (λ _ w'. IsClawedBack r item b w w') (update_credit_bucket b.id canceled_bucket)
        after w (update_credit_bucket_found b.id canceled_bucket w found)
        (entry_written (ltb 0 b.remaining_amount) refl)
    where
      after : CreditBucket → Billing (Unit {0})
      after c = do
        history ← create_payment_item_revocation_history (bucket_history r item b)
        if ltb 0 b.remaining_amount
            then append_credit_ledger (clawback_entry r b history.id)
            else pure tt
