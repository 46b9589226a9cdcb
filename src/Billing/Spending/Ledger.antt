-- ===== src/Billing/Spending/Ledger.antt =====
-- The ledger of the credits against the buckets, over the transaction of `consumeCredits` of
-- src/services/billing.service.ts.
use ssambee_be.Prelude.{ℕ, ◌≡◌, sym, ap, subst, ◌∙◌, Bool, HasDistinct, sum_by}
use ssambee_be.Prelude.Int.{pos, total_by, ◌+ℤ◌, negate}
use ssambee_be.Prelude.Action.{Result, ok, err}
use ssambee_be.Prelude.OrderBy.{OrderBy}
use ssambee_be.Billing.Database.{Db, World}
use ssambee_be.Billing.Credits.{Reference}
use ssambee_be.Billing.Credits.Wallet.{remaining}
use ssambee_be.Billing.Credits.Consume.{bucket_id, delta}
use ssambee_be.Billing.Transactions.{run_serializable_transaction_with_retry}
use ssambee_be.Billing.Refunds.Balance.{IsBalanced, pos_minus}
use ssambee_be.Billing.Spending.{Consumed, use_credits}
use ssambee_be.Billing.Spending.Whole.{IsSpending, retry-IsSpending}

-- The balance is one of the tables.
same-IsBalanced : (w w' : World) → w'.db ≡ w.db → IsBalanced w → IsBalanced w'
same-IsBalanced w w' same =
    subst
      (λ (db : Db).
        HasDistinct bucket_id db.credit_buckets
        × (total_by delta db.ledgers ≡ pos (sum_by remaining db.credit_buckets)))
      (sym same)

module _ ⦃o : OrderBy⦄ (instructor_id : ℕ) (reference : Reference) (aborts : ℕ → Bool) (amount : ℕ)
    (w : World) where
  -- If the entries of the ledger sum to the credits that the buckets have left, then they do so
  -- after the transaction of consumeCredits with its retries, whatever attempts the database aborts,
  -- and whether it returns or throws.
  pub spending-IsBalanced :
      IsBalanced w
      → IsBalanced
          (run_serializable_transaction_with_retry aborts
            (use_credits instructor_id reference amount)
            w).1
  spending-IsBalanced balanced =
      go _ (retry-IsSpending instructor_id reference amount w balanced.0 aborts)
    where
      go :
          (r : Result Consumed × World)
          → IsSpending instructor_id reference aborts amount w r
          → IsBalanced r.1
      go (err e, w') (same, cause) = same-IsBalanced w w' same balanced
      go (ok c, w') (w₀, same, used) = (
        used.distinct,
        used.recorded
            ∙ ap (λ t. t +ℤ negate amount) (same-IsBalanced w w₀ same balanced).1
            ∙ pos_minus (sum_by remaining w₀.db.credit_buckets)
                (sum_by remaining w'.db.credit_buckets) amount used.taken,
      )
