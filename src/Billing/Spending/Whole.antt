-- ===== src/Billing/Spending/Whole.antt =====
-- `consumeCredits` of src/services/billing.service.ts as a whole: the reconciliation before the
-- transaction, and the transaction with its retries.
use ssambee_be.Prelude.{
  ℕ, suc, ◌≡◌, ◌<◌, ◌⊎◌, inl, inr, ap, sym, subst, ◌∙◌, Bool, true, false, arith, HasDistinct,
}
use native.Mathlib.Decide.{dec_lt}
use ssambee_be.Prelude.Int.{ℤ, pos_part}
use ssambee_be.Prelude.Action.{
  Exception, serialization_conflict, bad_request, Result, ok, err, Returns,
}
use ssambee_be.Prelude.OrderBy.{OrderBy}
use ssambee_be.Billing.Database.{World, Billing}
use ssambee_be.Billing.Credits.{Reference}
use ssambee_be.Billing.Credits.Wallet.{available_total}
use ssambee_be.Billing.Credits.Consume.{bucket_id}
use ssambee_be.Billing.Transactions.{run_serializable_transaction_with_retry}
use ssambee_be.Billing.Transactions.Retry.{Commits, retry-Commits}
use ssambee_be.Billing.Transactions.Refusal.{HasCause, retry-HasCause}
use ssambee_be.Billing.Entitlements.{ReconciledState}
use ssambee_be.Billing.Entitlements.Reconcile.{IsReconciled}
use ssambee_be.Billing.Spending.{Consumed, use_credits, consume_credits}
use ssambee_be.Billing.Spending.Consumption.{
  read_time, IsConsumed, use_credits-IsConsumed, use_credits_short,
}

refused_of :
    {S A : Type 0} (P : A → S → Type 0) (r : Result A × S) {e : Exception}
    → r.0 ≡ err e
    → ¬ Returns P r
refused_of P (ok a, s) q h = cc
refused_of P (err e, s) q h = h

abbrev exception_of : {A : Type 0} → Exception → Result A → Exception
exception_of e (ok a) = e
exception_of e (err x) = x

module _ ⦃o : OrderBy⦄ (instructor_id : ℕ) (reference : Reference) where
  abbrev pub credits_at : World → ℕ
  credits_at w =
      available_total instructor_id (read_time instructor_id reference w) w.db.credit_buckets

  -- The instructor has too few credits in the tables at the time that an attempt reads.
  abbrev pub IsShort : ℕ → World → Exception → Type 0
  IsShort amount w e =
      (w₀ : World) × (w₀.db ≡ w.db)
      × (credits_at w₀ < amount)
      × (e ≡ bad_request "INSUFFICIENT_CREDITS")

  -- What the transaction has done to the tables: it has taken the amount once, or nothing, since the
  -- credits are too few or the database has aborted the last attempt.
  abbrev pub IsSpending : (ℕ → Bool) → ℕ → World → Result Consumed × World → Type 0
  IsSpending aborts amount w (ok c, w') =
      (w₀ : World) × (w₀.db ≡ w.db) × IsConsumed instructor_id reference w₀ amount c w'
  IsSpending aborts amount w (err e, w') =
      (w'.db ≡ w.db) × (IsShort amount w e ⊎ ((e ≡ serialization_conflict) × (aborts 2 ≡ true)))

  module _ (amount : ℕ) (w : World) (distinct : HasDistinct bucket_id w.db.credit_buckets) where
    keys : (w₀ : World) → w₀.db ≡ w.db → HasDistinct bucket_id w₀.db.credit_buckets
    keys w₀ same = subst (λ db. HasDistinct bucket_id db.credit_buckets) (sym same) distinct

    use-IsConsumed :
        (w₀ w' : World) (c : Consumed)
        → w₀.db ≡ w.db
        → use_credits instructor_id reference amount w₀ ≡ (ok c, w')
        → IsConsumed instructor_id reference w₀ amount c w'
    use-IsConsumed w₀ w' c same h = elim (dec_lt (credits_at w₀) amount) [
      | yes short ↦ absurd (
          refused_of (λ _ _. Unit) (use_credits instructor_id reference amount w₀)
            (ap (λ (r : Result Consumed × World). r.0)
              (use_credits_short instructor_id reference w₀ amount short))
            (subst (Returns (λ _ _. Unit)) (sym h) tt))
      | no enough ↦
          subst (Returns (IsConsumed instructor_id reference w₀ amount)) h
            (use_credits-IsConsumed instructor_id reference w₀ amount (keys w₀ same) (omega arith))
    ]

    use-IsShort :
        (w₀ : World) (e : Exception)
        → w₀.db ≡ w.db
        → (use_credits instructor_id reference amount w₀).0 ≡ err e
        → IsShort amount w e
    use-IsShort w₀ e same h = elim (dec_lt (credits_at w₀) amount) [
      | yes short ↦ (
        w₀,
        same,
        short,
        ap (exception_of e) (
            sym h
            ∙ ap (λ (r : Result Consumed × World). r.0)
                (use_credits_short instructor_id reference w₀ amount short)),
      )
      | no enough ↦ absurd (
          refused_of (IsConsumed instructor_id reference w₀ amount)
            (use_credits instructor_id reference amount w₀) h
            (use_credits-IsConsumed instructor_id reference w₀ amount (keys w₀ same) (omega arith)))
    ]

    pub retry-IsSpending :
        (aborts : ℕ → Bool)
        → IsSpending aborts amount w (
            run_serializable_transaction_with_retry aborts
              (use_credits instructor_id reference amount)
              w)
    retry-IsSpending aborts =
        go (run_serializable_transaction_with_retry aborts operation w)
          (retry-Commits aborts operation w) (retry-HasCause aborts operation w)
      where
        operation : Billing Consumed
        operation = use_credits instructor_id reference amount

        go :
            (r : Result Consumed × World)
            → Commits aborts operation w r
            → HasCause aborts operation w r
            → IsSpending aborts amount w r
        go (ok c, w') (w₀, same, h) cause = (w₀, same, use-IsConsumed w₀ w' c same h)
        go (err e, w') h (inl (w₀, same, q)) = (h, inl (use-IsShort w₀ e same q))
        go (err e, w') h (inr aborted) = (h, inr aborted)

  module _ (aborts : ℕ → Bool) (amount : ℤ) (w : World) where
    -- The time of the reconciliation, and the world after it is read.
    abbrev pub now : ℕ
    now = w.clock w.reads

    abbrev pub started : World
    started = record w { reads = suc w.reads }

    abbrev pub run : Result Consumed × World
    run = consume_credits instructor_id reference aborts amount w

    abbrev pub Outcome : Bool → Type 0
    Outcome true = run ≡ (err (bad_request "차감할 크레딧은 1 이상이어야 합니다."), w)
    Outcome false =
        (st : ReconciledState) × (w₁ : World) × IsReconciled instructor_id now started st w₁
        × IsSpending aborts (pos_part amount) w₁ run
