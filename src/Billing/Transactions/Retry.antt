-- ===== src/Billing/Transactions/Retry.antt =====
-- The retry loop commits one attempt or none.
use ssambee_be.Prelude.{
  ℕ, zero, suc, ◌+◌, ◌≤◌, ◌<◌, ◌≡◌, refl, ◌∙◌, sym, ap, Bool, true, false, not, ◌||◌, leb, arith,
  inl, inr, ◌≢◌, Bool-cases,
}
use mathlib.Core.Bool.{false≢true}
use ssambee_be.Prelude.Action.{Result, ok, err, Returns}
use ssambee_be.Billing.Database.{Billing, World}
use ssambee_be.Billing.Transactions.{
  run_attempts, run_serializable_transaction_with_retry, serializable_transaction, transaction,
  is_serializable_conflict_error, retry_limit, after_attempt,
}

module _ {A : Type 0} (aborts : ℕ → Bool) (operation : Billing A) where
  -- What a call has committed: a run of the operation that returned, on the tables as they were; or
  -- nothing, if the call throws.
  abbrev pub Commits : World → Result A × World → Type 0
  Commits w (ok a, w') = (w₀ : World) × (w₀.db ≡ w.db) × (operation w₀ ≡ (ok a, w'))
  Commits w (err e, w') = w'.db ≡ w.db

  Commits-from : (w w' : World) (r : Result A × World) → w'.db ≡ w.db → Commits w' r → Commits w r
  Commits-from w w' (ok a, v) same (w₀, h, e) = (w₀, h ∙ same, e)
  Commits-from w w' (err e, v) same h = h ∙ same

  transaction-Commits : (w : World) → Commits w (transaction operation w)
  transaction-Commits w = go (operation w) refl
    where
      go :
          (r : Result A × World)
          → operation w ≡ r
          → Commits w
              (elim r.0 [ ok a ↦ (ok a, r.1) | err e ↦ (err e, record (r.1) { db = w.db }) ])
      go (ok a, w') h = (w, refl, h)
      go (err e, w') h = refl

  attempt-Commits :
      (aborted : Bool) (w : World) → Commits w (serializable_transaction aborts operation aborted w)
  attempt-Commits false w = transaction-Commits w
  attempt-Commits true w = refl

  after_attempt-Commits :
      (rest : World → Result A × World) (attempt : ℕ) (w : World) (r : Result A × World)
      → ((w' : World) → Commits w' (rest w'))
      → Commits w r
      → Commits w (after_attempt aborts operation rest attempt r)
  unfolding after_attempt
  after_attempt-Commits rest attempt w (ok a, w') h c = c
  after_attempt-Commits rest attempt w (err e, w') h c =
      elim (Bool-cases (not (is_serializable_conflict_error e) || leb retry_limit (attempt + 1))) [
        | inl stop ↦ rw stop c
        | inr again ↦ rw again (Commits-from w w' (rest w') c (h w'))
      ]

  run_attempts-Commits :
      (rounds attempt : ℕ) (w : World) → Commits w (run_attempts aborts operation rounds attempt w)
  unfolding run_attempts
  run_attempts-Commits zero attempt w = refl
  run_attempts-Commits (suc rounds) attempt w =
      after_attempt-Commits (run_attempts aborts operation rounds (attempt + 1)) attempt w _
        (run_attempts-Commits rounds (attempt + 1)) (attempt-Commits (aborts attempt) w)

  -- Whatever attempts the database aborts: if the call returns, then what it has changed is one run
  -- of the operation on the tables as they were before the call, and if it throws, the tables are as
  -- they were.
  pub retry-Commits :
      (w : World) → Commits w (run_serializable_transaction_with_retry aborts operation w)
  unfolding run_serializable_transaction_with_retry
  retry-Commits w = run_attempts-Commits retry_limit 0 w

  module _ (P : A → World → Type 0) (w : World)
      (returns : (w₀ : World) → w₀.db ≡ w.db → Returns P (operation w₀)) where
    transaction-Returns : (w₀ : World) → w₀.db ≡ w.db → Returns P (transaction operation w₀)
    transaction-Returns w₀ same = go (operation w₀) (returns w₀ same)
      where
        go :
            (r : Result A × World)
            → Returns P r
            → Returns P
                (elim r.0 [ ok a ↦ (ok a, r.1) | err e ↦ (err e, record (r.1) { db = w₀.db }) ])
        go (ok a, w') h = h
        go (err e, w') h = absurd h

    attempt-cases :
        (rest : World → Result A × World) (attempt : ℕ) (aborted : Bool) (w₀ : World)
        → w₀.db ≡ w.db
        → (aborted ≡ true
            → (attempt + 1 < retry_limit) × ((w' : World) → w'.db ≡ w.db → Returns P (rest w')))
        → Returns P (
            after_attempt aborts operation rest attempt
              (serializable_transaction aborts operation aborted w₀))
    unfolding after_attempt
    attempt-cases rest attempt false w₀ same next =
        go (transaction operation w₀) (transaction-Returns w₀ same)
      where
        go :
            (r : Result A × World)
            → Returns P r
            → Returns P (after_attempt aborts operation rest attempt r)
        go (ok a, w') h = h
        go (err e, w') h = absurd h
    attempt-cases rest attempt true w₀ same next =
        let (room, h) = next refl in
        let again : leb retry_limit (attempt + 1) ≡ false = ground arith in rw again (h _ same)

    run_attempts-Returns :
        (rounds attempt k : ℕ) (w₀ : World)
        → w₀.db ≡ w.db
        → rounds + attempt ≡ retry_limit
        → attempt ≤ k
        → k < retry_limit
        → aborts k ≡ false
        → Returns P (run_attempts aborts operation rounds attempt w₀)
    unfolding run_attempts
    run_attempts-Returns zero attempt k w₀ same e le lt commits = absurd (omega arith)
    run_attempts-Returns (suc rounds) attempt k w₀ same e le lt commits =
        attempt-cases (run_attempts aborts operation rounds (attempt + 1)) attempt (aborts attempt)
          w₀ same
          (λ aborted.
            let later : attempt ≢ k = λ q. false≢true (sym commits ∙ ap aborts (sym q) ∙ aborted) in
            (
              omega arith,
              λ w' same'.
                  run_attempts-Returns rounds (attempt + 1) k w' same' (omega arith) (omega arith)
                    lt commits,
            ))

    -- If the operation returns on the tables as they are, and one of the first three attempts is not
    -- aborted, the call returns, and its result is as the operation's.
    pub retry-Returns :
        (k : ℕ)
        → k < retry_limit
        → aborts k ≡ false
        → Returns P (run_serializable_transaction_with_retry aborts operation w)
    unfolding run_serializable_transaction_with_retry
    retry-Returns k lt commits =
        run_attempts-Returns retry_limit 0 k w refl (omega arith) (omega arith) lt commits
