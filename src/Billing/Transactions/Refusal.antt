-- ===== src/Billing/Transactions/Refusal.antt =====
-- Why `runSerializableTransactionWithRetry` throws.
use ssambee_be.Prelude.{
  ℕ, zero, suc, ◌+◌, ◌<◌, ◌≡◌, ◌⊎◌, refl, ◌∙◌, sym, ap, Bool, true, false, not, ◌||◌, leb, arith,
  inl, inr, Bool-cases,
}
use ssambee_be.Prelude.Action.{Exception, serialization_conflict, Result, ok, err}
use ssambee_be.Billing.Database.{Billing, World}
use ssambee_be.Billing.Transactions.{
  run_attempts, run_serializable_transaction_with_retry, serializable_transaction,
  is_serializable_conflict_error, retry_limit, after_attempt,
}

module _ {A : Type 0} (aborts : ℕ → Bool) (operation : Billing A) (w : World) where
  -- The operation throws this on the tables as they are, or the last attempt is aborted.
  abbrev pub IsCause : Exception → Type 0
  IsCause e =
      ((w₀ : World) × (w₀.db ≡ w.db) × ((operation w₀).0 ≡ err e))
      ⊎ ((e ≡ serialization_conflict) × (aborts 2 ≡ true))

  abbrev pub HasCause : Result A × World → Type 0
  HasCause (ok a, w') = Unit
  HasCause (err e, w') = IsCause e

  decided :
      (rest : World → Result A × World) (attempt : ℕ) (e : Exception) (w' : World)
      → w'.db ≡ w.db
      → (leb retry_limit (attempt + 1) ≡ true → IsCause e)
      → (not (is_serializable_conflict_error e) ≡ true → IsCause e)
      → (attempt + 1 < retry_limit → HasCause (rest w'))
      → HasCause (after_attempt aborts operation rest attempt (err e, w'))
  unfolding after_attempt
  decided rest attempt e w' same last other next =
      elim (Bool-cases (not (is_serializable_conflict_error e) || leb retry_limit (attempt + 1))) [
        | inl stop ↦ rw stop (elim (Bool-cases (not (is_serializable_conflict_error e))) [
          | inl h ↦ other h
          | inr h ↦ last (ground arith)
        ])
        | inr again ↦ rw again (next (ground arith))
      ]

  attempt-HasCause :
      (rest : World → Result A × World) (attempt : ℕ) (aborted : Bool) (w₀ : World)
      → w₀.db ≡ w.db
      → aborts attempt ≡ aborted
      → attempt < retry_limit
      → ((w' : World) → w'.db ≡ w.db → attempt + 1 < retry_limit → HasCause (rest w'))
      → HasCause (
          after_attempt aborts operation rest attempt
            (serializable_transaction aborts operation aborted w₀))
  unfolding after_attempt
  attempt-HasCause rest attempt false w₀ same e lt next = go (operation w₀) refl
    where
      go :
          (r : Result A × World)
          → operation w₀ ≡ r
          → HasCause (
              after_attempt aborts operation rest attempt
                (elim r.0 [ ok a ↦ (ok a, r.1) | err e ↦ (err e, record (r.1) { db = w₀.db }) ]))
      go (ok a, w') h = tt
      go (err x, w') h =
          let cause : IsCause x = inl (w₀, same, ap (λ (r : Result A × World). r.0) h) in
          decided rest attempt x (record w' { db = w₀.db }) same (λ _. cause) (λ _. cause)
            (next (record w' { db = w₀.db }) same)
  attempt-HasCause rest attempt true w₀ same e lt next =
      decided rest attempt serialization_conflict (record ((operation w₀).1) { db = w₀.db }) same
        (λ last. let two : attempt ≡ 2 = ground arith in inr (refl, ap aborts (sym two) ∙ e))
        (λ h. absurd (ground arith)) (next (record ((operation w₀).1) { db = w₀.db }) same)

  run_attempts-HasCause :
      (rounds attempt : ℕ) (w₀ : World)
      → w₀.db ≡ w.db
      → rounds + attempt ≡ retry_limit
      → attempt < retry_limit
      → HasCause (run_attempts aborts operation rounds attempt w₀)
  unfolding run_attempts
  run_attempts-HasCause zero attempt w₀ same e lt = absurd (omega arith)
  run_attempts-HasCause (suc rounds) attempt w₀ same e lt =
      attempt-HasCause (run_attempts aborts operation rounds (attempt + 1)) attempt (aborts attempt)
        w₀ same refl lt
        (λ w' same' more. run_attempts-HasCause rounds (attempt + 1) w' same' (omega arith) more)

  -- If the call throws, the operation throws the same on the tables as they are, or the database has
  -- aborted the last attempt.
  pub retry-HasCause : HasCause (run_serializable_transaction_with_retry aborts operation w)
  unfolding run_serializable_transaction_with_retry
  retry-HasCause = run_attempts-HasCause retry_limit 0 w refl (omega arith) (omega arith)
