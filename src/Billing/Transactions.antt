-- ===== src/Billing/Transactions.antt =====
-- `prisma.$transaction`, and `runSerializableTransactionWithRetry` of
-- src/services/billing.service.ts. Whether the database aborts an attempt with the code P2034 is a
-- parameter: `aborts k` for the attempt that `k` others came before.
pub mod Retry
pub mod Refusal
use ssambee_be.Prelude.{ℕ, zero, suc, ◌+◌, Bool, true, false, not, ◌||◌, leb, if◌then◌else◌}
use ssambee_be.Prelude.Action.{
  Exception, serialization_conflict, internal, bad_request, unauthorized, forbidden, not_found,
  conflict, unique_violation, record_not_found, Result, ok, err,
}
use ssambee_be.Billing.Database.{Billing, World}

-- A throw takes back what the operation wrote.
abbrev pub transaction : {A : Type 0} → Billing A → Billing A
transaction operation w =
    let (r, w') = operation w in
    elim r [ ok a ↦ (ok a, w') | err e ↦ (err e, record w' { db = w.db }) ]

abbrev is_serializable_conflict_error : Exception → Bool
is_serializable_conflict_error serialization_conflict = true
is_serializable_conflict_error (internal m) = false
is_serializable_conflict_error (bad_request m) = false
is_serializable_conflict_error (unauthorized m) = false
is_serializable_conflict_error (forbidden m) = false
is_serializable_conflict_error (not_found m) = false
is_serializable_conflict_error (conflict m) = false
is_serializable_conflict_error unique_violation = false
is_serializable_conflict_error record_not_found = false

-- `SERIALIZABLE_TRANSACTION_RETRY_LIMIT`
abbrev pub retry_limit : ℕ
retry_limit = 3

module _ {A : Type 0} (aborts : ℕ → Bool) (operation : Billing A) where
  abbrev serializable_transaction : Bool → Billing A
  serializable_transaction false w = transaction operation w
  serializable_transaction true w =
      (err serialization_conflict, record ((operation w).1) { db = w.db })

  -- What follows an attempt: `rest` is the loop after it.
  after_attempt : (World → Result A × World) → ℕ → Result A × World → Result A × World
  after_attempt rest attempt (ok a, w) = (ok a, w)
  after_attempt rest attempt (err e, w) =
      if not (is_serializable_conflict_error e) || leb retry_limit (attempt + 1)
      then (err e, w)
      else rest w

  -- The `while` loop, on the rounds that its condition leaves and `attempt`.
  run_attempts : ℕ → ℕ → World → Result A × World
  unfolding after_attempt
  run_attempts zero attempt w =
      (err (internal "Serializable transaction retry loop exited unexpectedly."), w)
  run_attempts (suc rounds) attempt w =
      after_attempt (run_attempts rounds (attempt + 1)) attempt
        (serializable_transaction (aborts attempt) w)

  pub run_serializable_transaction_with_retry : Billing A
  unfolding run_attempts
  run_serializable_transaction_with_retry = run_attempts retry_limit 0
