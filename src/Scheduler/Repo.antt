-- ===== src/Scheduler/Repo.antt =====
-- src/repos/scheduler.repo.ts: the table `scheduledJobState`, and the queries and guarded updates on
-- it, by which workers take, keep and give back the lease of a job.
use text.Mathlib.Text.{◌==◌ as str_eq}
use ssambee_be.Prelude.{
  ℕ, ◌==◌, Bool, true, false, not, ◌&&◌, Option, none, some, List, [], ◌∷◌, ◌++◌, String,
  if◌then◌else◌, leb, ltb, find_by, find_many, update_many, count_where, any_where,
}
use ssambee_be.Prelude.Action.{Result, ok, err, Action, unique_violation, record_not_found}
use ssambee_be.Prelude.OrderBy.{OrderBy, order_by}

pub record ScheduledJobState : Type 0 where
  pub job_name : ℕ
  pub schedule_fingerprint : String
  pub next_run_at : ℕ
  pub locked_by : Option ℕ
  pub locked_until : Option ℕ
  pub last_started_at : Option ℕ
  pub last_finished_at : Option ℕ
  pub last_succeeded_at : Option ℕ
  pub last_failed_at : Option ℕ
  pub last_error : Option String

abbrev pub Jobs : Type 0 → Type 0
Jobs = Action (List ScheduledJobState)

abbrev pub name_of : ScheduledJobState → ℕ
name_of s = s.job_name

-- The row that `create` makes: the other columns are null.
abbrev pub new_state : ℕ → String → ℕ → ScheduledJobState
new_state job_name schedule_fingerprint next_run_at = record {
  job_name = job_name;
  schedule_fingerprint = schedule_fingerprint;
  next_run_at = next_run_at;
  locked_by = none;
  locked_until = none;
  last_started_at = none;
  last_finished_at = none;
  last_succeeded_at = none;
  last_failed_at = none;
  last_error = none;
}

-- `create`, which throws P2002 on a name that is taken.
abbrev pub create_state : ScheduledJobState → Jobs (Option ScheduledJobState)
create_state new rows = elim (find_by name_of new.job_name rows) [
  | none ↦ (ok (some new), rows ++ (new ∷ []))
  | some _ ↦ (err unique_violation, rows)
]

-- `catch`: P2002 means that another process has created the row.
abbrev pub or_created :
    ℕ
    → Result (Option ScheduledJobState) × List ScheduledJobState
    → Result (Option ScheduledJobState) × List ScheduledJobState
or_created job_name (ok s, rows) = (ok s, rows)
or_created job_name (err unique_violation, rows) = (ok (find_by name_of job_name rows), rows)
or_created job_name (err e, rows) = (err e, rows)

abbrev pub reschedule : String → ℕ → ScheduledJobState → ScheduledJobState
reschedule schedule_fingerprint next_run_at s = record s {
  schedule_fingerprint = schedule_fingerprint;
  next_run_at = next_run_at;
}

-- `update`, which throws on a missing row.
abbrev pub update_state :
    ℕ → (ScheduledJobState → ScheduledJobState) → Jobs (Option ScheduledJobState)
update_state job_name change rows = elim (find_by name_of job_name rows) [
  | none ↦ (err record_not_found, rows)
  | some s ↦ (ok (some (change s)), update_many (λ r. r.job_name == job_name) change rows)
]

-- What `ensureJobState` does once it has read `existing`.
abbrev pub ensure_from : ℕ → String → ℕ → Option ScheduledJobState → Jobs (Option ScheduledJobState)
ensure_from job_name schedule_fingerprint next_run_at none rows =
    or_created job_name (create_state (new_state job_name schedule_fingerprint next_run_at) rows)
ensure_from job_name schedule_fingerprint next_run_at (some existing) rows =
    if str_eq existing.schedule_fingerprint schedule_fingerprint
    then (ok (some existing), rows)
    else update_state job_name (reschedule schedule_fingerprint next_run_at) rows

-- `meanwhile` is what other processes do to the table between the query and the write.
unfoldable pub ensure_job_state :
    (List ScheduledJobState → List ScheduledJobState)
    → ℕ
    → String
    → ℕ
    → Jobs (Option ScheduledJobState)
ensure_job_state meanwhile job_name schedule_fingerprint next_run_at rows =
    ensure_from job_name schedule_fingerprint next_run_at (find_by name_of job_name rows)
      (meanwhile rows)

-- `OR: [{ lockedUntil: null }, { lockedUntil: { lte: now } }]`
abbrev pub is_unlocked : ℕ → Option ℕ → Bool
is_unlocked now none = true
is_unlocked now (some t) = leb t now

abbrev pub is_due : ℕ → ScheduledJobState → Bool
is_due now s = leb s.next_run_at now && is_unlocked now s.locked_until

abbrev pub list_due_job_states :
    ⦃o : OrderBy⦄ → List ℕ → ℕ → List ScheduledJobState → List ScheduledJobState
list_due_job_states [] now rows = []
list_due_job_states (j ∷ js) now rows =
    order_by (λ a b. leb a.next_run_at b.next_run_at)
      (find_many (λ s. any_where (λ k. s.job_name == k) (j ∷ js) && is_due now s) rows)

-- `tryAcquireLease`
abbrev pub may_acquire : ℕ → ℕ → ScheduledJobState → Bool
may_acquire job_name now s = s.job_name == job_name && is_due now s

abbrev pub leased : ℕ → ℕ → ℕ → ScheduledJobState → ScheduledJobState
leased now worker until s = record s {
  locked_by = some worker;
  locked_until = some until;
  last_started_at = some now;
  last_error = none;
}

unfoldable pub try_acquire_lease : ℕ → ℕ → ℕ → ℕ → Jobs (Option ScheduledJobState)
try_acquire_lease job_name now worker until rows =
    let matches = may_acquire job_name now in
    if count_where matches rows == 0
    then (ok none, rows)
    else let rows' = update_many matches (leased now worker until) rows in
      (ok (find_by name_of job_name rows'), rows')

-- The `where` of the updates by the holder of the lease.
abbrev pub is_worker : ℕ → Option ℕ → Bool
is_worker w none = false
is_worker w (some v) = v == w

abbrev pub is_after : ℕ → Option ℕ → Bool
is_after now none = false
is_after now (some t) = ltb now t

abbrev pub holds_lease : ℕ → ℕ → ℕ → ScheduledJobState → Bool
holds_lease job_name worker now s =
    s.job_name == job_name && is_worker worker s.locked_by && is_after now s.locked_until

-- `updateMany`, and whether it counted a row.
abbrev pub update_held : ℕ → ℕ → ℕ → (ScheduledJobState → ScheduledJobState) → Jobs Bool
update_held job_name worker now change rows = (
  ok (not (count_where (holds_lease job_name worker now) rows == 0)),
  update_many (holds_lease job_name worker now) change rows,
)

abbrev pub extended : ℕ → ScheduledJobState → ScheduledJobState
extended until s = record s { locked_until = some until }

unfoldable pub extend_lease : ℕ → ℕ → ℕ → ℕ → Jobs Bool
extend_lease job_name worker now until = update_held job_name worker now (extended until)

abbrev pub succeeded : ℕ → ℕ → ScheduledJobState → ScheduledJobState
succeeded finished_at next_run_at s = record s {
  next_run_at = next_run_at;
  last_finished_at = some finished_at;
  last_succeeded_at = some finished_at;
  locked_by = none;
  locked_until = none;
}

unfoldable pub mark_job_succeeded : ℕ → ℕ → ℕ → ℕ → ℕ → Jobs Bool
mark_job_succeeded job_name worker now finished_at next_run_at =
    update_held job_name worker now (succeeded finished_at next_run_at)

abbrev pub failed : ℕ → ℕ → String → ScheduledJobState → ScheduledJobState
failed finished_at next_run_at error_message s = record s {
  next_run_at = next_run_at;
  last_finished_at = some finished_at;
  last_failed_at = some finished_at;
  last_error = some error_message;
  locked_by = none;
  locked_until = none;
}

unfoldable pub mark_job_failed : ℕ → ℕ → ℕ → ℕ → ℕ → String → Jobs Bool
mark_job_failed job_name worker now finished_at next_run_at error_message =
    update_held job_name worker now (failed finished_at next_run_at error_message)
