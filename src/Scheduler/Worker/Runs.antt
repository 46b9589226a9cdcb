-- ===== src/Scheduler/Worker/Runs.antt =====
-- What a run of a job records, when its heartbeats keep the lease.
use mathlib.Core.Option.{some-injective}
use ssambee_be.Prelude.{
  ℕ, ◌==◌, ◌≡◌, ◌<◌, refl, ap, sym, ◌∙◌, Bool, true, false, not, Option, none, some, List, arith,
  if◌then◌else◌, find_by, update_many, find_by-update_many, updated_row, count_where-found,
  count_where-zero, find_unique_sound, HasDistinct,
}
use ssambee_be.Prelude.Action.{pure, Result, ok, Returns, Returns-step, bind_ok}
use ssambee_be.Scheduler.Repo.{
  ScheduledJobState, name_of, is_due, may_acquire, leased, try_acquire_lease, holds_lease,
  extend_lease, mark_job_succeeded, mark_job_failed, succeeded, failed, extended, update_held,
}
use ssambee_be.Scheduler.Lease.{Holds, Others, Others-Holds}
use ssambee_be.Scheduler.Worker.{
  ScheduledJobDefinition, HandlerOutcome, completed, threw, RunResult, not_acquired, aborted,
  success_recorded, not_persisted, failure_recorded, add_seconds, after_acquire, after_handler,
  run_job,
}

-- A job that is found and due is leased to the worker that asks.
acquired :
    (job now worker until : ℕ) (rows : List ScheduledJobState) {s : ScheduledJobState}
    → find_by name_of job rows ≡ some s
    → is_due now s ≡ true
    → try_acquire_lease job now worker until rows ≡ (
      ok (some (leased now worker until s)),
      update_many (may_acquire job now) (leased now worker until) rows,
    )
unfolding try_acquire_lease
acquired job now worker until rows {s = s} h due =
    let meets : may_acquire job now s ≡ true =
      rw (find_unique_sound (λ (r : ScheduledJobState). r.job_name == job) rows h) due in
    let rows' = update_many (may_acquire job now) (leased now worker until) rows in
    let row : find_by name_of job rows' ≡ some (leased now worker until s) =
      find_by-update_many name_of (may_acquire job now) (leased now worker until) (λ x. refl) job
        rows
      ∙ ap (updated_row (may_acquire job now) (leased now worker until)) h
      ∙ rw meets refl in
    rw (count_where-found name_of (may_acquire job now) job rows h meets)
      (ap {B = Result (Option ScheduledJobState) × List ScheduledJobState} (λ o. (ok o, rows')) row)

acquired-Holds :
    (job now worker until : ℕ) (rows : List ScheduledJobState) {s : ScheduledJobState}
    → find_by name_of job rows ≡ some s
    → is_due now s ≡ true
    → Holds job worker until (update_many (may_acquire job now) (leased now worker until) rows)
acquired-Holds job now worker until rows {s = s} h due =
    let meets : may_acquire job now s ≡ true =
      rw (find_unique_sound (λ (r : ScheduledJobState). r.job_name == job) rows h) due in
    (
      leased now worker until s,
      find_by-update_many name_of (may_acquire job now) (leased now worker until) (λ x. refl) job
            rows
          ∙ ap (updated_row (may_acquire job now) (leased now worker until)) h
          ∙ rw meets refl,
      refl,
      refl,
    )

module _ (job me : ℕ) where
  module _ (until now : ℕ) (change : ScheduledJobState → ScheduledJobState)
      (rows : List ScheduledJobState)
      (same_name : (x : ScheduledJobState) → (change x).job_name ≡ x.job_name) (lt : now < until)
      {s : ScheduledJobState} (found : find_by name_of job rows ≡ some s)
      (by : s.locked_by ≡ some me) (to : s.locked_until ≡ some until) where
    holds : holds_lease job me now s ≡ true
    holds =
        rw (find_unique_sound (λ (r : ScheduledJobState). r.job_name == job) rows found, by, to)
          (ground arith)

    -- An update by the holder in time passes, and changes the row.
    held_passes :
        update_held job me now change rows
        ≡ (ok true, update_many (holds_lease job me now) change rows)
    held_passes =
        ap {B = Result Bool × List ScheduledJobState}
          (λ b. (ok (not b), update_many (holds_lease job me now) change rows))
          (count_where-found name_of (holds_lease job me now) job rows found holds)

    held_row :
        find_by name_of job (update_many (holds_lease job me now) change rows) ≡ some (change s)
    held_row =
        find_by-update_many name_of (holds_lease job me now) change same_name job rows
        ∙ ap (updated_row (holds_lease job me now) change) found
        ∙ rw holds refl

  -- What happens while the holder works: steps of the others before the lease runs out, and
  -- heartbeats, each before the lease runs out and moving its end.
  pub data Kept : ℕ → ℕ → List ScheduledJobState → List ScheduledJobState → Type 0 where
    steps :
        {until : ℕ} {rows rows' : List ScheduledJobState}
        → Others me until rows rows'
        → Kept until until rows rows'
    beat :
        {until until' : ℕ} {rows rows₁ rows' : List ScheduledJobState} (now next_until : ℕ)
        → Others me until rows rows₁
        → now < until
        → Kept next_until until' ((extend_lease job me now next_until rows₁).1) rows'
        → Kept until until' rows rows'

  pub Kept-Holds :
      {until until' : ℕ} {rows rows' : List ScheduledJobState}
      → Kept until until' rows rows'
      → Holds job me until rows
      → Holds job me until' rows'
  unfolding extend_lease
  Kept-Holds (steps others) h = Others-Holds job me _ others h
  Kept-Holds (beat {until = until} {rows₁ = rows₁} now next_until others lt rest) h =
      let (s, found, by, to) = Others-Holds job me until others h in
      Kept-Holds rest (
        extended next_until s,
        held_row until now (extended next_until) rows₁ (λ x. refl) lt {s = s} found by to,
        by,
        refl,
      )

-- While the lease of a job is held, an attempt at it fails, and changes nothing.
refused :
    (job holder until now worker until' : ℕ) (rows : List ScheduledJobState)
    → HasDistinct name_of rows
    → now < until
    → Holds job holder until rows
    → try_acquire_lease job now worker until' rows ≡ (ok none, rows)
unfolding try_acquire_lease
refused job holder until now worker until' rows d lt (s, found, by, to) =
    rw (count_where-zero name_of (may_acquire job now) job asks rows d locked) refl
  where
    asks : (x : ScheduledJobState) → may_acquire job now x ≡ true → x.job_name ≡ job
    asks x h = ground arith

    locked_row :
        (x : ScheduledJobState) → x.locked_until ≡ some until → may_acquire job now x ≡ false
    locked_row x to' = rw to' (ground arith)

    locked :
        (x : ScheduledJobState) → find_by name_of job rows ≡ some x → may_acquire job now x ≡ false
    locked x h =
        let same : x ≡ s = some-injective _ _ (sym h ∙ found) in
        locked_row x (ap (λ (r : ScheduledJobState). r.locked_until) same ∙ to)

-- What a run has recorded in the row `t`, as the handler's time left it.
abbrev pub IsRecorded :
    ScheduledJobDefinition
    → ℕ
    → HandlerOutcome
    → ScheduledJobState
    → RunResult
    → Option ScheduledJobState
    → Type 0
IsRecorded job finished_at completed t r row =
    (r ≡ success_recorded) × (row ≡ some (succeeded finished_at (job.next_run finished_at) t))
IsRecorded job finished_at (threw true message) t r row = (r ≡ aborted) × (row ≡ some t)
IsRecorded job finished_at (threw false message) t r row =
    (r ≡ failure_recorded)
    × (row ≡ some (failed finished_at (add_seconds finished_at job.retry_delay_seconds) message t))

module _ (job : ScheduledJobDefinition) (me started_at finished_at : ℕ)
    (meanwhile : List ScheduledJobState → List ScheduledJobState) where
  -- The table when the lease has been taken, and when the handler is done.
  abbrev pub at_start : List ScheduledJobState → List ScheduledJobState
  at_start rows =
      update_many (may_acquire job.id started_at)
        (leased started_at me (add_seconds started_at job.lease_ttl_seconds)) rows

  -- What the run returns and leaves, when the handler's time left the table `rows`.
  abbrev pub Records :
      HandlerOutcome → List ScheduledJobState → RunResult → List ScheduledJobState → Type 0
  Records outcome rows r rows' =
      (t : ScheduledJobState) × (find_by name_of job.id rows ≡ some t)
      × IsRecorded job finished_at outcome t r (find_by name_of job.id rows')

  handled-IsRecorded :
      (outcome : HandlerOutcome) (until : ℕ) (rows : List ScheduledJobState)
      → finished_at < until
      → Holds job.id me until rows
      → Returns (Records outcome rows) (after_handler job me finished_at outcome false rows)
  unfolding mark_job_succeeded mark_job_failed
  handled-IsRecorded completed until rows lt (t, found, by, to) =
      let change = succeeded finished_at (job.next_run finished_at) in
      Returns-step (Records completed rows) (update_held job.id me finished_at change)
        (λ persisted. pure (if persisted then success_recorded else not_persisted)) rows
        (held_passes job.id me until finished_at change rows (λ x. refl) lt {s = t} found by to)
        (
          t,
          found,
          (
            refl,
            held_row job.id me until finished_at change rows (λ x. refl) lt {s = t} found by to,
          ),
        )
  handled-IsRecorded (threw true message) until rows lt (t, found, by, to) =
      (t, found, (refl, found))
  handled-IsRecorded (threw false message) until rows lt (t, found, by, to) =
      let change = failed finished_at (add_seconds finished_at job.retry_delay_seconds) message in
      Returns-step (Records (threw false message) rows) (update_held job.id me finished_at change)
        (λ persisted. pure (if persisted then failure_recorded else not_persisted)) rows
        (held_passes job.id me until finished_at change rows (λ x. refl) lt {s = t} found by to)
        (
          t,
          found,
          (
            refl,
            held_row job.id me until finished_at change rows (λ x. refl) lt {s = t} found by to,
          ),
        )

  -- A run of a job that is found and due, during which the heartbeats keep the lease, and which ends
  -- before the lease runs out: its outcome is recorded. A handler that returned gives the lease back
  -- and sets the next run by the schedule, one that threw does so after the delay, with the error; an
  -- abort leaves the row.
  pub run_job-IsRecorded :
      (outcome : HandlerOutcome) (until : ℕ) (rows : List ScheduledJobState) {s : ScheduledJobState}
      → find_by name_of job.id rows ≡ some s
      → is_due started_at s ≡ true
      → Kept job.id me
          (add_seconds started_at job.lease_ttl_seconds)
          until
          (at_start rows)
          (meanwhile (at_start rows))
      → finished_at < until
      → Returns
          (Records outcome (meanwhile (at_start rows)))
          (run_job job me started_at meanwhile finished_at outcome false rows)
  unfolding run_job
  run_job-IsRecorded outcome until rows found due kept lt =
      let ttl = add_seconds started_at job.lease_ttl_seconds in
      Returns-step _ (try_acquire_lease job.id started_at me ttl)
        (after_acquire job me meanwhile finished_at outcome false) rows
        (acquired job.id started_at me ttl rows found due)
        (handled-IsRecorded outcome until (meanwhile (at_start rows)) lt
          (Kept-Holds job.id me kept (acquired-Holds job.id started_at me ttl rows found due)))

  -- While a worker holds the lease of a job, and after whatever the others have done since, a run of
  -- the job by any worker that begins before the lease runs out does not reach the handler, and
  -- changes nothing.
  pub run_job-excluded :
      (outcome : HandlerOutcome) (lost : Bool) (holder until : ℕ)
      {rows rows' : List ScheduledJobState}
      → Holds job.id holder until rows
      → Others holder until rows rows'
      → HasDistinct name_of rows'
      → started_at < until
      → run_job job me started_at meanwhile finished_at outcome lost rows'
        ≡ (ok not_acquired, rows')
  unfolding run_job
  run_job-excluded outcome lost holder until {rows' = rows'} held others d lt =
      bind_ok
        (try_acquire_lease job.id started_at me (add_seconds started_at job.lease_ttl_seconds))
        (after_acquire job me meanwhile finished_at outcome lost) rows'
        (refused job.id holder until started_at me (add_seconds started_at job.lease_ttl_seconds)
          rows' d lt (Others-Holds job.id holder until others held))
