-- ===== src/Scheduler/Worker.antt =====
-- One run of a job, `runJob` of src/services/scheduler.service.ts, and the interval of its heartbeat.
-- The handler, the package cron-parser (`next_run`) and what happens to the table while the handler
-- runs are parameters; log messages are the result.
pub mod Runs
use ssambee_be.Prelude.{
  ℕ, ◌+◌, ◌*◌, ◌/◌, min, ◌≤◌, ◌<◌, Bool, true, false, ◌||◌, Option, none, some, List, String,
  if◌then◌else◌, arith, ltb,
}
use ssambee_be.Prelude.Action.{pure, modify, ◌>>=◌, ◌>>◌}
use ssambee_be.Scheduler.Repo.{
  ScheduledJobState, Jobs, try_acquire_lease, mark_job_succeeded, mark_job_failed,
}

pub record ScheduledJobDefinition : Type 0 where
  pub id : ℕ
  pub lease_ttl_seconds : ℕ
  pub retry_delay_seconds : ℕ
  pub next_run : ℕ → ℕ

-- The handler returns, or throws: an abort error or another one.
pub data HandlerOutcome : Type 0 where
  completed : HandlerOutcome
  threw : Bool → String → HandlerOutcome

pub data RunResult : Type 0 where
  not_acquired aborted not_persisted success_recorded failure_recorded : RunResult

-- `addSeconds` of date-fns.
abbrev pub add_seconds : ℕ → ℕ → ℕ
add_seconds t n = t + n * 1000

abbrev max : ℕ → ℕ → ℕ
max a b = if ltb a b then b else a

pub calculate_heartbeat_interval_ms : ℕ → ℕ
calculate_heartbeat_interval_ms lease_ttl_seconds =
    let lease_ttl_ms = lease_ttl_seconds * 1000 in max 250 (min (lease_ttl_ms / 2) 30_000)

-- A lease of a second or longer gets a heartbeat, at least every 30 seconds, before it runs out.
pub heartbeat_bounds :
    (ttl : ℕ)
    → 1 ≤ ttl
    → (calculate_heartbeat_interval_ms ttl < ttl * 1000)
      × (250 ≤ calculate_heartbeat_interval_ms ttl)
      × (calculate_heartbeat_interval_ms ttl ≤ 30_000)
unfolding calculate_heartbeat_interval_ms
heartbeat_bounds ttl h = ground arith

module _ (job : ScheduledJobDefinition) (worker_id : ℕ) where
  -- What follows the handler, on the flag `leaseLost`.
  abbrev pub after_handler : ℕ → HandlerOutcome → Bool → Jobs RunResult
  after_handler finished_at completed true = pure aborted
  after_handler finished_at completed false = do
    persisted ←
        mark_job_succeeded job.id worker_id finished_at finished_at (job.next_run finished_at)
    pure (if persisted then success_recorded else not_persisted)
  after_handler finished_at (threw is_abort message) lease_lost =
      if lease_lost || is_abort
      then pure aborted
      else (mark_job_failed job.id worker_id finished_at finished_at
            (add_seconds finished_at job.retry_delay_seconds) message
          >>= λ persisted. pure (if persisted then failure_recorded else not_persisted))

  abbrev pub after_acquire :
      (List ScheduledJobState → List ScheduledJobState)
      → ℕ
      → HandlerOutcome
      → Bool
      → Option ScheduledJobState
      → Jobs RunResult
  after_acquire meanwhile finished_at outcome lease_lost none = pure not_acquired
  after_acquire meanwhile finished_at outcome lease_lost (some _) =
      modify meanwhile >> after_handler finished_at outcome lease_lost

  pub run_job :
      ℕ
      → (List ScheduledJobState → List ScheduledJobState)
      → ℕ
      → HandlerOutcome
      → Bool
      → Jobs RunResult
  run_job started_at meanwhile finished_at outcome lease_lost = do
    acquired ←
        try_acquire_lease job.id started_at worker_id (add_seconds started_at job.lease_ttl_seconds)
    after_acquire meanwhile finished_at outcome lease_lost acquired
