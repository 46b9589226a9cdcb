-- ===== src/Scheduler/Tests.antt =====
-- The theorems on the scheduler, at a table with two jobs.
use ssambee_be.Prelude.{◌+◌, ◌*◌, ◌≡◌, ◌<◌, ◌≤◌, refl, false, some, List, [], ◌∷◌, arith, find_by}
use ssambee_be.Prelude.Action.{ok, Returns}
use ssambee_be.Scheduler.Repo.{
  ScheduledJobState, name_of, new_state, leased, extend_lease, ensure_job_state,
}
use ssambee_be.Scheduler.Ensure.{undisturbed, HasSchedule, ensure-HasSchedule, ensure_race}
use ssambee_be.Scheduler.Lease.{Others}
use ssambee_be.Scheduler.Worker.{
  ScheduledJobDefinition, completed, not_acquired, run_job, calculate_heartbeat_interval_ms,
  heartbeat_bounds,
}
use ssambee_be.Scheduler.Worker.Runs.{
  Kept, steps, beat, Records, at_start, run_job-IsRecorded, run_job-excluded,
}

-- The billing job is job 1; the lease lasts 300 seconds.
abbrev billing_reconcile : ScheduledJobDefinition
billing_reconcile = record {
  id = 1;
  lease_ttl_seconds = 300;
  retry_delay_seconds = 300;
  next_run = λ t. t + 86_400_000;
}

abbrev due_state : ScheduledJobState
due_state = new_state 1 "0 0 * * *|Asia/Seoul" 1000

abbrev free_table : List ScheduledJobState
free_table = due_state ∷ new_state 2 "" 9000 ∷ []

-- Worker 8 holds the lease of job 1 until 301000.
abbrev leased_table : List ScheduledJobState
leased_table = leased 1000 8 301_000 due_state ∷ new_state 2 "" 9000 ∷ []

-- Worker 8 works on job 1 from 1000 on, with one heartbeat at 31000.
abbrev with_heartbeat : List ScheduledJobState → List ScheduledJobState
unfolding extend_lease
with_heartbeat rows = (extend_lease 1 8 31_000 331_000 rows).1

heartbeat-Kept :
    Kept 1 8 301_000 331_000
      (at_start billing_reconcile 8 1000 40_000 with_heartbeat free_table)
      (with_heartbeat (at_start billing_reconcile 8 1000 40_000 with_heartbeat free_table))
unfolding with_heartbeat
heartbeat-Kept = beat 31_000 331_000 Others.idle (omega arith) (steps Others.idle)

run_job_example :
    Returns
      (Records billing_reconcile 8 1000 40_000 with_heartbeat completed
        (with_heartbeat (at_start billing_reconcile 8 1000 40_000 with_heartbeat free_table)))
      (run_job billing_reconcile 8 1000 with_heartbeat 40_000 completed false free_table)
run_job_example =
    run_job-IsRecorded billing_reconcile 8 1000 40_000 with_heartbeat completed 331_000 free_table
      refl refl heartbeat-Kept (omega arith)

excluded_example :
    run_job billing_reconcile 9 2000 undisturbed 3000 completed false leased_table
    ≡ (ok not_acquired, leased_table)
excluded_example =
    run_job-excluded billing_reconcile 9 2000 3000 undisturbed completed false 8 301_000
      {rows = leased_table} (leased 1000 8 301_000 due_state, refl, refl, refl) Others.idle
      (ground arith) (omega arith)

ensure_example :
    Returns
      (λ row rows'.
        (row ≡ find_by name_of 1 rows')
        × HasSchedule 1 "0 4 * * *|Asia/Seoul" 5000 (some due_state) row)
      (ensure_job_state undisturbed 1 "0 4 * * *|Asia/Seoul" 5000 free_table)
ensure_example = ensure-HasSchedule 1 "0 4 * * *|Asia/Seoul" 5000 free_table

abbrev appear : List ScheduledJobState → List ScheduledJobState
appear rows = due_state ∷ rows

race_example : ensure_job_state appear 1 "" 5000 [] ≡ (ok (some due_state), due_state ∷ [])
race_example = ensure_race 1 "" 5000 appear [] refl refl

heartbeat_example :
    (calculate_heartbeat_interval_ms 300 < 300 * 1000)
    × (250 ≤ calculate_heartbeat_interval_ms 300)
    × (calculate_heartbeat_interval_ms 300 ≤ 30_000)
heartbeat_example = heartbeat_bounds 300 (omega arith)
