-- ===== src/Scheduler/Ensure.antt =====
-- `ensureJobState` of src/repos/scheduler.repo.ts: the row of a job exists and has its schedule.
use text.Mathlib.Text.{◌==◌ as str_eq}
use ssambee_be.Prelude.{
  ℕ, ◌==◌, ◌≡◌, refl, ap, sym, ◌∙◌, Bool, true, false, Option, none, some, List, [], ◌∷◌, ◌++◌,
  String, find_by, find_unique-append, ==_self, subst, find_by-update_self, update_many,
  if◌then◌else◌,
}
use ssambee_be.Prelude.Action.{Result, ok, err, unique_violation, Returns}
use ssambee_be.Scheduler.Repo.{
  ScheduledJobState, create_state, or_created, name_of, new_state, reschedule, ensure_from,
  update_state, ensure_job_state,
}

abbrev pub undisturbed : List ScheduledJobState → List ScheduledJobState
undisturbed rows = rows

-- The job has a row with the schedule, and the rest of its columns, if it had a row before.
abbrev pub HasSchedule :
    ℕ → String → ℕ → Option ScheduledJobState → Option ScheduledJobState → Type 0
HasSchedule job fingerprint next none row = row ≡ some (new_state job fingerprint next)
HasSchedule job fingerprint next (some s) row =
    row
    ≡ some (if str_eq s.schedule_fingerprint fingerprint then s else reschedule fingerprint next s)

create_new :
    (new : ScheduledJobState) (rows : List ScheduledJobState)
    → find_by name_of new.job_name rows ≡ none
    → create_state new rows ≡ (ok (some new), rows ++ (new ∷ []))
create_new new rows h = rw (h, create_state) refl

create_taken :
    (new : ScheduledJobState) (rows : List ScheduledJobState) {s : ScheduledJobState}
    → find_by name_of new.job_name rows ≡ some s
    → create_state new rows ≡ (err unique_violation, rows)
create_taken new rows h = rw (h, create_state) refl

update_found :
    (job : ℕ) (change : ScheduledJobState → ScheduledJobState) (rows : List ScheduledJobState)
    {s : ScheduledJobState}
    → find_by name_of job rows ≡ some s
    → update_state job change rows
      ≡ (ok (some (change s)), update_many (λ r. r.job_name == job) change rows)
update_found job change rows h = rw (h, update_state) refl

module _ (job : ℕ) (fingerprint : String) (next : ℕ) where
  -- The row that the call returns is the one that the table has, and has the schedule.
  abbrev Ensured :
      Option ScheduledJobState → Option ScheduledJobState → List ScheduledJobState → Type 0
  Ensured existing row rows' =
      (row ≡ find_by name_of job rows') × HasSchedule job fingerprint next existing row

  updated-Ensured :
      (rows : List ScheduledJobState) (s : ScheduledJobState) (same : Bool)
      → find_by name_of job rows ≡ some s
      → Returns
          (λ row rows'.
            (row ≡ find_by name_of job rows')
            × (row ≡ some (if same then s else reschedule fingerprint next s)))
          (if same
            then (ok (some s), rows)
            else update_state job (reschedule fingerprint next) rows)
  updated-Ensured rows s true h = (sym h, refl)
  updated-Ensured rows s false h =
      subst (Returns (Ensured' s)) (sym (update_found job (reschedule fingerprint next) rows h)) (
        sym (find_by-update_self name_of job (reschedule fingerprint next) (λ x. refl) rows h),
        refl,
      )
    where
      Ensured' : ScheduledJobState → Option ScheduledJobState → List ScheduledJobState → Type 0
      Ensured' s row rows' =
          (row ≡ find_by name_of job rows') × (row ≡ some (reschedule fingerprint next s))

  ensured :
      (rows : List ScheduledJobState) (existing : Option ScheduledJobState)
      → find_by name_of job rows ≡ existing
      → Returns (Ensured existing) (ensure_from job fingerprint next existing rows)
  ensured rows none h =
      let new = new_state job fingerprint next in
      subst (λ r. Returns (Ensured none) (or_created job r)) (sym (create_new new rows h))
        (
          sym (
              find_unique-append (λ (r : ScheduledJobState). r.job_name == job) rows new h
                (==_self job)),
          refl,
        )
  ensured rows (some s) h = updated-Ensured rows s (str_eq s.schedule_fingerprint fingerprint) h

  -- Undisturbed, the call returns the row of the job, as the table has it then. A new job gets a row
  -- that is not locked; one with the same schedule is left alone, next run included; on another
  -- schedule only that and the next run change, and a lease is kept.
  pub ensure-HasSchedule :
      (rows : List ScheduledJobState)
      → Returns
          (λ row rows'.
            (row ≡ find_by name_of job rows')
            × HasSchedule job fingerprint next (find_by name_of job rows) row)
          (ensure_job_state undisturbed job fingerprint next rows)
  unfolding ensure_job_state
  ensure-HasSchedule rows = ensured rows (find_by name_of job rows) refl

  -- If another process creates the row of a new job after the query, the call returns that row, and
  -- changes nothing.
  pub ensure_race :
      (meanwhile : List ScheduledJobState → List ScheduledJobState) (rows : List ScheduledJobState)
      {s : ScheduledJobState}
      → find_by name_of job rows ≡ none
      → find_by name_of job (meanwhile rows) ≡ some s
      → ensure_job_state meanwhile job fingerprint next rows ≡ (ok (some s), meanwhile rows)
  unfolding ensure_job_state
  ensure_race meanwhile rows {s = s} h created =
      subst
        (λ existing.
          ensure_from job fingerprint next existing (meanwhile rows)
          ≡ (ok (some s), meanwhile rows))
        (sym h) (raced (meanwhile rows) created)
    where
      raced :
          (rows' : List ScheduledJobState)
          → find_by name_of job rows' ≡ some s
          → ensure_from job fingerprint next none rows' ≡ (ok (some s), rows')
      raced rows' created =
          ap (or_created job) (create_taken (new_state job fingerprint next) rows' created)
          ∙ ap {B = Result (Option ScheduledJobState) × List ScheduledJobState} (λ o. (ok o, rows'))
              created
