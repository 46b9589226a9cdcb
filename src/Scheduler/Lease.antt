-- ===== src/Scheduler/Lease.antt =====
-- The lease of a job excludes every other worker until it runs out.
use ssambee_be.Prelude.{
  ℕ, ◌==◌, ◌≡◌, ◌≢◌, ◌<◌, refl, ap, ◌∙◌, Bool, false, some, List, String, find_by, update_many,
  count_where, arith, inl, inr, Bool-cases, find_by-update_many, updated_row,
}
use ssambee_be.Scheduler.Repo.{
  ScheduledJobState, name_of, may_acquire, leased, try_acquire_lease, holds_lease, extend_lease,
  mark_job_succeeded, mark_job_failed, succeeded, failed, extended,
}

-- The worker holds the lease of the job until a time.
abbrev pub Holds : ℕ → ℕ → ℕ → List ScheduledJobState → Type 0
Holds job_name worker until rows =
    (s : ScheduledJobState) × (find_by name_of job_name rows ≡ some s)
    × (s.locked_by ≡ some worker)
    × (s.locked_until ≡ some until)

-- Steps of the others before a time: any attempt at a lease, and what workers other than `me` do with
-- theirs, for any job; the order is open.
pub data Others (me until : ℕ) : List ScheduledJobState → List ScheduledJobState → Type 0 where
  idle : {rows : List ScheduledJobState} → Others me until rows rows
  attempt :
      {rows rows' : List ScheduledJobState} (job worker now until' : ℕ)
      → now < until
      → Others me until ((try_acquire_lease job now worker until' rows).1) rows'
      → Others me until rows rows'
  extend :
      {rows rows' : List ScheduledJobState} (job worker now until' : ℕ)
      → worker ≢ me
      → Others me until ((extend_lease job worker now until' rows).1) rows'
      → Others me until rows rows'
  succeed :
      {rows rows' : List ScheduledJobState} (job worker now finished next : ℕ)
      → worker ≢ me
      → Others me until ((mark_job_succeeded job worker now finished next rows).1) rows'
      → Others me until rows rows'
  fail :
      {rows rows' : List ScheduledJobState} (job worker now finished next : ℕ) (message : String)
      → worker ≢ me
      → Others me until ((mark_job_failed job worker now finished next message rows).1) rows'
      → Others me until rows rows'

-- An update whose clause the row does not meet leaves it.
untouched :
    (p : ScheduledJobState → Bool) (f : ScheduledJobState → ScheduledJobState) (k : ℕ)
    (rows : List ScheduledJobState) {s : ScheduledJobState}
    → ((x : ScheduledJobState) → (f x).job_name ≡ x.job_name)
    → find_by name_of k rows ≡ some s
    → p s ≡ false
    → find_by name_of k (update_many p f rows) ≡ some s
untouched p f k rows {s = s} same_name h off =
    find_by-update_many name_of p f same_name k rows ∙ ap (updated_row p f) h ∙ rw off refl

module _ (job me until : ℕ) where
  held-attempt :
      (k worker now until' : ℕ) (rows : List ScheduledJobState)
      → now < until
      → Holds job me until rows
      → Holds job me until ((try_acquire_lease k now worker until' rows).1)
  unfolding try_acquire_lease
  held-attempt k worker now until' rows lt (s, found, by, to) =
      elim (Bool-cases (count_where (may_acquire k now) rows == 0)) [
        | inl none_free ↦ rw none_free (s, found, by, to)
        | inr some_free ↦ rw some_free (
          s,
          untouched (may_acquire k now) (leased now worker until') job rows {s = s} (λ x. refl)
              found (locked s to),
          by,
          to,
        )
      ]
    where
      locked : (s : ScheduledJobState) → s.locked_until ≡ some until → may_acquire k now s ≡ false
      locked s to = rw to (ground arith)

  held-update :
      (k worker now : ℕ) (change : ScheduledJobState → ScheduledJobState)
      (rows : List ScheduledJobState)
      → ((x : ScheduledJobState) → (change x).job_name ≡ x.job_name)
      → worker ≢ me
      → Holds job me until rows
      → Holds job me until (update_many (holds_lease k worker now) change rows)
  held-update k worker now change rows same_name ne (s, found, by, to) = (
    s,
    untouched (holds_lease k worker now) change job rows {s = s} same_name found (mine s by),
    by,
    to,
  )
    where
      mine : (s : ScheduledJobState) → s.locked_by ≡ some me → holds_lease k worker now s ≡ false
      mine s by = rw by (ground arith)

  pub Others-Holds :
      {rows rows' : List ScheduledJobState}
      → Others me until rows rows'
      → Holds job me until rows
      → Holds job me until rows'
  unfolding extend_lease mark_job_succeeded mark_job_failed
  Others-Holds Others.idle h = h
  Others-Holds (Others.attempt {rows = r} k worker now until' lt steps) h =
      Others-Holds steps (held-attempt k worker now until' r lt h)
  Others-Holds (Others.extend {rows = r} k worker now until' ne steps) h =
      Others-Holds steps (held-update k worker now (extended until') r (λ x. refl) ne h)
  Others-Holds (Others.succeed {rows = r} k worker now finished next ne steps) h =
      Others-Holds steps (held-update k worker now (succeeded finished next) r (λ x. refl) ne h)
  Others-Holds (Others.fail {rows = r} k worker now finished next message ne steps) h =
      Others-Holds steps
        (held-update k worker now (failed finished next message) r (λ x. refl) ne h)
