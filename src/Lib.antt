-- ===== src/Lib.antt =====
-- A model of parts of the backend of an academy, with the theorems that make them correct. The
-- backend is written in TypeScript; services (src/services) hold the rules, repositories
-- (src/repos) the queries of the Prisma client, and utilities (src/utils) the dates.
--
-- The program's parts that are modelled, and how they interact:
--
-- - Billing. An instructor asks for a bank transfer (createBankTransferPayment); an administrator
--   approves or rejects it, or the instructor cancels it. An approval delivers the items of the
--   payment: a pass becomes one entitlement for each month (provisionPassEntitlements), a credit
--   pack a bucket of credits (grantRechargeCredits). As time goes on, reconcileInstructorState
--   expires and activates entitlements, grants the credits that an active one includes, and expires
--   buckets. consumeCredits spends credits, the earliest expiry first, in a serializable transaction
--   that is tried again on a conflict. The wallet is a cache of the buckets, and the ledger says what
--   changed it. A refund takes back entitlements and credits.
-- - The scheduler runs the reconciliation as a job: workers take a lease of a row in the database,
--   keep it by heartbeats, and record the outcome.
-- - The permission service decides who may read a lecture or an enrollment.
-- - Exams. An exam of a lecture has questions under numbers, which updateExam brings into line with
--   those that a request has; completeGrading does so for the clinics of those who failed it, and
--   calculateAndSaveStatistics stores the rates of the answers and the ranks of the students.
-- - Grading. A grader submits the answers of a student to an exam with a total (submitGrading); the
--   server computes the total again from the questions and compares, and then stores the answers and
--   the grade in a transaction.
--
-- Files:
--
-- - Prelude and its children: names of the libraries, Boolean tests, lists, tables of rows with the
--   queries of the Prisma client (Table, Updates, Views, Finds, Exists), loops over keys (Keyed),
--   signed numbers (Int), methods that change a state and return or throw (Action), and `orderBy` as a
--   parameter that permutes (OrderBy).
-- - Billing/Constants: src/constants/billing.constant.ts. Billing/Database: the billing tables of
--   prisma/schema.prisma. Billing/Dates: src/utils/date.util.ts. Billing/Repo:
--   src/repos/billing.repo.ts, reads in Queries and writes in Writes, named as there.
-- - Billing/Transactions, Credits, Entitlements, Spending, Payments, RefundPlan, Refunds:
--   src/services/billing.service.ts; a private method of the class has its name in snake case, and a
--   long one is split into named pieces, in the order of the source. The children hold the proofs:
--   Credits/Wallet, Credits/Grants, Credits/Recharges, Credits/Consume, Entitlements/Provision,
--   Entitlements/Fates, Entitlements/Settle, Entitlements/Buckets, Entitlements/Expiry,
--   Entitlements/Reconcile, Spending/Consumption, Spending/Whole, Spending/Ledger, Transactions/Retry,
--   Transactions/Refusal, Payments/Request, Payments/Guard, Payments/Moves, Payments/Transitions,
--   RefundPlan/Choice, Refunds/Clawback, Refunds/Balance, Refunds/Revoked, Refunds/Status. Books and
--   the two Effects say what leaves the payments alone.
-- - Scheduler/Repo: src/repos/scheduler.repo.ts. Scheduler/Worker: runJob and the heartbeat of
--   src/services/scheduler.service.ts. Ensure, Lease and Worker/Runs hold the proofs.
-- - Permission: src/services/permission.service.ts with the queries it makes in src/repos;
--   Meaning, Read and Single hold the proofs.
-- - Exams/Database: the tables of prisma/schema.prisma on exams, and the state of the services on
--   them, where the permissions are a part. Exams/Repo: src/repos/exams.repo.ts. Exams/Editing:
--   src/services/exams.service.ts; its children hold the proofs, one step of the loop over the
--   questions in Questions, the loop in Loop, with the deletion before it in Sync, the whole in Update.
--   Exams/Access: the check of the user. Exams/Clinics: src/services/clinics.service.ts, and
--   Exams/Statistics: src/services/statistics.service.ts with src/repos/statistics.repo.ts; their children
--   hold the proofs.
-- - Grades: the checks of submitGrading in src/services/grades.service.ts; Scores, Submission
--   and Acceptance hold the proofs. Grades/Saving: submitGrading as a whole, with the writes of
--   src/repos/grades.repo.ts; its children hold the proofs.
-- - Billing/Samples, Billing/Tests, Billing/Refunds/Tests, Scheduler/Tests, Permission/Tests,
--   Exams/Samples, Exams/Tests, Grades/Tests: concrete data, and the theorems at it.
--
-- How the code is modelled:
--
-- - The state of the database is a record of lists of rows, and an identifier is a number; a new row
--   gets the next one. A method is a function from the state to a result and a state, and a throw
--   keeps what was written before it unless a transaction takes it back. The clock is a function from
--   the number of reads so far, so that a theorem holds for any times. Instants are milliseconds.
-- - Amounts of credits and money are natural numbers, and the deltas of the ledger are signed.
-- - Prisma's `orderBy` is a parameter that returns a permutation of the rows; date-fns and
--   date-fns-tz are a parameter with the laws that they document (Billing/Dates.IsCalendar);
--   cron-parser and the handler of a job are parameters of a run. Where a rank depends on the order,
--   `orderBy` is assumed to sort (Prelude/OrderBy.IsSorting). The average and the percentages with
--   two decimals are a parameter (Exams/Statistics.Numbers). Samples has concrete ones.
-- - Whether the database aborts an attempt of a serializable transaction is a parameter, and so is
--   what other workers do to the table of jobs while one works.
-- - The loop of reconcileInstructorState has its own guard of 120 rounds, which is the fuel of
--   settle_entitlements; it is enough if fewer than 120 entitlements are overdue, and then the loop
--   returns. The retry loop has the source's limit of 3 attempts.
--
-- Not modelled: mails, logs and the formatting of responses; the paged lists and the administrator's
-- products and grants; the abort signal and the sweep over all instructors; the timers and the
-- polling loop of the scheduler; lectures, posts, assignments, files, authentication, the
-- controllers, the routes and the validation schemas, which are glue to packages or forms over the
-- database.
pub mod Prelude
pub mod Billing
pub mod Scheduler
pub mod Permission
pub mod Exams
pub mod Grades
