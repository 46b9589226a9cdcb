-- ===== src/Billing/Entitlements/Settle.antt =====
-- The loop of `reconcileInstructorState`: after it no entitlement of the instructor is overdue, and
-- one is active if any is due.
use ssambee_be.Prelude.OrderBy.{OrderBy}
use ssambee_be.Billing.Database.{Billing}
