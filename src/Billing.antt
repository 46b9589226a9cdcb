-- ===== src/Billing.antt =====
-- Billing: src/services/billing.service.ts over src/repos/billing.repo.ts, with the constants of
-- src/constants/billing.constant.ts and the date arithmetic of src/utils/date.util.ts.
pub mod Constants
pub mod Dates
pub mod Database
pub mod Repo
pub mod Transactions
pub mod Credits
pub mod Books
pub mod Entitlements
pub mod Spending
pub mod Payments
pub mod RefundPlan
pub mod Refunds
pub mod Samples
pub mod Tests
