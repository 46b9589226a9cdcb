-- ===== src/Billing/Repo.antt =====
-- src/repos/billing.repo.ts: the queries and writes that the service composes. A call that the code
-- makes in a transaction reads and writes the state of the transaction.
pub mod Queries
pub mod Writes
unfoldable pub use Queries.*
unfoldable pub use Writes.*
