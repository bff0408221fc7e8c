-- ===== src/Reconciliation.antt =====
-- The package `reconciliation` (backend/internal/reconciliation): which transaction, if any, a parsed
-- piece of evidence belongs to.
pub mod Types
pub mod Validation
pub mod Accounts
pub mod Decide
pub mod Response
mod Citations
mod Confidence
pub mod Amounts
mod Grouping
pub mod Corroboration
mod Eligible
mod Keys
mod Attach
mod Decisions
mod Tests
mod EvidenceTests
