-- ===== src/AccountBalances.antt =====
-- The package `accountbalances` (backend/internal/accountbalances): opening balances, the balances
-- calculated from them, and how a transaction counts as spending.
pub mod Types
pub mod MinorUnits
pub mod Opening
pub mod Balances
pub mod Treatment
pub mod Service
mod Sorted
mod LineSums
mod Exact
mod RoundTrip
mod Normalized
mod Params
mod Tests
mod Range
mod View
