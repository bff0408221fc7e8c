-- ===== src/CreditCard.antt =====
-- The package `creditcard` (backend/internal/creditcard): credit card bills, from the projection of an
-- imported statement to its settlement.
pub mod Types
pub mod Action
pub mod Rules
pub mod Matching
pub mod Payment
pub mod Requests
pub mod Service
pub mod Currencies
pub mod Statement
pub mod Contract
pub mod Resolution
pub mod Evolution
pub mod Transacting
pub mod Methods
pub mod Calls
