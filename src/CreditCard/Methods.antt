-- ===== src/CreditCard/Methods.antt =====
-- Every method of the service makes the table of statements evolve.
pub mod Lines
pub mod Header
pub mod Settlement
pub mod Import
