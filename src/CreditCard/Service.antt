-- ===== src/CreditCard/Service.antt =====
-- The mutating methods of `creditcard.Service` (backend/internal/creditcard/service.go), each in one
-- database transaction. What they share is here, the methods are in the children.
pub mod Lines
pub mod Settlement
pub mod Import
