-- ===== src/BulkImport.antt =====
-- The package `bulkimport` (backend/internal/bulkimport/service.go and model.go): what a request must
-- satisfy before it reaches the store, and how a file is reserved.
pub mod Types
pub mod Requests
pub mod Service
pub mod Batch
pub mod Finalize
mod Finalized
mod Unique
mod Accepted
mod Reserved
mod Tests
mod FinalizeTests
