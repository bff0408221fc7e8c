-- ===== src/BulkParse.antt =====
-- The package `bulkparse` (backend/internal/bulkparse/decoder.go): what a model's answer about a page
-- of a bulk import must satisfy, and which candidates are duplicates.
pub mod Types
pub mod Fields
pub mod Candidates
pub mod Summary
pub mod Decode
pub mod Fingerprint
mod Evidence
mod Problems
mod Items
mod Cited
mod Accepted
mod Decoded
mod Duplicates
mod Tests
