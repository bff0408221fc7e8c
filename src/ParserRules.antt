-- ===== src/ParserRules.antt =====
-- The package `parserrules` (backend/internal/parserrules/rules.go): which parser rule a mail is read
-- with.
pub mod Types
pub mod Matching
pub mod Select
mod Chosen
mod Tests
