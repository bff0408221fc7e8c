-- ===== src/Currency.antt =====
-- `reconciliation.IsISO4217` (backend/internal/reconciliation/reconciliation.go), which every
-- package uses. The currency registry and the Unicode case tables are parameters.
use wealth_management.Prelude.{ℕ, Bool, ◌&&◌, map}
use wealth_management.Prelude.Text.{Text, text_eq, trim_space}

unfoldable pub is_iso4217 : (ℕ → ℕ) → (Text → Bool) → Text → Bool
is_iso4217 upper_rune parse_iso value =
    let trimmed = trim_space value in text_eq trimmed (map upper_rune trimmed) && parse_iso trimmed
