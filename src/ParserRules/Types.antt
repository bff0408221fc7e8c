-- ===== src/ParserRules/Types.antt =====
-- The data of backend/internal/parserrules/rules.go, and what it takes from Go's libraries.
use wealth_management.Prelude.{ℕ, Bool, Option, List}
use wealth_management.Prelude.Int.{ℤ}
use wealth_management.Prelude.Text.{Text}

pub record Rule : Type 0 where
  pub id : Text
  pub name : Text
  pub version : ℤ
  pub priority : ℤ
  pub sender_matcher : Text
  pub content_matcher : Text
  pub prompt_fragment : Text
  pub extraction_config : Text

pub record CaptureField : Type 0 where
  pub pattern : Text
  pub group : ℤ

-- A Go map is the list of its entries, in the order in which it is iterated over.
pub record ExtractionConfig : Type 0 where
  pub constants : List (Text × Text)
  pub extractors : List (Text × CaptureField)

pub record AppliedRule : Type 0 where
  pub id : Text
  pub name : Text
  pub version : ℤ
  pub priority : ℤ
  pub prompt_fragment : Text
  pub values : List (Text × List Text)

pub record UserRule : Type 0 where
  pub id : Text
  pub name : Text
  pub version : ℤ
  pub priority : ℤ
  pub sender_match_type : Text
  pub sender_match_value : Text
  pub subject_matcher : Text
  pub content_matcher : Text
  pub prompt_fragment : Text

pub data Error : Type 0 where
  ambiguous_top_priority invalid_provenance invalid_match_type : Error
  invalid_expression invalid_sender_expression : Error

-- `regexp`, `net/mail`, `encoding/json` and the case functions of `strings`. `test` is whether a
-- pattern matches, `submatches` the first ten matches with their groups; both are none for a pattern
-- that does not compile. `decode_config` is none for a text that is not such an object.
pub record Library : Type 0 where
  pub test : Text → Text → Option Bool
  pub submatches : Text → Text → Option (List (List Text))
  pub parse_address : Text → Option Text
  pub decode_config : Text → Option ExtractionConfig
  pub lower_rune : ℕ → ℕ
  pub equal_fold : Text → Text → Bool
