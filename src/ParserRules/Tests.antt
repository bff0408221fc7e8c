-- ===== src/ParserRules/Tests.antt =====
-- The selection of a rule at concrete inputs.
use wealth_management.Prelude.{ℕ, ◌+◌, ◌&&◌, some, [], ◌∷◌, leb, any, if◌then◌else◌, ◌≢◌}
use wealth_management.Prelude.Int.{pos}
use wealth_management.Prelude.Text.{Text, codes, text_eq, text_lt, trim_space, is_space}
use wealth_management.Prelude.Sort.{sort_by, insert_by}
use wealth_management.ParserRules.Types.{
  Rule, AppliedRule, UserRule, Error, ambiguous_top_priority, Library,
}
use wealth_management.ParserRules.Matching.{
  fail, supported_field, put, add_constants, add_extractors, matches, apply_one, sender_address,
  after_last, has_suffix, without_at, matches_sender, matches_conditions, matches_user_rule,
}
use wealth_management.ParserRules.Select.{
  selected, failed, precedes, confirm, search_rules, match_and_apply, match_user_rule,
}
use wealth_management.ParserRules.Chosen.{
  IsSelection, match_and_apply-IsSelection, match_user_rule-IsSelection,
}

-- A pattern is a literal text here, and an address is a bare one.
abbrev library : Library
library = record {
  test = λ pattern value. some (text_eq pattern value);
  submatches = λ pattern value. some [];
  parse_address = λ value. some value;
  decode_config =
      λ raw. some (record { constants = (codes "title", codes "Lunch") ∷ []; extractors = [] });
  lower_rune = λ c. if leb 65 c && leb c 90 then c + 32 else c;
  equal_fold = text_eq;
}

abbrev global : Text → ℕ → Rule
global id priority = record {
  id = id;
  name = id;
  version = pos 1;
  priority = pos priority;
  sender_matcher = [];
  content_matcher = [];
  prompt_fragment = [];
  extraction_config = codes "{}";
}

abbrev result : AppliedRule
result = record {
  id = codes "b";
  name = codes "b";
  version = pos 1;
  priority = pos 9;
  prompt_fragment = [];
  values = (codes "title", codes "Lunch" ∷ []) ∷ [];
}

match_and_apply-IsSelection_example :
    IsSelection
      (λ r. r.priority)
      (apply_one library [] [])
      (global (codes "a") 3 ∷ global (codes "b") 9 ∷ [])
      (selected result)
    × ((rule : Rule) (e : Error) → apply_one library [] [] rule ≢ fail e)
unfolding match_and_apply sort_by insert_by precedes search_rules confirm apply_one add_constants
    add_extractors matches supported_field any put text_eq text_lt trim_space is_space
match_and_apply-IsSelection_example =
    match_and_apply-IsSelection library [] [] (global (codes "a") 3 ∷ global (codes "b") 9 ∷ [])

abbrev own : Text → UserRule
own id = record {
  id = id;
  name = id;
  version = pos 2;
  priority = pos 5;
  sender_match_type = codes "domain";
  sender_match_value = codes "@Bank.com";
  subject_matcher = [];
  content_matcher = [];
  prompt_fragment = [];
}

-- Both rules match an address of a subdomain.
match_user_rule-IsSelection_example :
    IsSelection
      (λ r. r.priority)
      (matches_user_rule library (codes "alerts@mail.bank.com") [] [])
      (own (codes "y") ∷ own (codes "x") ∷ [])
      (failed ambiguous_top_priority)
unfolding match_user_rule sort_by insert_by precedes search_rules confirm matches_user_rule
    matches_sender matches_conditions sender_address after_last has_suffix without_at text_eq
    text_lt trim_space is_space
match_user_rule-IsSelection_example =
    match_user_rule-IsSelection library (codes "alerts@mail.bank.com") [] []
      (own (codes "y") ∷ own (codes "x") ∷ [])
