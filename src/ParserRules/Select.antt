-- ===== src/ParserRules/Select.antt =====
-- `MatchAndApply` and `MatchUserRule` (backend/internal/parserrules/rules.go): the same search, by the
-- verdict on a single rule.
use wealth_management.Prelude.{Bool, true, false, ◌&&◌, ◌||◌, Option, none, some, List, [], ◌∷◌}
use wealth_management.Prelude.Int.{ℤ, ltb_ℤ, eqb_ℤ}
use wealth_management.Prelude.Text.{Text, text_lt}
use wealth_management.Prelude.Sort.{sort_by}
use wealth_management.ParserRules.Types.{
  Rule, AppliedRule, UserRule, Error, ambiguous_top_priority, Library,
}
use wealth_management.ParserRules.Matching.{Verdict, skip, take, fail, apply_one, matches_user_rule}

-- The selected rule, if any, or the error.
pub data Selection (B : Type 0) : Type 0 where
  none_selected : Selection B
  selected : B → Selection B
  failed : Error → Selection B

abbrev pub of_option : {B : Type 0} → Option B → Selection B
of_option none = none_selected
of_option (some b) = selected b

-- The comparison of `sort.SliceStable`: the higher priority first, then the smaller identifier.
module _ {A : Type 0} (priority : A → ℤ) (id : A → Text) where
  unfoldable pub precedes : A → A → Bool
  precedes a b =
      ltb_ℤ (priority b) (priority a) || (eqb_ℤ (priority a) (priority b) && text_lt (id a) (id b))

module _ {A B : Type 0} (priority : A → ℤ) (verdict : A → Verdict B) where
  -- The loop, once a rule of the given priority is selected.
  unfoldable pub confirm : ℤ → B → List A → Selection B
  confirm top b [] = selected b
  confirm top b (r ∷ rs) = elim (ltb_ℤ (priority r) top) [
    | true ↦ selected b
    | false ↦ elim (verdict r) [
      | skip ↦ confirm top b rs
      | take _ ↦ failed ambiguous_top_priority
      | fail e ↦ failed e
    ]
  ]

  -- The loop over the sorted rules.
  unfoldable pub search_rules : List A → Selection B
  search_rules [] = none_selected
  search_rules (r ∷ rs) = elim (verdict r) [
    | skip ↦ search_rules rs
    | take b ↦ confirm (priority r) b rs
    | fail e ↦ failed e
  ]

unfoldable pub match_and_apply : Library → Text → Text → List Rule → Selection AppliedRule
match_and_apply lib sender content rules =
    search_rules (λ r. r.priority) (apply_one lib sender content)
      (sort_by (precedes (λ r. r.priority) (λ r. r.id)) rules)

unfoldable pub match_user_rule : Library → Text → Text → Text → List UserRule → Selection UserRule
match_user_rule lib sender subject content rules =
    search_rules (λ r. r.priority) (matches_user_rule lib sender subject content)
      (sort_by (precedes (λ r. r.priority) (λ r. r.id)) rules)
