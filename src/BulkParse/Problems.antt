-- ===== src/BulkParse/Problems.antt =====
-- A chain of checks that finds no problem passes each of them (backend/internal/bulkparse/decoder.go).
use wealth_management.Prelude.{
  Bool, true, false, Option, none, some, List, [], ◌∷◌, All, ◌≡◌, refl, arith,
}
use wealth_management.Prelude.Text.{Text}
use wealth_management.BulkParse.Fields.{refuse_if, first_problem}

pub first_problem-none :
    (problems : List (Option Text))
    → first_problem problems ≡ none
    → All (λ problem. problem ≡ none) problems
unfolding first_problem
first_problem-none [] h = tt
first_problem-none (none ∷ rest) h = (refl, first_problem-none rest h)
first_problem-none (some problem ∷ rest) h = ground arith

pub refuse_if-none : (test : Bool) (text : Text) → refuse_if test text ≡ none → test ≡ false
refuse_if-none true text h = ground arith
refuse_if-none false text h = refl
