-- ===== src/ParserRules/Chosen.antt =====
-- Which rule the search selects, whatever the order of the rules.
use wealth_management.Prelude.{
  true, false, List, [], ◌∷◌, All, ◌≡◌, ◌≢◌, refl, ◌⊎◌, inl, inr, arith, Bool-cases,
}
use mathlib.Core.List.{Perm}
use mathlib.Core.List.Perm
use wealth_management.Prelude.Int.{ℤ, ◌≤ℤ◌, ltb_ℤ, int_laws}
use wealth_management.Prelude.Text.{Text}
use wealth_management.Prelude.Sort.{sort_by, sort_by-Perm, All-sort_by, Pairwise, sort_by-Pairwise}
use wealth_management.ParserRules.Types.{Rule, UserRule, Error, ambiguous_top_priority, Library}
use wealth_management.ParserRules.Matching.{Verdict, skip, take, fail, apply_one, matches_user_rule}
use wealth_management.ParserRules.Select.{
  Selection, none_selected, selected, failed, precedes, confirm, search_rules, match_and_apply,
  match_user_rule,
}

pub Verdict-cases :
    {B : Type 0} (v : Verdict B)
    → (v ≡ skip) ⊎ (((b : B) × (v ≡ take b)) ⊎ ((e : Error) × (v ≡ fail e)))
Verdict-cases skip = inl refl
Verdict-cases (take b) = inr (inl (b, refl))
Verdict-cases (fail e) = inr (inr (e, refl))

module _ {A B : Type 0} (priority : A → ℤ) (verdict : A → Verdict B) where
  -- Two rules of one priority match, and none of the others that match has a higher one.
  pub record IsTied (rules : List A) : Type 0 where
    pub first : A
    pub second : A
    pub rest : List A
    pub split : Perm rules (first ∷ second ∷ rest)
    pub first_matches : (b : B) × (verdict first ≡ take b)
    pub second_matches : (b : B) × (verdict second ≡ take b)
    pub equal : priority first ≡ priority second
    pub highest : All (λ q. (verdict q ≡ skip) ⊎ (priority q ≤ℤ priority first)) rest

  -- A rule yields the value, and each of the others does not match or has a lower priority.
  pub record IsTop (rules : List A) (b : B) : Type 0 where
    pub rule : A
    pub rest : List A
    pub split : Perm rules (rule ∷ rest)
    pub matches : verdict rule ≡ take b
    pub highest : All (λ q. (verdict q ≡ skip) ⊎ (ltb_ℤ (priority q) (priority rule) ≡ true)) rest

  -- The error of a rule, and none of the others that match or fail has a higher priority.
  pub record IsBroken (rules : List A) (e : Error) : Type 0 where
    pub rule : A
    pub rest : List A
    pub split : Perm rules (rule ∷ rest)
    pub fails : verdict rule ≡ fail e
    pub highest : All (λ q. (verdict q ≡ skip) ⊎ (priority q ≤ℤ priority rule)) rest

  abbrev pub IsSelection : List A → Selection B → Type 0
  IsSelection rules none_selected = All (λ r. verdict r ≡ skip) rules
  IsSelection rules (selected b) = IsTop rules b
  IsSelection rules (failed e) = ((e ≡ ambiguous_top_priority) × IsTied rules) ⊎ IsBroken rules e

  swap_in :
      (r q : A) {rest rules : List A} → Perm rules (r ∷ rest) → Perm (q ∷ rules) (r ∷ q ∷ rest)
  swap_in r q {rest} p = Perm.trans (Perm.cons q p) (Perm.swap r q rest)

  -- A rule that is passed over does not change what is selected.
  IsSelection-skip :
      (r : A) (rules : List A) (s : Selection B)
      → verdict r ≡ skip
      → IsSelection rules s
      → IsSelection (r ∷ rules) s
  IsSelection-skip r rules none_selected k h = (k, h)
  IsSelection-skip r rules (selected b) k h = record {
    rule = h.rule;
    rest = r ∷ h.rest;
    split = swap_in h.rule r h.split;
    matches = h.matches;
    highest = (inl k, h.highest);
  }
  IsSelection-skip r rules (failed e) k (inl (a, h)) = inl (
    a,
    record {
      first = h.first;
      second = h.second;
      rest = r ∷ h.rest;
      split =
          Perm.trans (swap_in h.first r h.split) (Perm.cons h.first (Perm.swap h.second r h.rest));
      first_matches = h.first_matches;
      second_matches = h.second_matches;
      equal = h.equal;
      highest = (inl k, h.highest);
    },
  )
  IsSelection-skip r rules (failed e) k (inr h) = inr (record {
    rule = h.rule;
    rest = r ∷ h.rest;
    split = swap_in h.rule r h.split;
    fails = h.fails;
    highest = (inl k, h.highest);
  })

  IsSelection-perm :
      (rules rules' : List A) (s : Selection B)
      → Perm rules' rules
      → (All (λ r. verdict r ≡ skip) rules → All (λ r. verdict r ≡ skip) rules')
      → IsSelection rules s
      → IsSelection rules' s
  IsSelection-perm rules rules' none_selected p a h = a h
  IsSelection-perm rules rules' (selected b) p a h = record {
    rule = h.rule;
    rest = h.rest;
    split = Perm.trans p h.split;
    matches = h.matches;
    highest = h.highest;
  }
  IsSelection-perm rules rules' (failed e) p a (inl (k, h)) = inl (
    k,
    record {
      first = h.first;
      second = h.second;
      rest = h.rest;
      split = Perm.trans p h.split;
      first_matches = h.first_matches;
      second_matches = h.second_matches;
      equal = h.equal;
      highest = h.highest;
    },
  )
  IsSelection-perm rules rules' (failed e) p a (inr h) = inr (record {
    rule = h.rule;
    rest = h.rest;
    split = Perm.trans p h.split;
    fails = h.fails;
    highest = h.highest;
  })

  abbrev NotHigher : A → A → Type 0
  NotHigher r q = priority q ≤ℤ priority r

  All-lower :
      (top : ℤ) (q : A) (rs : List A)
      → ltb_ℤ (priority q) top ≡ true
      → All (NotHigher q) rs
      → All (λ x. (verdict x ≡ skip) ⊎ (ltb_ℤ (priority x) top ≡ true)) rs
  All-lower top q [] l h = tt
  All-lower top q (x ∷ rs) l (h, hs) = (inr (ground arith), All-lower top q rs l hs)

  All-NotHigher :
      (r : A) (rs : List A)
      → All (NotHigher r) rs
      → All (λ x. (verdict x ≡ skip) ⊎ (priority x ≤ℤ priority r)) rs
  All-NotHigher r [] h = tt
  All-NotHigher r (x ∷ rs) (h, hs) = (inr h, All-NotHigher r rs hs)

  confirm-IsSelection :
      (r : A) (b : B) (rs : List A)
      → verdict r ≡ take b
      → All (NotHigher r) rs
      → Pairwise NotHigher rs
      → IsSelection (r ∷ rs) (confirm priority verdict (priority r) b rs)
  unfolding confirm
  confirm-IsSelection r b [] t h s = record {
    rule = r;
    rest = [];
    split = Perm.rfl;
    matches = t;
    highest = tt;
  }
  confirm-IsSelection r b (q ∷ rs) t (h, hs) (g, gs) =
      elim (Bool-cases (ltb_ℤ (priority q) (priority r))) [
        | inl l ↦
            rw (l, confirm)
              (record {
                rule = r;
                rest = q ∷ rs;
                split = Perm.rfl;
                matches = t;
                highest = (inr l, All-lower (priority r) q rs l g);
              })
        | inr l ↦ elim (Verdict-cases (verdict q)) [
          | inl k ↦
              rw (l, k, confirm)
                (IsSelection-perm (q ∷ r ∷ rs) (r ∷ q ∷ rs)
                  (confirm priority verdict (priority r) b rs) (Perm.swap q r rs)
                  (λ (x, (y, z)). (y, (x, z)))
                  (IsSelection-skip q (r ∷ rs) (confirm priority verdict (priority r) b rs) k
                    (confirm-IsSelection r b rs t hs gs)))
          | inr (inl (c, k)) ↦
              rw (l, k, confirm)
                (inl (
                  refl,
                  record {
                    first = r;
                    second = q;
                    rest = rs;
                    split = Perm.rfl;
                    first_matches = (b, t);
                    second_matches = (c, k);
                    equal = grind int_laws;
                    highest = All-NotHigher r rs hs;
                  },
                ))
          | inr (inr (e, k)) ↦
              rw (l, k, confirm)
                (inr (record {
                  rule = q;
                  rest = r ∷ rs;
                  split = Perm.swap q r rs;
                  fails = k;
                  highest = (inr (ground arith), All-NotHigher q rs g);
                }))
        ]
      ]

  search_rules-IsSelection :
      (rs : List A) → Pairwise NotHigher rs → IsSelection rs (search_rules priority verdict rs)
  unfolding search_rules
  search_rules-IsSelection [] h = tt
  search_rules-IsSelection (r ∷ rs) (h, hs) = elim (Verdict-cases (verdict r)) [
    | inl k ↦
        rw (k, search_rules)
          (IsSelection-skip r rs (search_rules priority verdict rs) k
            (search_rules-IsSelection rs hs))
    | inr (inl (b, k)) ↦ rw (k, search_rules) (confirm-IsSelection r b rs k h hs)
    | inr (inr (e, k)) ↦
        rw (k, search_rules)
          (inr (record {
            rule = r;
            rest = rs;
            split = Perm.rfl;
            fails = k;
            highest = All-NotHigher r rs h;
          }))
  ]

  module _ (id : A → Text) where
    precedes_before : (x y : A) → precedes priority id x y ≡ true → NotHigher x y
    unfolding precedes
    precedes_before x y h = ground arith

    precedes_after : (x y : A) → precedes priority id y x ≡ false → NotHigher x y
    unfolding precedes
    precedes_after x y h = ground arith

    pub search_sorted-IsSelection :
        (rules : List A)
        → IsSelection rules (search_rules priority verdict (sort_by (precedes priority id) rules))
    search_sorted-IsSelection rules =
        let sorted = sort_by (precedes priority id) rules in
        IsSelection-perm sorted rules (search_rules priority verdict sorted)
          (Perm.symm (sort_by-Perm (precedes priority id) rules))
          (All-sort_by (precedes priority id) (λ r. verdict r ≡ skip) rules)
          (search_rules-IsSelection sorted (
            sort_by-Pairwise (precedes priority id) NotHigher precedes_before precedes_after
              (λ x y z h k. omega arith) rules))

apply_one_total :
    (lib : Library) (sender content : Text) (rule : Rule) (e : Error)
    → apply_one lib sender content rule ≢ fail e
unfolding apply_one
apply_one_total lib sender content rule e = λ h. ground arith

-- The global rule that is selected, for any rules in any order: none if no rule matches; the result of
-- a rule if it matches and every other that matches has a lower priority; and otherwise the error for
-- an ambiguous configuration, if two that match share the highest priority. No single rule is an error.
pub match_and_apply-IsSelection :
    (lib : Library) (sender content : Text) (rules : List Rule)
    → IsSelection
        (λ r. r.priority)
        (apply_one lib sender content)
        rules
        (match_and_apply lib sender content rules)
      × ((rule : Rule) (e : Error) → apply_one lib sender content rule ≢ fail e)
unfolding match_and_apply
match_and_apply-IsSelection lib sender content rules = (
  search_sorted-IsSelection (λ r. r.priority) (apply_one lib sender content) (λ r. r.id) rules,
  apply_one_total lib sender content,
)

-- The user's rule that is selected, for any rules in any order: as for the global rules, save that a
-- rule may fail to be evaluated. The search then ends with the error of a rule that fails only if none
-- of the others that match or fail has a higher priority.
pub match_user_rule-IsSelection :
    (lib : Library) (sender subject content : Text) (rules : List UserRule)
    → IsSelection
        (λ r. r.priority)
        (matches_user_rule lib sender subject content)
        rules
        (match_user_rule lib sender subject content rules)
unfolding match_user_rule
match_user_rule-IsSelection lib sender subject content rules =
    search_sorted-IsSelection (λ r. r.priority) (matches_user_rule lib sender subject content)
      (λ r. r.id) rules
