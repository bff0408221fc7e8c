-- ===== src/CreditCard/Methods/Header.antt =====
-- `CorrectHeader` makes the table evolve.
use wealth_management.Prelude.{
  ℕ, ◌+◌, ◌≡◌, refl, sym, ap, ◌∙◌, Bool, false, true, not, Option, none, some, map, arith,
}
use wealth_management.GoTime.{Time, utc}
use wealth_management.CreditCard.Types.{Uuid, Bill, CorrectHeaderInput, is_review}
use wealth_management.CreditCard.Action.{ok, Service}
use wealth_management.Prelude.Int.{pos, leb_ℤ}
use wealth_management.Prelude.Text.{Text, trim_space}
use wealth_management.Currency.{is_iso4217}
use wealth_management.CreditCard.Currencies.{is_code, Alphabet, corrected-is_code}
use wealth_management.CreditCard.Rules.{
  holds, follows, validate_header_fields, apply_header_correction,
}
use wealth_management.CreditCard.Requests.{HeaderCorrectionRequest}
use wealth_management.CreditCard.Service.Lines.{correct_header}
use wealth_management.CreditCard.Statement.{
  row, SameColumns, HasSoundHeader, View, update, AllValid, Evolves,
}
use wealth_management.CreditCard.Contract.{
  Saved, Reads-pure, Reads-lift, Reads-fail_if, Reads-now, Any, Commits-bind, Commits-then,
  Commits-of_reads, StoreContract,
}
use wealth_management.CreditCard.Resolution.{Resolved, resolve_payment-Resolved}
use wealth_management.CreditCard.Evolution.{
  put-Evolves, review_may_become, Reads-load, Reads-event, Reads-resolution_events,
}
use wealth_management.CreditCard.Transacting.{
  Transacts, Transacts-transact, Transacts-lift, Transacts-fail_if,
}
use wealth_management.CreditCard.Methods.Lines.{no_reason_in_review}

-- The correction leaves what is not in the header alone.
module _ {S : Type 0} (s : Service S) (b : Bill) (h : CorrectHeaderInput) where
  reason-apply_header_correction : (apply_header_correction s b h).void_reason ≡ b.void_reason
  unfolding apply_header_correction
  reason-apply_header_correction = refl

  version-apply_header_correction : (apply_header_correction s b h).version ≡ b.version
  unfolding apply_header_correction
  version-apply_header_correction = refl

  id-apply_header_correction : (apply_header_correction s b h).id ≡ b.id
  unfolding apply_header_correction
  id-apply_header_correction = refl

  columns-apply_header_correction : SameColumns (row b) (row (apply_header_correction s b h))
  unfolding apply_header_correction
  columns-apply_header_correction = (refl, refl, refl, refl)

  -- The currency of a corrected bill is the old one or one that was given and checked.
  currency-apply_header_correction :
      Alphabet s.upper_rune s.parse_iso
      → holds (λ code. not (is_code code)) b.settlement_currency ≡ false
      → (given : Option Text) → h.settlement_currency ≡ given
      → holds
          (λ code. not (is_iso4217 s.upper_rune s.parse_iso code))
          (apply_header_correction s b h).settlement_currency
        ≡ false
      → holds (λ code. not (is_code code)) (apply_header_correction s b h).settlement_currency
        ≡ false
  unfolding apply_header_correction
  currency-apply_header_correction al old none e k = rw e old
  currency-apply_header_correction al old (some given) e k =
      let k' : not (is_iso4217 s.upper_rune s.parse_iso (map s.upper_rune (trim_space given)))
          ≡ false =
        rw e at k in
      let code = corrected-is_code s.upper_rune s.parse_iso al given (ground arith) in
      rw (e, code) refl

  validated_currency :
      (c : Bill) (b' : Bool) (u : Unit {0})
      → validate_header_fields s c b' ≡ ok u
      → (follows c.period_start c.period_end ≡ false)
        × (follows c.statement_date c.due_date ≡ false)
        × (holds (λ code. not (is_iso4217 s.upper_rune s.parse_iso code)) c.settlement_currency
            ≡ false)
        × (holds (λ amount. leb_ℤ amount (pos 0)) c.amount_due_minor ≡ false)
  unfolding validate_header_fields
  validated_currency c b' u e = ground arith

  corrected_header :
      Alphabet s.upper_rune s.parse_iso
      → HasSoundHeader (row b)
      → (b' : Bool) (u : Unit {0})
      → validate_header_fields s (apply_header_correction s b h) b' ≡ ok u
      → HasSoundHeader (row (apply_header_correction s b h))
  corrected_header al old b' u e =
      let (p, d, k, a) = validated_currency (apply_header_correction s b h) b' u e in
      let (_, g, m, q) = columns-apply_header_correction in
      record {
        period = p;
        dates = d;
        currency = currency-apply_header_correction al old.currency h.settlement_currency refl k;
        amount = a;
        minimum = rw (sym m) old.minimum;
        previous = rw (sym q) old.previous;
        generation = rw (sym g) old.generation;
      }

columns-corrected :
    {S : Type 0} (s : Service S) (b r : Bill) (h : CorrectHeaderInput)
    → Resolved (apply_header_correction s b h) r
    → SameColumns (row b) (row r)
columns-corrected s b r h res =
    let (c, g, m, q) = columns-apply_header_correction s b h in
    let (c', g', m', q') = res.columns in (c ∙ c', g ∙ g', m ∙ m', q ∙ q')

-- The corrected bill, resolved again, is written one version on.
corrected-Evolves :
    {S : Type 0} (s : Service S) (v u : View) (b r b' : Bill) (h : CorrectHeaderInput)
    (expected : ℕ) (t : Time)
    → v b.id ≡ some (row b)
    → is_review b.status ≡ true
    → Resolved (apply_header_correction s b h) r
    → Saved v (row b) (record r { version = r.version + 1; updated_at = t }) expected b' u
    → Evolves expected v u
corrected-Evolves s v u b r b' h expected t stored in_review res saved =
    put-Evolves expected v u (row b) r (rw (res.id, id-apply_header_correction s b h) stored)
      res.header res.state (review_may_become b.status r.status in_review res.open_status) saved.0
      (saved.2
        ∙ ap (λ n. update v r.id (some (row (record r { version = n + 1 }))))
            (res.version ∙ version-apply_header_correction s b h ∙ saved.0))

module _ {S : Type 0} (s : Service S) (view : S → View) (c : StoreContract s.tx view) (v : View)
    (valid : AllValid v) (al : Alphabet s.upper_rune s.parse_iso) (user : Uuid) where
  pub correct_header-Transacts :
      (id : Uuid) (q : HeaderCorrectionRequest)
      → Transacts q.expected_version view v (correct_header s user id q)
  unfolding correct_header
  correct_header-Transacts id q = Transacts-fail_if _ view v _ _ _ (
      Transacts-lift _ view v _ _ λ reason _. Transacts-transact _ view v s _ (
        Commits-bind _ _ (Reads-load s view c v user id _) λ b stored.
          let here : v b.id ≡ some (row b) = rw (stored.1) stored.0 in
          Commits-bind _ _ (Reads-fail_if _ _) λ _ not_other.
            let in_review : is_review b.status ≡ true = ground arith in
            Commits-bind _ _ (Reads-lift _) λ _ checked.
              Commits-bind _ _
                (resolve_payment-Resolved s view c v user (apply_header_correction s b q.header)
                  (corrected_header s b q.header al (valid id (row b) stored.0).header false _
                    checked)
                  (reason-apply_header_correction s b q.header
                    ∙ no_reason_in_review b (valid id (row b) stored.0) in_review))
                λ r res. Commits-bind _ _ (Reads-now s) λ time _.
                  Commits-then _ _
                    (c.save_bill_lem v user _ _ (row b)
                      (rw (res.id, id-apply_header_correction s b q.header) here)
                      (columns-corrected s b r.0 q.header res))
                    λ b' u saved. Commits-bind _ _ (Reads-event s view c u user _ _ _ _ _ _) λ _ _.
                      Commits-bind _ _ (Reads-resolution_events s view c u user _ _ _ _) λ _ _.
                        Commits-of_reads _ (Reads-pure {F = Any} b' tt) λ _ _.
                          corrected-Evolves s v u b r.0 b' q.header _ (utc time) here in_review res
                            saved))
