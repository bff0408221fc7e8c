-- ===== src/CreditCard/Calls/History.antt =====
-- What any sequence of calls does to the table of statements.
use wealth_management.Prelude.{ℕ, ◌≡◌, ◌≢◌, refl, true, ◌||◌, Option, none, some, List, [], ◌∷◌}
use wealth_management.CreditCard.Types.{Uuid, Bill, is_paid, is_void}
use wealth_management.CreditCard.Action.{Result, ok, err, World, Action, Service}
use wealth_management.CreditCard.Statement.{
  Row, View, AllValid, Change, Evolves, Evolves-AllValid, Evolves-Change, Change-stale,
  Change-settled,
}
use wealth_management.CreditCard.Currencies.{Alphabet}
use wealth_management.CreditCard.Contract.{StoreContract}
use wealth_management.CreditCard.Transacting.{Transacts}
use wealth_management.CreditCard.Methods.Lines.{
  attach_line-Transacts, ignore_line-Transacts, create_line_transaction-Transacts,
}
use wealth_management.CreditCard.Methods.Header.{correct_header-Transacts}
use wealth_management.CreditCard.Methods.Import.{project_bulk_bill-Transacts}
use wealth_management.CreditCard.Methods.Settlement.{
  select_payment_candidate-Transacts, confirm_payment_candidate-Transacts, pay_in_full-Transacts,
  void_bill-Transacts, discard_review_bill-Transacts,
}
use wealth_management.CreditCard.Calls.{
  Call, project, correct, attach, create, ignore, select, confirm, pay, cancel, discard,
  expected_version, forget, answered, run, serve,
}

module _ {S A : Type 0} {n : ℕ} (view : S → View) {v : View} (f : A → Option Bill) where
  forget-Evolves :
      (p : Result A × World S) → Evolves n v (view p.1.db) → Evolves n v (view (forget f p).1.db)
  unfolding forget
  forget-Evolves (ok a, w) h = h
  forget-Evolves (err e, w) h = h

  answered-Transacts : (m : Action S A) → Transacts n view v m → Transacts n view v (answered f m)
  unfolding answered
  answered-Transacts m t = record { at = λ w e. forget-Evolves (m w) (t.at w e) }

module _ {S : Type 0} (s : Service S) (view : S → View) (c : StoreContract s.tx view)
    (al : Alphabet s.upper_rune s.parse_iso) where
  run-Transacts :
      (user : Uuid) (call : Call) (v : View)
      → AllValid v
      → Transacts (expected_version call) view v (run s user call)
  unfolding run
  run-Transacts user (project document generation) v valid =
      answered-Transacts view some _
        (project_bulk_bill-Transacts s view c v user document generation)
  run-Transacts user (correct id q) v valid =
      answered-Transacts view some _ (correct_header-Transacts s view c v valid al user id q)
  run-Transacts user (attach id line q) v valid =
      answered-Transacts view some _ (attach_line-Transacts s view c v valid user id line q)
  run-Transacts user (create id line q key) v valid =
      answered-Transacts view some _
        (create_line_transaction-Transacts s view c v valid user id line q key)
  run-Transacts user (ignore id line q) v valid =
      answered-Transacts view some _ (ignore_line-Transacts s view c v valid user id line q)
  run-Transacts user (select id q key) v valid =
      answered-Transacts view some _
        (select_payment_candidate-Transacts s view c v valid user id q key)
  run-Transacts user (confirm id q key) v valid =
      answered-Transacts view some _
        (confirm_payment_candidate-Transacts s view c v valid user id q key)
  run-Transacts user (pay id q key) v valid =
      answered-Transacts view some _ (pay_in_full-Transacts s view c v valid user id q key)
  run-Transacts user (cancel id q key) v valid =
      answered-Transacts view some _ (void_bill-Transacts s view c v valid user id q key)
  run-Transacts user (discard id n key) v valid =
      answered-Transacts view (λ _. none) _
        (discard_review_bill-Transacts s view c v valid user id n key)

  run-Evolves :
      (user : Uuid) (call : Call) (w : World S)
      → AllValid (view w.db)
      → Evolves (expected_version call) (view w.db) (view (run s user call w).1.db)
  run-Evolves user call w valid = (run-Transacts user call (view w.db) valid).at w refl

  -- Over a store that keeps its contract and an alphabet as documented, from valid rows, one call, successful or not, changes each row of the table as
  -- `Change` allows: it keeps the row; or creates a row that is not Void; or writes a row that is in
  -- Review and does not become Void, or that is Unpaid and becomes Paid or Void, in both cases at the
  -- version that the call names and raising it by one; or removes a row in Review of that version.
  pub run-Change :
      (user : Uuid) (call : Call) (w : World S) (id : Uuid)
      → AllValid (view w.db)
      → Change (expected_version call) (view w.db id) (view (run s user call w).1.db id)
  run-Change user call w id valid = Evolves-Change (run-Evolves user call w valid) id

  -- Over a store that keeps its contract and an alphabet as documented, if every row satisfies the check
  -- constraints of the table, so does every row after any sequence of calls, successful or not.
  pub serve-AllValid :
      (calls : List (Uuid × Call)) (w : World S)
      → AllValid (view w.db)
      → AllValid (view (serve s calls w).db)
  unfolding serve
  serve-AllValid [] w valid = valid
  serve-AllValid ((user, call) ∷ calls) w valid =
      serve-AllValid calls (run s user call w).1
        (Evolves-AllValid (run-Evolves user call w valid) valid)

  -- Over a store that keeps its contract, an alphabet as documented and valid rows, a call that names another version than a
  -- row's leaves that row as it is.
  pub stale_version_changes_nothing :
      (user : Uuid) (call : Call) (w : World S) (id : Uuid) (r : Row)
      → AllValid (view w.db)
      → view w.db id ≡ some r
      → r.version ≢ expected_version call
      → view (run s user call w).1.db id ≡ some r
  stale_version_changes_nothing user call w id r valid stored stale =
      Change-stale (run-Change user call w id valid) stored stale

  -- Over a store that keeps its contract, an alphabet as documented and valid rows, a bill that is Paid or Void is the same, its
  -- version, transfer and time of payment included, after any sequence of calls.
  pub serve-settled :
      (calls : List (Uuid × Call)) (w : World S) (id : Uuid) (r : Row)
      → AllValid (view w.db)
      → view w.db id ≡ some r
      → (is_paid r.status || is_void r.status) ≡ true
      → view (serve s calls w).db id ≡ some r
  unfolding serve
  serve-settled [] w id r valid stored settled = stored
  serve-settled ((user, call) ∷ calls) w id r valid stored settled =
      serve-settled calls (run s user call w).1 id r
        (Evolves-AllValid (run-Evolves user call w valid) valid)
        (Change-settled (run-Change user call w id valid) stored settled) settled
