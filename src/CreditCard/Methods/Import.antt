-- ===== src/CreditCard/Methods/Import.antt =====
-- `ProjectBulkBill` makes the table evolve.
use wealth_management.Prelude.{
  ℕ, ◌+◌, ◌≡◌, refl, ap, ◌∙◌, Bool, true, false, not, ◌||◌, some, none, ltb, arith, if◌then◌else◌,
}
use wealth_management.CreditCard.Types.{Uuid, review, Bill, BulkProjectionResult, is_review}
use wealth_management.CreditCard.Action.{pure, Service}
use wealth_management.CreditCard.Service.Import.{
  resolve_projection, finish_projection, project_bulk_bill,
}
use wealth_management.CreditCard.Statement.{
  Row, row, View, update, IsValid, Change, Evolves, update_self, update-update,
}
use wealth_management.CreditCard.Contract.{
  Reads, Commits, Any, Projected, Reads-pure, Reads-lift, Reads-fail_if, Reads-if, Commits-bind,
  Commits-then, Commits-weaken, Commits-of_reads, StoreContract,
}
use wealth_management.CreditCard.Resolution.{Resolved, resolve_payment-Resolved}
use wealth_management.CreditCard.Evolution.{
  Written, Commits-save_resolved, header_at_version, state_at_version,
}
use wealth_management.CreditCard.Transacting.{Transacts, Transacts-transact, Transacts-fail_if}
use wealth_management.CreditCard.Methods.Lines.{no_reason_in_review}

held-Resolved :
    (b : Bill)
    → IsValid (row b)
    → is_review b.status ≡ true
    → Resolved b (record b { status = review; payoff_transfer_id = none; paid_at = none })
held-Resolved b h r = ground arith

-- The new row, projected and written once more, is one creation.
created-Evolves :
    (v u : View) (b r b' : Bill) (old : Row)
    → v b.id ≡ none
    → Resolved b r
    → Written (update v b.id (some (row b))) old r r.version b' u
    → Evolves 0 v u
created-Evolves v u b r b' old fresh res w =
    let stored : row' ≡ row' = refl in
    Evolves.put b.id row'
      (w.view
        ∙ ap (λ id. update (update v b.id (some (row b))) id (some row')) res.id
        ∙ update-update v b.id (some (row b)) (some row'))
      (record {
        header = header_at_version r (r.version + 1) res.header;
        state = state_at_version r (r.version + 1) res.state;
        version = omega arith;
      })
      (rw fresh (Change.create res.open_status))
  where
    row' : Row
    row' = row (record r { version = r.version + 1 })

module _ {S : Type 0} (s : Service S) (view : S → View) (c : StoreContract s.tx view) (v : View)
    (user : Uuid) where
  Reads-resolve_projection :
      (b : Bill)
      → IsValid (row b)
      → is_review b.status ≡ true
      → Reads view v (resolve_projection s user b) (λ p. Resolved b p.0)
  unfolding resolve_projection
  Reads-resolve_projection b h r =
      Reads-if (ltb 0 b.unresolved_candidate_count || b.projection_has_failures) _ _
        (λ _. Reads-pure _ (held-Resolved b h r))
        (λ _. resolve_payment-Resolved s view c v user b h.header (no_reason_in_review b h r))

module _ {S : Type 0} (s : Service S) (view : S → View) (c : StoreContract s.tx view) (v : View)
    (user : Uuid) where
  Commits-finish_projection :
      (document : Uuid) (generation : ℕ) (b : Bill)
      → v b.id ≡ none
      → IsValid (row b)
      → Commits view
          (update v b.id (some (row b)))
          (finish_projection s user document generation b)
          (λ _ u. Evolves 0 v u)
  unfolding finish_projection
  Commits-finish_projection document generation b fresh h =
      let v' : View = update v b.id (some (row b)) in
      Commits-bind _ _ (Reads-fail_if _ _) λ _ checked.
        let in_review : is_review b.status ≡ true = ground arith in
        Commits-bind _ _ (Reads-lift _) λ _ _.
          Commits-bind _ _ (Reads-resolve_projection s view c v' user b h in_review) λ r res.
            Commits-weaken _
              (Commits-save_resolved s view c v' user r.0 r.0.version (row b) _ _ _ _ r.1
                (rw (res.id) (update_self v b.id (some (row b)))) res.columns)
              (λ b' u w. created-Evolves v u b r.0 b' (row b) fresh res w)

  projected-Evolves :
      (document : Uuid) (generation : ℕ) (p : BulkProjectionResult) (u : View) (b : Bool)
      → p.created ≡ b
      → Projected v p u
      → Commits view u
          (if not b then pure p.bill else finish_projection s user document generation p.bill)
          (λ _ u'. Evolves 0 v u')
  projected-Evolves document generation p u true e h =
      let h' : (v p.bill.id ≡ none)
          × (u ≡ update v p.bill.id (some (row p.bill)))
          × IsValid (row p.bill) =
        rw e at h in
      rw (h'.1) (Commits-finish_projection document generation p.bill h'.0 h'.2)
  projected-Evolves document generation p u false e h =
      let h' : u ≡ v = rw e at h in
      Commits-of_reads _ (Reads-pure {F = Any} p.bill tt) (λ _ _. Evolves.same h')

  pub project_bulk_bill-Transacts :
      (document : Uuid) (generation : ℕ)
      → Transacts 0 view v (project_bulk_bill s user document generation)
  unfolding project_bulk_bill
  project_bulk_bill-Transacts document generation = Transacts-fail_if 0 view v _ _ _ (
      Transacts-transact 0 view v s _ (
        Commits-then _ _ (c.project_lem v user document generation) λ p u h.
          Commits-bind _ _ (Reads-fail_if _ _)
            λ _ _. projected-Evolves document generation p u p.created refl h))
