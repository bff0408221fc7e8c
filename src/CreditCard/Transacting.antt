-- ===== src/CreditCard/Transacting.antt =====
-- Whole methods: what happens before, in and after the database transaction.
use wealth_management.Prelude.{ℕ, ◌≡◌, refl, Bool, true, false, Option, none, some}
use wealth_management.CreditCard.Types.{Error}
use wealth_management.CreditCard.Action.{
  Result, ok, err, World, Action, lift, ◌>>=◌, fail_if, Service, CommitOutcome, done, undone,
  in_doubt, committed, settle, begun, transact,
}
use wealth_management.CreditCard.Statement.{View, Evolves}
use wealth_management.CreditCard.Contract.{Commits, CommitsPost}

-- What a whole method that names the version `n` does to the table, whether it succeeds or fails.
pub record Transacts {S A : Type 0} (n : ℕ) (view : S → View) (v : View) (m : Action S A)
    : Type 0 where
  pub at : (w : World S) → view w.db ≡ v → Evolves n v (view (m w).1.db)

module _ {S A : Type 0} (n : ℕ) (view : S → View) (v : View) where
  committed-Evolves :
      (s : Service S) (w w' : World S) (a : A)
      → view w.db ≡ v
      → Evolves n v (view w'.db)
      → (o : CommitOutcome) → Evolves n v (view (committed s w a w' o).1.db)
  unfolding committed
  committed-Evolves s w w' a e h done = h
  committed-Evolves s w w' a e h (undone x) = Evolves.same e
  committed-Evolves s w w' a e h (in_doubt x) = h

  settle-Evolves :
      (s : Service S) (w : World S)
      → view w.db ≡ v
      → (p : Result A × World S) → CommitsPost view (λ _ u. Evolves n v u) p
      → Evolves n v (view (settle s w p).1.db)
  unfolding settle
  settle-Evolves s w e (err x, w') h = Evolves.same e
  settle-Evolves s w e (ok a, w') h = committed-Evolves s w w' a e h (s.commit w')

  begun-Evolves :
      (s : Service S) (m : Action S A) (w : World S)
      → view w.db ≡ v
      → Commits view v m (λ _ u. Evolves n v u)
      → (o : Option Error) → Evolves n v (view (begun s m w o).1.db)
  unfolding begun
  begun-Evolves s m w e c (some x) = Evolves.same e
  begun-Evolves s m w e c none = settle-Evolves s w e (m w) (c.at w e)

  pub Transacts-transact :
      (s : Service S) (m : Action S A)
      → Commits view v m (λ _ u. Evolves n v u)
      → Transacts n view v (transact s m)
  unfolding transact
  Transacts-transact s m c = record { at = λ w e. begun-Evolves s m w e c (s.begin w) }

  pub Transacts-lift :
      {B : Type 0} (r : Result B) (f : B → Action S A)
      → ((b : B) → r ≡ ok b → Transacts n view v (f b))
      → Transacts n view v (lift r >>= f)
  unfolding ◌>>=◌
  Transacts-lift (ok b) f h = h b refl
  Transacts-lift (err e) f h = record { at = λ w e. Evolves.same e }

module _ {S A : Type 0} (n : ℕ) (view : S → View) (v : View) where
  pub Transacts-fail_if :
      (b : Bool) (e : Error) (f : Unit {0} → Action S A)
      → Transacts n view v (f tt)
      → Transacts n view v (fail_if b e >>= f)
  unfolding ◌>>=◌
  Transacts-fail_if false e f h = h
  Transacts-fail_if true e f h = record { at = λ w e. Evolves.same e }
