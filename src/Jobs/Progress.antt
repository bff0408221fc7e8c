-- ===== src/Jobs/Progress.antt =====
-- A run of `ProcessOne` never gets stuck (backend/internal/jobs/jobs.go).
use wealth_management.Prelude.{
  Bool, true, Option, none, some, ◌≡◌, inl, inr, refl, arith, is_some, Option-cases,
}
use wealth_management.GoTime.{Time}
use wealth_management.Jobs.Types.{
  Job, Worker, Call, Cause, Outcome, Heartbeat, waiting, renewing, reported, Main, handling,
  stopping, awaiting, checking, settling, returned, Run,
}
use wealth_management.Jobs.Worker.{
  begin, check, settled_with, Step, end_context, tick, renewed, renewal_cancelled, renewal_failed,
  stop_heartbeat, handled, cancel_heartbeat, receive, checked, settle, Reach, claim_call,
}
use wealth_management.Jobs.Lease.{Standing, run-Standing}

module _ {E : Type 0} (is : Cause → E → Bool) (w : Worker) (j : Job) (now : Time) where
  -- The steps that the program takes or that end a call of its own with a success of the store: no end
  -- of `ctx`, no tick and no failed renewal among them.
  abbrev pub IsOwn : {s t : Run E} → Step is w j s t → Type 0
  IsOwn (end_context _ _) = ⊥
  IsOwn (tick _ _ _) = ⊥
  IsOwn (renewal_cancelled _ _ _ _) = ⊥
  IsOwn (renewal_failed _ _ _ _) = ⊥
  IsOwn _ = Unit

  -- The runs that a run becomes by such steps.
  pub data Proceeds : Run E → Run E → Type 0 where
    done : {s : Run E} → Proceeds s s
    more : {s t u : Run E} → (step : Step is w j s t) → IsOwn step → Proceeds t u → Proceeds s u

  -- The run can be continued to a return without help from outside.
  abbrev pub CanReturn : Run E → Type 0
  CanReturn s =
      (u : Run E) × Proceeds s u
      × ((handler_err : Option E) × (outcome : Outcome E) × (u.main ≡ returned handler_err outcome))

  CanReturn-step :
      (s : Run E) {t : Run E} (step : Step is w j s t) → IsOwn step → CanReturn t → CanReturn s
  CanReturn-step s step own (u, r, e) = (u, more step own r, e)

  CanReturn-settling : (s : Run E) (h : Option E) → s.main ≡ settling h → CanReturn s
  CanReturn-settling s h e =
      CanReturn-step s (settle h now none e refl) tt (_, done, (h, settled_with none, refl))

  CanReturn-check : (s : Run E) (h r : Option E) → s.main ≡ check s.ctx h r → CanReturn s
  unfolding check
  CanReturn-check s h (some e) q = (s, done, (h, _, q))
  CanReturn-check s h none q = elim (Option-cases s.ctx) [
    | inl e ↦ CanReturn-settling s h (rw e at q)
    | inr (cause, e) ↦
        let q' : s.main ≡ check (some cause) h none = rw e at q in (s, done, (h, _, q'))
  ]

  CanReturn-checking : (s : Run E) (h r : Option E) → s.main ≡ checking h r → CanReturn s
  CanReturn-checking s h r e = CanReturn-step s (checked h r e refl) tt (CanReturn-check _ h r refl)

  CanReturn-reported :
      (s : Run E) (h r : Option E) → s.main ≡ awaiting h → s.heartbeat ≡ reported r → CanReturn s
  CanReturn-reported s h r e k =
      CanReturn-step s (receive h r e k refl) tt (CanReturn-checking _ h r refl)

  CanReturn-waiting :
      (s : Run E) (h : Option E)
      → s.main ≡ awaiting h
      → is_some s.heartbeat_context ≡ true
      → s.heartbeat ≡ waiting
      → CanReturn s
  CanReturn-waiting s h e c k =
      CanReturn-step s (stop_heartbeat k c refl) tt (CanReturn-reported _ h none e refl)

  CanReturn-awaiting :
      (s : Run E) (h : Option E) (b : Heartbeat E)
      → s.main ≡ awaiting h
      → is_some s.heartbeat_context ≡ true
      → s.heartbeat ≡ b
      → CanReturn s
  CanReturn-awaiting s h waiting e c k = CanReturn-waiting s h e c k
  CanReturn-awaiting s h renewing e c k =
      CanReturn-step s (renewed k refl) tt (CanReturn-waiting _ h e c refl)
  CanReturn-awaiting s h (reported r) e c k = CanReturn-reported s h r e k

  CanReturn-stopping : (s : Run E) (h : Option E) → s.main ≡ stopping h → CanReturn s
  CanReturn-stopping s h e =
      CanReturn-step s (cancel_heartbeat h e refl) tt
        (CanReturn-awaiting _ h _ refl (ground arith) refl)

  CanReturn-main : (s : Run E) (m : Main E) → s.main ≡ m → Standing w j s m → CanReturn s
  CanReturn-main s handling e st =
      CanReturn-step s (handled none e refl) tt (CanReturn-stopping _ none refl)
  CanReturn-main s (stopping h) e st = CanReturn-stopping s h e
  CanReturn-main s (awaiting h) e st = CanReturn-awaiting s h s.heartbeat e st.1 refl
  CanReturn-main s (checking h r) e st = CanReturn-checking s h r e
  CanReturn-main s (settling h) e st = CanReturn-settling s h e
  CanReturn-main s (returned h o) e st = (s, done, (h, o, e))

  -- From every run of a job that was claimed, whatever happened before, `ProcessOne` can go on to a
  -- return by its own steps, once its handler and the calls that it has made of the store end, these
  -- with success: without a tick, a failed renewal or an end of `ctx`, neither goroutine waits for the
  -- other for ever.
  pub run-CanReturn :
      (ctx : Option Cause) (call : Call)
      → claim_call w now ≡ some call
      → {t : Run E} → Reach is w j (begin call ctx) t
      → CanReturn t
  run-CanReturn ctx call claimed {t} r =
      CanReturn-main t t.main refl (run-Standing is w j ctx now call claimed r)
