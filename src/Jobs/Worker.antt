-- ===== src/Jobs/Worker.antt =====
-- `ProcessOne` and `renewLeaseUntilDone` (backend/internal/jobs/jobs.go). The two goroutines and the
-- environment (the ticker, the answers of the store, the end of the handler, the end of `ctx`) take
-- turns; a step is what one of them does between two points where another may act.
use wealth_management.Prelude.{
  Bool, true, false, not, ◌&&◌, ◌||◌, Option, none, some, List, [], ◌∷◌, ◌≡◌, ◌⊎◌, inl, inr,
  if◌then◌else◌, is_some,
}
use wealth_management.Prelude.Text.{Text, codes, is_empty}
use wealth_management.GoTime.{Time, add}
use wealth_management.Jobs.Types.{
  Job, Worker, Call, claim, claim_kinds, renew_lease, complete, retry, Cause, canceled, Failure,
  of_store, renew_job_lease, of_context, Outcome, waiting, renewing, reported, Main, handling,
  stopping, awaiting, checking, settling, returned, Run,
}
use wealth_management.Jobs.Queue.{backoff}

abbrev is_empty_list : {A : Type 0} → List A → Bool
is_empty_list [] = true
is_empty_list (_ ∷ _) = false

-- A context that has ended keeps its cause.
abbrev pub cancel : Cause → Option Cause → Option Cause
cancel cause none = some cause
cancel cause (some c) = some c

-- The claim, if the worker is configured.
unfoldable pub claim_call : Worker → Time → Option Call
claim_call w now =
    if not w.has_store || not w.has_handler || is_empty w.worker_id
    then none
    else if w.is_kind_store && not (is_empty_list w.allowed_kinds)
    then some (claim_kinds w.worker_id now w.allowed_kinds)
    else some (claim w.worker_id now)

-- The store's answer to a claim.
pub data Claimed (E : Type 0) : Type 0 where
  refused : E → Claimed E
  no_job : Claimed E
  job : Job → Claimed E

module _ {E : Type 0} where
  -- A fresh run, with the contexts that are derived from `ctx`.
  unfoldable pub begin : Call → Option Cause → Run E
  begin call ctx = record {
    ctx = ctx;
    handler_context = ctx;
    heartbeat_context = ctx;
    heartbeat = waiting;
    main = handling;
    calls = call ∷ [];
    answer = none;
  }

  -- The early returns of `ProcessOne`, or the job to run.
  unfoldable pub on_claim : Claimed E → (Outcome E) ⊎ Job
  on_claim (refused e) = inl (record { processed = false; error = some (of_store e) })
  on_claim no_job = inl (record { processed = false; error = none })
  on_claim (job j) = inr j

  -- Whether an error of `RenewLease` only says that the heartbeat's context has ended.
  unfoldable pub is_cancellation : (Cause → E → Bool) → Option Cause → E → Bool
  is_cancellation is none e = false
  is_cancellation is (some cause) e = is cause e

  abbrev pub failed_with : Failure E → Outcome E
  failed_with failure = record { processed = true; error = some failure }

  -- The two returns before the job is settled.
  unfoldable pub check : Option Cause → Option E → Option E → Main E
  check ctx handler_err (some e) = returned handler_err (failed_with (renew_job_lease e))
  check (some cause) handler_err none = returned handler_err (failed_with (of_context cause))
  check none handler_err none = settling handler_err

  unfoldable pub settle_call : Text → Job → Time → Option E → Call
  settle_call worker_id j now none = complete j.id worker_id
  settle_call worker_id j now (some _) =
      retry j.id worker_id j.attempts (add now (backoff j.attempts)) (codes "handler failed")

  unfoldable pub settled_with : Option E → Outcome E
  settled_with none = record { processed = true; error = none }
  settled_with (some e) = failed_with (of_store e)

module _ {E : Type 0} (is : Cause → E → Bool) (w : Worker) (j : Job) where
  pub data Step (s : Run E) (t : Run E) : Type 0 where
    -- `ctx` ends, and the contexts that are derived from it.
    end_context :
        (cause : Cause)
        → t ≡ record s {
          ctx = cancel cause s.ctx;
          handler_context = cancel cause s.handler_context;
          heartbeat_context = cancel cause s.heartbeat_context;
        }
        → Step s t
    -- The ticker fires; `select` may prefer it to a context that has ended.
    tick :
        (now : Time)
        → s.heartbeat ≡ waiting
        → t ≡ record s { heartbeat = renewing; calls = renew_lease j.id w.worker_id now ∷ s.calls }
        → Step s t
    renewed : s.heartbeat ≡ renewing → t ≡ record s { heartbeat = waiting } → Step s t
    renewal_cancelled :
        (e : E)
        → s.heartbeat ≡ renewing
        → is_cancellation is s.heartbeat_context e ≡ true
        → t ≡ record s { heartbeat = reported none }
        → Step s t
    renewal_failed :
        (e : E)
        → s.heartbeat ≡ renewing
        → is_cancellation is s.heartbeat_context e ≡ false
        → t ≡ record s {
          heartbeat = reported (some e);
          handler_context = cancel canceled s.handler_context;
        }
        → Step s t
    stop_heartbeat :
        s.heartbeat ≡ waiting
        → is_some s.heartbeat_context ≡ true
        → t ≡ record s { heartbeat = reported none }
        → Step s t
    handled :
        (handler_err : Option E)
        → s.main ≡ handling
        → t ≡ record s { main = stopping handler_err }
        → Step s t
    cancel_heartbeat :
        (handler_err : Option E)
        → s.main ≡ stopping handler_err
        → t ≡ record s {
          main = awaiting handler_err;
          heartbeat_context = cancel canceled s.heartbeat_context;
        }
        → Step s t
    receive :
        (handler_err : Option E)
        → (renewal_err : Option E) → s.main ≡ awaiting handler_err
        → s.heartbeat ≡ reported renewal_err
        → t ≡ record s {
          main = checking handler_err renewal_err;
          handler_context = cancel canceled s.handler_context;
        }
        → Step s t
    checked :
        (handler_err : Option E)
        → (renewal_err : Option E) → s.main ≡ checking handler_err renewal_err
        → t ≡ record s { main = check s.ctx handler_err renewal_err }
        → Step s t
    settle :
        (handler_err : Option E)
        → (now : Time) → (answer : Option E) → s.main ≡ settling handler_err
        → t ≡ record s {
          main = returned handler_err (settled_with answer);
          calls = settle_call w.worker_id j now handler_err ∷ s.calls;
          answer = some answer;
        }
        → Step s t

  -- The runs that a run may become.
  pub data Reach (s : Run E) : Run E → Type 0 where
    here : Reach s s
    next : {t u : Run E} → Reach s t → Step t u → Reach s u
