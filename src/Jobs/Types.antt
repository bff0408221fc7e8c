-- ===== src/Jobs/Types.antt =====
-- The data of backend/internal/jobs/jobs.go, and what a run of `ProcessOne` keeps.
use wealth_management.Prelude.{Bool, Option, List}
use wealth_management.Prelude.Int.{ℤ}
use wealth_management.Prelude.Text.{Text}
use wealth_management.GoTime.{Time}

pub data Kind : Type 0 where
  gmail_ingest source_parse reconcile source_attachment_cleanup bulk_document_prepare : Kind
  bulk_document_chunk_parse bulk_document_aggregate bulk_candidate_reconcile : Kind
  bulk_document_post_process : Kind
  -- any other text
  unknown : Text → Kind

pub record Job : Type 0 where
  pub id : Text
  pub user_id : Text
  pub sync_run_id : Option Text
  pub source_id : Option Text
  pub batch_id : Option Text
  pub document_id : Option Text
  pub chunk_id : Option Text
  pub candidate_id : Option Text
  pub generation : Option ℤ
  pub kind : Kind
  pub payload : Text
  pub attempts : ℤ
  pub available : Time
  pub lease_until : Option Time

-- Whether a store or a handler is set, and whether the store is a `KindStore`, stand for the
-- interface values; their calls are the environment's choice.
pub record Worker : Type 0 where
  pub has_store : Bool
  pub is_kind_store : Bool
  pub worker_id : Text
  pub has_handler : Bool
  pub allowed_kinds : List Kind

-- The calls of the store, with their arguments.
pub data Call : Type 0 where
  claim : Text → Time → Call
  claim_kinds : Text → Time → List Kind → Call
  renew_lease : Text → Text → Time → Call
  complete : Text → Text → Call
  retry : Text → Text → ℤ → Time → Text → Call

-- Why a context has ended, `ctx.Err()`.
pub data Cause : Type 0 where
  canceled deadline_exceeded : Cause

-- `E` is the type of the errors of stores and handlers.
pub data Failure (E : Type 0) : Type 0 where
  not_configured : Failure E
  of_store : E → Failure E
  renew_job_lease : E → Failure E
  of_context : Cause → Failure E

-- What `ProcessOne` returns: whether there was a job, and the error, if any.
pub record Outcome (E : Type 0) : Type 0 where
  pub processed : Bool
  pub error : Option (Failure E)

-- The goroutine of `renewLeaseUntilDone`: at its `select`, in a call of `RenewLease`, or at an end,
-- with the value that it has sent.
pub data Heartbeat (E : Type 0) : Type 0 where
  waiting : Heartbeat E
  renewing : Heartbeat E
  reported : Option E → Heartbeat E

-- Where `ProcessOne` stands after its claim. From `stopping` on, the handler's error is known; from
-- `checking` on, what the heartbeat has sent.
pub data Main (E : Type 0) : Type 0 where
  handling : Main E
  stopping : Option E → Main E
  awaiting : Option E → Main E
  checking : Option E → Option E → Main E
  settling : Option E → Main E
  returned : Option E → Outcome E → Main E

-- A run after its claim: the three contexts with the cause of their end, the two goroutines, the calls
-- of the store, the latest first, and the store's answer to `Complete` or `Retry`, when it has come: an
-- error or none.
pub record Run (E : Type 0) : Type 0 where
  pub ctx : Option Cause
  pub handler_context : Option Cause
  pub heartbeat_context : Option Cause
  pub heartbeat : Heartbeat E
  pub main : Main E
  pub calls : List Call
  pub answer : Option (Option E)
