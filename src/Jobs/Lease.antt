-- ===== src/Jobs/Lease.antt =====
-- What a run of `ProcessOne` may do to its job (backend/internal/jobs/jobs.go).
use wealth_management.Prelude.{
  Bool, true, Option, none, some, List, ◌∷◌, ◌≡◌, ◌≢◌, refl, arith, ◌⊎◌, inl, inr, All, is_some,
  Option-cases,
}
use wealth_management.GoTime.{Time, add}
use wealth_management.Prelude.Text.{codes}
use wealth_management.Jobs.Queue.{backoff}
use wealth_management.Jobs.Types.{
  Job, Worker, Call, renew_lease, complete, retry, Cause, canceled, Failure, of_store,
  renew_job_lease, of_context, Outcome, Heartbeat, waiting, renewing, reported, Main, handling,
  stopping, awaiting, checking, settling, returned, Run,
}
use wealth_management.Jobs.Worker.{
  begin, check, settle_call, settled_with, cancel, Step, end_context, tick, renewed,
  renewal_cancelled, renewal_failed, stop_heartbeat, handled, cancel_heartbeat, receive, checked,
  settle, Reach, here, next, claim_call,
}

-- A call that leaves the job as it is: neither completed nor put back.
abbrev pub IsHolding : Call → Type 0
IsHolding (complete _ _) = ⊥
IsHolding (retry _ _ _ _ _) = ⊥
IsHolding _ = Unit

module _ {E : Type 0} (w : Worker) (j : Job) where
  -- The call that a result of the handler asks for: success completes the job under the worker's name,
  -- and an error puts it back, with its attempts, until the backoff has passed.
  abbrev pub IsSettling : Option E → Time → Call → Type 0
  IsSettling none now call = call ≡ complete j.id w.worker_id
  IsSettling (some _) now call =
      call
      ≡ retry j.id w.worker_id j.attempts (add now (backoff j.attempts)) (codes "handler failed")

  -- The error of `ProcessOne` for an answer of the store: none, or the store's own.
  abbrev pub IsAnswered : Option E → Option (Failure E) → Type 0
  IsAnswered none error = error ≡ none
  IsAnswered (some e) error = error ≡ some (of_store e)

  -- With what `ProcessOne` returns: there was a job, and the error is that of the store's answer to the
  -- call that settled the job; or, without such a call and such an answer, the error that lost the
  -- lease, or the cause of the end of `ctx`.
  abbrev pub IsReturn : Run E → Option E → Outcome E → Type 0
  IsReturn s handler_err outcome =
      (outcome.processed ≡ true)
      × (((rest : List Call) × (call : Call) × (now : Time) × (answer : Option E) × (s.calls
              ≡ call ∷ rest)
            × IsSettling handler_err now call
            × All IsHolding rest
            × (s.heartbeat ≡ reported none)
            × (s.answer ≡ some answer)
            × IsAnswered answer outcome.error)
          ⊎ (All IsHolding s.calls
              × (((e : E) × (s.heartbeat ≡ reported (some e))
                    × (outcome.error ≡ some (renew_job_lease e)))
                  ⊎ ((cause : Cause) × (s.heartbeat ≡ reported none)
                      × (s.ctx ≡ some cause)
                      × (outcome.error ≡ some (of_context cause))))))

  -- What is known where `ProcessOne` stands: once it has received, the heartbeat has ended with what it
  -- received; once it settles, the lease was kept; and it has settled only when it returns.
  abbrev pub Standing : Run E → Main E → Type 0
  Standing s handling = All IsHolding s.calls
  Standing s (stopping _) = All IsHolding s.calls
  Standing s (awaiting _) = All IsHolding s.calls × (is_some s.heartbeat_context ≡ true)
  Standing s (checking _ renewal_err) = All IsHolding s.calls × (s.heartbeat ≡ reported renewal_err)
  Standing s (settling _) = All IsHolding s.calls × (s.heartbeat ≡ reported none)
  Standing s (returned handler_err outcome) = IsReturn s handler_err outcome

  -- `ProcessOne` has returned, its last call settled the job by the handler's result, no other call did,
  -- and the heartbeat had ended before without losing the lease.
  abbrev pub IsSettled : Run E → Type 0
  IsSettled t =
      (handler_err : Option E) × (outcome : Outcome E) × (rest : List Call) × (call : Call)
      × (settled_at : Time) × (t.main ≡ returned handler_err outcome)
      × (t.calls ≡ call ∷ rest)
      × IsSettling handler_err settled_at call
      × All IsHolding rest
      × (t.heartbeat ≡ reported none)

  -- A step of the heartbeat, which had not reported.
  Standing-heartbeat :
      (s : Run E) (h : Heartbeat E) (c : Option Cause) (calls : List Call) (m : Main E)
      → ((r : Option E) → s.heartbeat ≢ reported r)
      → (All IsHolding s.calls → All IsHolding calls)
      → Standing s m
      → Standing (record s { heartbeat = h; handler_context = c; calls = calls }) m
  Standing-heartbeat s b c l handling n f h = f h
  Standing-heartbeat s b c l (stopping _) n f h = f h
  Standing-heartbeat s b c l (awaiting _) n f (h, k) = (f h, k)
  Standing-heartbeat s b c l (checking _ r) n f (h, k) = absurd (n r k)
  Standing-heartbeat s b c l (settling _) n f (h, k) = absurd (n none k)
  Standing-heartbeat s b c l (returned _ _) n f (_, inl (_, _, _, _, _, _, _, k, _, _)) =
      absurd (n none k)
  Standing-heartbeat s b c l (returned _ _) n f (_, inr (_, inl (e, k, _))) = absurd (n (some e) k)
  Standing-heartbeat s b c l (returned _ _) n f (_, inr (_, inr (_, k, _, _))) = absurd (n none k)

  Standing-end_context :
      (s : Run E) (cause : Cause) (m : Main E)
      → Standing s m
      → Standing
          (record s {
            ctx = cancel cause s.ctx;
            handler_context = cancel cause s.handler_context;
            heartbeat_context = cancel cause s.heartbeat_context;
          })
          m
  Standing-end_context s cause handling h = h
  Standing-end_context s cause (stopping _) h = h
  Standing-end_context s cause (awaiting _) (h, k) = (h, ground (arith, k))
  Standing-end_context s cause (checking _ r) h = h
  Standing-end_context s cause (settling _) h = h
  Standing-end_context s cause (returned _ _) (p, inl h) = (p, inl h)
  Standing-end_context s cause (returned _ _) (p, inr (h, inl k)) = (p, inr (h, inl k))
  Standing-end_context s cause (returned _ _) (p, inr (h, inr (c, k, x, o))) =
      (p, inr (h, inr (c, k, ground (arith, x), o)))

  Standing-check :
      (s : Run E) (handler_err renewal_err : Option E)
      → All IsHolding s.calls
      → s.heartbeat ≡ reported renewal_err
      → let m = check s.ctx handler_err renewal_err in Standing (record s { main = m }) m
  unfolding check
  Standing-check s handler_err (some e) h k = (refl, inr (h, inl (e, k, refl)))
  Standing-check s handler_err none h k = elim (Option-cases s.ctx) [
    | inl e ↦ rw e (h, k)
    | inr (cause, e) ↦ rw e (refl, inr (h, inr (cause, k, refl, refl)))
  ]

  settle_call-IsSettling :
      (now : Time) (handler_err : Option E)
      → IsSettling handler_err now (settle_call w.worker_id j now handler_err)
  unfolding settle_call
  settle_call-IsSettling now none = refl
  settle_call-IsSettling now (some _) = refl

  settled_with-IsAnswered : (answer : Option E) → IsAnswered answer (settled_with answer).error
  unfolding settled_with
  settled_with-IsAnswered none = refl
  settled_with-IsAnswered (some _) = refl

  settled_with-processed : (answer : Option E) → (settled_with answer).processed ≡ true
  unfolding settled_with
  settled_with-processed none = refl
  settled_with-processed (some _) = refl

  Standing-Step :
      (is : Cause → E → Bool) {s t : Run E}
      → Step is w j s t
      → Standing s s.main
      → Standing t t.main
  Standing-Step is {s} (end_context cause e) h = rw e (Standing-end_context s cause s.main h)
  Standing-Step is {s} (tick now k e) h = rw e (
      Standing-heartbeat s renewing s.handler_context (renew_lease j.id w.worker_id now ∷ s.calls)
        s.main (λ r q. cc) (λ x. (tt, x)) h)
  Standing-Step is {s} (renewed k e) h =
      rw e (Standing-heartbeat s waiting s.handler_context s.calls s.main (λ r q. cc) (λ x. x) h)
  Standing-Step is {s} (renewal_cancelled x k c e) h =
      rw e (
        Standing-heartbeat s (reported none) s.handler_context s.calls s.main (λ r q. cc) (λ x. x)
          h)
  Standing-Step is {s} (renewal_failed x k c e) h = rw e (
      Standing-heartbeat s (reported (some x)) (cancel canceled s.handler_context) s.calls s.main
        (λ r q. cc) (λ x. x) h)
  Standing-Step is {s} (stop_heartbeat k c e) h =
      rw e (
        Standing-heartbeat s (reported none) s.handler_context s.calls s.main (λ r q. cc) (λ x. x)
          h)
  Standing-Step is {s} (handled r k e) h = rw e (rw k at h)
  Standing-Step is {s} (cancel_heartbeat r k e) h = rw e (rw k at h, ground arith)
  Standing-Step is {s} (receive r q k l e) h =
      rw e (let g : Standing s (awaiting r) = rw k at h in (g.0, l))
  Standing-Step is {s} (checked r q k e) h =
      rw e (let g : Standing s (checking r q) = rw k at h in Standing-check s r q g.0 g.1)
  Standing-Step is {s} (settle r now answer k e) h = rw e (
      let g : Standing s (settling r) = rw k at h in
      (
        settled_with-processed answer,
        inl (
          s.calls,
          _,
          now,
          answer,
          refl,
          settle_call-IsSettling now r,
          g.0,
          g.1,
          refl,
          settled_with-IsAnswered answer,
        ),
      ))

  Standing-Reach :
      (is : Cause → E → Bool) {s t : Run E}
      → Standing s s.main
      → Reach is w j s t
      → Standing t t.main
  Standing-Reach is h here = h
  Standing-Reach is h (next r step) = Standing-Step is step (Standing-Reach is h r)

module _ {E : Type 0} (w : Worker) (j : Job) where
  settled :
      (t : Run E) (m : Main E)
      → t.main ≡ m
      → Standing w j t m
      → All IsHolding t.calls ⊎ IsSettled w j t
  settled t handling e h = inl h
  settled t (stopping _) e h = inl h
  settled t (awaiting _) e h = inl h.0
  settled t (checking _ _) e h = inl h.0
  settled t (settling _) e h = inl h.0
  settled t (returned r o) e (_, inl (rest, call, now, _, c, k, h, b, _, _)) =
      inr (r, o, rest, call, now, e, c, k, h, b)
  settled t (returned _ _) e (_, inr (h, _)) = inl h

claim_call-IsHolding :
    (w : Worker) (now : Time) (call : Call) → claim_call w now ≡ some call → IsHolding call
unfolding claim_call
claim_call-IsHolding w now call h = ground arith

module _ {E : Type 0} (is : Cause → E → Bool) (w : Worker) (j : Job) (ctx : Option Cause)
    (now : Time) (call : Call) (claimed : claim_call w now ≡ some call) where
  pub run-Standing : {t : Run E} → Reach is w j (begin call ctx) t → Standing w j t t.main
  unfolding begin
  run-Standing r = Standing-Reach w j is (claim_call-IsHolding w now call claimed, tt) r

  -- In every run of a job that was claimed, whatever the ticker, the store, the handler and `ctx` do:
  -- either the job has been neither completed nor put back, or `ProcessOne` has returned, the last call
  -- of the store is the only one that settled the job, it completed the job if the handler succeeded and
  -- put it back after the backoff if not, and the heartbeat had ended before without losing the lease.
  pub run_settles_once :
      {t : Run E} → Reach is w j (begin call ctx) t → All IsHolding t.calls ⊎ IsSettled w j t
  run_settles_once {t} r = settled w j t t.main refl (run-Standing r)

  -- What `ProcessOne` returns for a job that was claimed: that there was a job; and the error of the
  -- store's answer to the call that settled the job, none if that call succeeded; or, without such a
  -- call, the error that lost the lease, or the cause of the end of `ctx`.
  pub run_returns :
      {t : Run E} (handler_err : Option E) (outcome : Outcome E)
      → Reach is w j (begin call ctx) t
      → t.main ≡ returned handler_err outcome
      → IsReturn w j t handler_err outcome
  run_returns {t} handler_err outcome r e =
      let st : Standing w j t t.main = run-Standing r in rw e at st
