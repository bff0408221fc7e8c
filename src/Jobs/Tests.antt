-- ===== src/Jobs/Tests.antt =====
-- Runs of `ProcessOne` at concrete inputs.
use wealth_management.Prelude.{
  ℕ, Bool, true, false, none, some, [], ◌∷◌, ◌≡◌, refl, ◌⊎◌, All, ◌<◌, ◌≤◌, ◌*◌, ◌+◌,
}
use wealth_management.Prelude.Int.{ℤ, pos, negsuc, ◌≤ℤ◌}
use wealth_management.Prelude.Text.{Text, codes, text_eq, text_lt}
use wealth_management.Prelude.Sort.{sort_by, insert_by}
use wealth_management.GoTime.{Time, second}
use wealth_management.Jobs.Types.{
  source_parse, reconcile, Job, Worker, Call, claim, renew_lease, Cause, canceled,
  deadline_exceeded, reported, returned, Run,
}
use wealth_management.Jobs.Queue.{backoff, Router, handle, kinds, handler_of, kind_text}
use wealth_management.Jobs.Delay.{backoff_bounds}
use wealth_management.Jobs.Worker.{
  begin, check, settle_call, settled_with, claim_call, tick, renewed, stop_heartbeat, handled,
  cancel_heartbeat, receive, checked, settle, Reach, here, next,
}
use wealth_management.Jobs.Lease.{IsSettled, IsReturn, IsHolding, run_settles_once, run_returns}
use wealth_management.Jobs.Progress.{CanReturn, run-CanReturn}

abbrev at : ℤ → Time
at n = record { instant = 0; wall = 0 }

abbrev noon : Time
noon = record { instant = 7; wall = 7 }

abbrev sample_job : Job
sample_job = record {
  id = codes "j";
  user_id = codes "u";
  sync_run_id = none;
  source_id = some (codes "s");
  batch_id = none;
  document_id = none;
  chunk_id = none;
  candidate_id = none;
  generation = none;
  kind = source_parse;
  payload = [];
  attempts = pos 3;
  available = noon;
  lease_until = none;
}

abbrev sample_worker : Worker
sample_worker = record {
  has_store = true;
  is_kind_store = false;
  worker_id = codes "w";
  has_handler = true;
  allowed_kinds = [];
}

-- Errors are texts; the first is that of a context which has ended.
abbrev of_ended : Cause → Text → Bool
of_ended canceled e = text_eq e (codes "canceled")
of_ended deadline_exceeded e = text_eq e (codes "deadline")

abbrev sample_call : Call
sample_call = claim (codes "w") noon

-- The handler fails after one renewal, and the job is put back.
abbrev finished : Run Text
finished = record {
  ctx = none;
  heartbeat_context = some canceled;
  handler_context = some canceled;
  heartbeat = reported none;
  main = returned (some (codes "bad")) (settled_with none);
  calls =
      settle_call (codes "w") sample_job noon (some (codes "bad"))
      ∷ renew_lease (codes "j") (codes "w") noon
      ∷ sample_call
      ∷ [];
  answer = some none;
}

run : Reach of_ended sample_worker sample_job (begin sample_call none) finished
unfolding begin check
run =
    next
      (next
        (next
          (next
            (next
              (next (next (next here (tick noon refl refl)) (renewed refl refl))
                (handled (some (codes "bad")) refl refl))
              (cancel_heartbeat (some (codes "bad")) refl refl))
            (stop_heartbeat refl refl refl))
          (receive (some (codes "bad")) none refl refl refl))
        (checked (some (codes "bad")) none refl refl))
      (settle (some (codes "bad")) noon none refl refl)

claimed : claim_call sample_worker noon ≡ some sample_call
unfolding claim_call
claimed = refl

run_settles_once_example :
    All IsHolding finished.calls ⊎ IsSettled sample_worker sample_job finished
run_settles_once_example =
    run_settles_once of_ended sample_worker sample_job none noon sample_call claimed run

run_returns_example :
    IsReturn sample_worker sample_job finished (some (codes "bad")) (settled_with none)
run_returns_example =
    run_returns of_ended sample_worker sample_job none noon sample_call claimed (some (codes "bad"))
      (settled_with none) run refl

run-CanReturn_example : CanReturn of_ended sample_worker sample_job noon (begin sample_call none)
run-CanReturn_example =
    run-CanReturn of_ended sample_worker sample_job noon none sample_call claimed here

backoff_bounds_example :
    (second ≤ backoff (pos 3))
    × (backoff (pos 3) ≤ 64 * second)
    × (pos 3 ≤ℤ pos 9 → backoff (pos 3) ≤ backoff (pos 9))
    × ((n : ℕ) → n < 6 → backoff (pos (n + 2)) ≡ 2 * backoff (pos (n + 1)))
backoff_bounds_example = backoff_bounds (pos 3) (pos 9)

-- The delays of an attempt below the first, of the fourth, and of one after the seventh.
delays :
    (backoff (negsuc 4) ≡ second) × (backoff (pos 4) ≡ 8 * second) × (backoff (pos 9) ≡ 64 * second)
unfolding backoff
delays = (refl, refl, refl)

abbrev sample_router : Router Text
sample_router = (source_parse, some (λ j. none)) ∷ (reconcile, none) ∷ []

-- The kinds are sorted by their texts; a handler that is nil is an error.
routed :
    (kinds sample_router ≡ reconcile ∷ source_parse ∷ [])
    × (handle (λ k. k) sample_router sample_job ≡ none)
    × (handle (λ k. k) sample_router (record sample_job { kind = reconcile })
        ≡ some (codes "reconciliation"))
unfolding kinds handle handler_of kind_text text_eq text_lt sort_by insert_by
routed = (refl, refl, refl)
