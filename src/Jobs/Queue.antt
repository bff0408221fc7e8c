-- ===== src/Jobs/Queue.antt =====
-- `Backoff` and `Router` (backend/internal/jobs/jobs.go).
use wealth_management.Prelude.{
  ℕ, ◌-◌, ◌*◌, ◌^◌, Option, none, some, List, [], ◌∷◌, map, if◌then◌else◌, ltb,
}
use wealth_management.Prelude.Int.{ℤ, pos, negsuc}
use wealth_management.Prelude.Text.{Text, codes, text_eq, text_lt}
use wealth_management.Prelude.Sort.{sort_by}
use wealth_management.GoTime.{second}
use wealth_management.Jobs.Types.{
  Kind, gmail_ingest, source_parse, reconcile, source_attachment_cleanup, bulk_document_prepare,
  bulk_document_chunk_parse, bulk_document_aggregate, bulk_candidate_reconcile,
  bulk_document_post_process, unknown, Job,
}

-- The two tests of `Backoff`.
abbrev pub clamped_attempt : ℤ → ℕ
clamped_attempt (negsuc _) = 1
clamped_attempt (pos n) = if ltb n 1 then 1 else if ltb 7 n then 7 else n

-- `1 << n` is 2 ^ n.
unfoldable pub backoff : ℤ → ℕ
backoff attempt = second * 2 ^ (clamped_attempt attempt - 1)

unfoldable pub kind_text : Kind → Text
kind_text gmail_ingest = codes "gmail_ingestion"
kind_text source_parse = codes "source_parsing"
kind_text reconcile = codes "reconciliation"
kind_text source_attachment_cleanup = codes "source_attachment_cleanup"
kind_text bulk_document_prepare = codes "bulk_document_prepare"
kind_text bulk_document_chunk_parse = codes "bulk_document_chunk_parse"
kind_text bulk_document_aggregate = codes "bulk_document_aggregate"
kind_text bulk_candidate_reconcile = codes "bulk_candidate_reconciliation"
kind_text bulk_document_post_process = codes "bulk_document_post_process"
kind_text (unknown text) = text

-- A router is the list of its entries, in the order in which the map is iterated over; a handler that
-- is nil is none.
abbrev pub Router : Type 0 → Type 0
Router E = List (Kind × Option (Job → Option E))

module _ {E : Type 0} where
  unfoldable pub handler_of : Router E → Kind → Option (Job → Option E)
  handler_of [] kind = none
  handler_of ((k, h) ∷ rest) kind =
      if text_eq (kind_text k) (kind_text kind) then h else handler_of rest kind

  unfoldable pub kinds : Router E → List Kind
  kinds router =
      sort_by (λ a b. text_lt (kind_text a) (kind_text b)) (map (λ entry. entry.0) router)

  -- `no_handler` makes the error of a kind that has no handler.
  unfoldable pub handle : (Text → E) → Router E → Job → Option E
  handle no_handler router job = elim (handler_of router job.kind) [
    | none ↦ some (no_handler (kind_text job.kind))
    | some h ↦ h job
  ]
