-- ===== src/Lib.antt =====
-- A verification library for the Go backend of wealth-management (backend/internal).
--
-- The program imports bank and card evidence, reconciles it with transactions, and keeps account
-- balances and credit card bills. The library models the packages that hold its domain rules:
--
--   Prelude, GoTime, Currency   Go's strings (as lists of code points), decimal numerals, int64 (as an
--                               integer with its range as a hypothesis or a test), time.Time (an
--                               instant and a wall clock, in nanoseconds since the zero time), and
--                               IsISO4217 of backend/internal/reconciliation/reconciliation.go
--   CreditCard                  backend/internal/creditcard: bills, from the projection of an imported
--                               statement to its settlement
--   AccountBalances             backend/internal/accountbalances: opening balances, current balances,
--                               and how a transaction counts as spending
--   Reconciliation              backend/internal/reconciliation: which transaction a piece of evidence is
--                               attached to, whether one is created, and what a mail bears out
--   ParserRules                 backend/internal/parserrules: the rule that a mail is read with
--   BulkParse                   backend/internal/bulkparse/decoder.go: what a model's answer about the
--                               pages of a bulk import must satisfy, and which candidates are duplicates
--   BulkImport                  backend/internal/bulkimport/service.go: the checks of requests, and how a
--                               file is reserved
--   Jobs                        backend/internal/jobs/jobs.go: a worker that holds the lease of a job
--                               while it handles it
--
-- CreditCard. Types are the records of store.go. Action is a database transaction's callback as a
-- function on the world (the database, and the counters of clock readings and of new UUIDs), the
-- interface Tx as a record of actions, and Store.Transact of
-- backend/internal/creditcardstore/postgres.go, which rolls the database back when the callback fails. Rules,
-- Matching and Payment are the helpers of service.go under their names in snake_case
-- (validateLineTransaction is validate_line_transaction, resolvePayment is resolve_payment), Requests
-- and Service its mutating methods. Calls runs any sequence of these methods.
-- Statement is the specification: the columns of private.credit_card_statements, the table's check
-- constraints (supabase/migrations/20260904043721_create_account_balances_and_credit_card_bills.sql)
-- but for its keys, and the changes that one request may make. Contract is what the service relies on of a store: which
-- methods of Tx write to that table, and that SaveBill compares the stored version with the expected
-- one, and that the database refuses a bill out of Review with something unresolved, which the service
-- does not test wherever it could arise; Calls.Memory is a store that keeps it. Currencies says what a
-- currency code and a reason of the table are, and what is relied on of currency.ParseISO and
-- unicode.ToUpper. Resolution, Evolution, Transacting and Methods carry the
-- proof from the helpers to each method.
--
-- AccountBalances. Types are the records of store.go and the requests and views of service.go. The
-- methods of service.go stand in Service, over the interface Repository as a record of actions on its
-- state; their loops and checks in MinorUnits, Opening, Balances and Treatment. Exact, Range, LineSums,
-- Sorted, RoundTrip, Normalized, View and Params prove them, against sums of integers without a bound.
-- The int64 sums of balances and line items are written with Go's wrap-around.
--
-- Reconciliation. Types are the records, Validation is ValidateCandidate and what it calls, Accounts
-- resolves the account, Decide is Reconcile with its score. A validation returns the text of the error
-- or none; a normalized key is there or not, without the text of the error, which Reconcile drops. A
-- float64 is NaN, an infinity or a whole multiple of 2^-1074. Attach and Decisions prove what a decision
-- means, Keys what a normalized key is. Response is the validation of a parsed response and of its
-- citations, with Citations and Confidence for its proofs; Amounts and Corroboration are corroboration.go, with Grouping
-- and Eligible for their proofs.
--
-- ParserRules. Matching is the verdict on one rule (applyOne, matchesUserRule), Select the search that
-- MatchAndApply and MatchUserRule share, Chosen its proof against the rules of the highest priority.
--
-- BulkParse. Fields, Candidates, Summary and Decode are the checks of decoder.go, under their names, in
-- the order of the code; the fields that must and may be cited are lists. Evidence, Problems, Items,
-- Cited, Accepted and Decoded prove what they accept. Fingerprint is FingerprintV1 and DedupeV1, Duplicates their proofs.
--
-- BulkImport. Requests are the checks of service.go, Service its operations over the interfaces Store and
-- Storage, which are records of actions on a state; Batch and Finalize are FinalizeFile. Unique,
-- Accepted, Reserved and Finalized prove them.
--
-- Jobs. Queue is Router and Backoff, with Delay for its proof. Worker is ProcessOne and
-- renewLeaseUntilDone as a step relation: the two goroutines, the ticker, the answers of the store, the
-- end of the handler and the end of the context interleave in any order, and the calls of the store and
-- its answer to the last one are recorded. Lease and Progress prove what every run does.
--
-- Parameters, for code outside the repository: the stores behind Tx and Repository, pgx's Begin and
-- Commit, the clock, uuid.New and UUID.String, JSON, SHA-256, Time.Format, unicode.ToUpper and
-- ToLower, strings.EqualFold, regexp, net/mail, the registry of currency.ParseISO and the decimals of its
-- currencies, time.Parse, and whatever stands behind the interfaces of jobs.
--
-- Choices. A nil pointer that the code would dereference is an error of its own, since a panic rolls
-- back as an error does. A map that the code iterates over is a list in the order of the iteration.
-- An int that is only tested against 0 or 1 from below is a natural number. Every loop is a structural
-- recursion over a list; only the printing of a decimal numeral runs on fuel, as many rounds as its
-- number, which has no more digits than that. When Commit fails, Go returns the bill beside the error;
-- the model returns the error, and the database has kept the changes or not.
--
-- Not modelled: SQL, HTTP, object storage, Gmail and the model providers, and the frontend, which are
-- input and output around these rules; the JSON decoding of a parsed response (decodeParsedResponse);
-- PreviewPrompt and GetDocumentEvidence of bulkimport; and the other packages of backend/internal (the
-- stores and workers of bulk import, ingestion, transactions).
pub mod Prelude
pub mod GoTime
pub mod Currency
pub mod Jobs
pub mod CreditCard
pub mod AccountBalances
pub mod Reconciliation
pub mod ParserRules
pub mod BulkParse
pub mod BulkImport
