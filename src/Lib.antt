-- ===== src/Lib.antt =====
-- snaplink audit-governance: a model of the control plane of the audit service, in Go under internal/.
--
-- The service keeps tenants, legal holds, export jobs with their leases, plans and checkpoints,
-- restore runs and an admin trail in one snapshot. Every operation is a closure that runs on a
-- fresh snapshot inside an optimistic update, so the model is a function from the data to the data
-- and a result, and interleavings are sequences of such calls.
--
-- Prelude: tests, lists, maps as association lists, texts.
-- Domain: internal/domain (models.go, identifiers.go, export_status.go) and the error values.
-- Service: the configuration of internal/service/service.go, and what it takes from the standard
--   library: HMAC over a JSON encoding, RFC 3339, the clock and fresh identifiers (a `Call`).
-- Store: internal/store. `Control` is the part of Snapshot that the operations share, and
--   `update_checked` one uncontended pass of UpdateControlChecked; Store.Cas is the loop of
--   updateChecked against postgresBackend.Save, with what other instances do as a list of turns;
--   Store.TenantLedger is the immutable ledger of a tenant (ledger.go), without reader and parent.
-- Export: internal/service/export*.go. Queue admits (CreateExport), Claim starts or takes over
--   (claimExport), Lease renews and checks, Recover fails expired and stuck jobs
--   (recoverExportJobs), Owner cancels and retries, Terminal finishes (persistTerminalExport),
--   Plan and Checkpoint test the signed artifacts, Scheduler chooses a pending export (nextExport), and
--   Dispatch what the dispatcher runs next (nextRunnableExport). Operations puts them together as the
--   steps of a history; Slots, Lifecycle and Fencing hold the proofs.
-- Hold, Restore: internal/service/hold.go and restore.go.
-- Trail, Quota: internal/service/admin_trail.go and checkTenantAndQuota of service.go.
-- Outbox: internal/outbox (relay.go, postgres.go, identity.go).
-- Ledger: the evidence ledger on a snapshot. Ledger itself is merkleRoot of
--   internal/service/query_match.go, where a fuel of the number of hashes is enough; Models has the
--   records, Chain links an event and seals a segment (ingest_validation.go), Ingest is Ingest of
--   service.go with its duplicate and idempotency checks (archive_fallback.go, sources.go), Seal is
--   SealPendingSegments (sealing.go), Verify is the check of VerifyIntegrity (integrity.go) with
--   verifyContentDigest, where the decryption of an event is an argument. Linked is the invariant
--   of a stream and its histories. Archiving is ArchivePending with the dead letters (sealing.go)
--   and transitionReceipt (tenant_ingest.go); its read and its write see two states of the data.
--   SHA-256, JSON, the signer and the archive are arguments.
-- Search: internal/service/query_match.go: the selection by queries and legal holds, with the digests
--   of internal/security as arguments, and the replay of changes.
-- Http: internal/httpapi. Scope is scope.go and the permission check of authz.go, with
--   url.ParseQuery as an argument; Errors maps an error, as the sentinels that errors.Is finds in it
--   and its text, to status, code, message and counters.
-- Archive: EncodeKeyComponent and DecodeKeyComponent of internal/fsutil/fsutil.go.
-- Examples: the theorems at concrete inputs.
--
-- Numbers are natural, but for the burst of a quota, which has a sign: times count nanoseconds,
-- with 0 for the zero time, and sizes and counters of the code are far from the bounds of int64. A
-- pass of recovery recurses on the table, the update loop on the attempts that are left (3
-- retries), the backoff on the rounds of its loop, the Merkle root on fuel. A call reads the clock
-- once.
--
-- Not modelled: the writes of plans, pages and checkpoints, the execution of an export's query, the
-- split hot and cold layout of the ledger, the validation and encryption of event contents (arguments
-- of the ledger), aggregate attestations, the other handlers of the transports, archives, Kafka and
-- the file backend. Cancelled contexts, logs and messages of errors are left out.
pub mod Archive
pub mod Domain
pub mod Examples
pub mod Export
pub mod Hold
pub mod Http
pub mod Ledger
pub mod Outbox
pub mod Prelude
pub mod Quota
pub mod Restore
pub mod Search
pub mod Service
pub mod Store
pub mod Trail
