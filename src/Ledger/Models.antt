-- ===== src/Ledger/Models.antt =====
-- internal/domain/models.go and internal/store/store.go: the records of the evidence ledger, and what
-- the service takes from outside the repository for them (an `Evidence`).
use snaplink_audit_governanc.Prelude.{
  ℕ, String, Bool, true, false, List, [], ◌∷◌, ◌+++◌, Table, any, ◌==◌, if◌then◌else◌,
}
use snaplink_audit_governanc.Domain.Errors.{Result}

-- `body` stands for the fields that the ledger only hashes: the actor, the targets, the changed
-- fields, the payload, their classification, and the identifiers of causes and traces.
pub record Event : Type 0 where
  pub event_id : String
  pub tenant_id : String
  pub source_system : String
  pub event_type : String
  pub schema_id : String
  pub schema_version : ℕ
  pub occurred_at : ℕ
  pub received_at : ℕ
  pub operation_id : String
  pub aggregate_type : String
  pub aggregate_id : String
  pub action : String
  pub outcome : String
  pub body : String
  pub source_digest : String
  pub idempotency_key : String
  pub stream_id : String
  pub sequence : ℕ
  pub prev_hash : String
  pub hash : String

-- `EventReceipt.Status`; the empty text is the zero value.
pub data ReceiptStatus : Type 0 where
  unset accepted ledgered indexed archived : ReceiptStatus

abbrev pub is_archived : ReceiptStatus → Bool
is_archived archived = true
is_archived _ = false

pub record EventReceipt : Type 0 where
  pub event_id : String
  pub tenant_id : String
  pub idempotency_key : String
  pub status : ReceiptStatus
  pub accepted_at : ℕ
  pub ledgered_at : ℕ
  pub indexed_at : ℕ
  pub archived_at : ℕ
  pub stream_id : String
  pub sequence : ℕ
  pub hash : String
  pub duplicate : Bool
  pub conflict : Bool
  pub error_code : String
  pub error_message : String

abbrev pub no_receipt : EventReceipt
no_receipt = record {
  event_id = "";
  tenant_id = "";
  idempotency_key = "";
  status = unset;
  accepted_at = 0;
  ledgered_at = 0;
  indexed_at = 0;
  archived_at = 0;
  stream_id = "";
  sequence = 0;
  hash = "";
  duplicate = false;
  conflict = false;
  error_code = "";
  error_message = "";
}

pub record Segment : Type 0 where
  pub tenant_id : String
  pub stream_id : String
  pub first_sequence : ℕ
  pub last_sequence : ℕ
  pub first_prev_hash : String
  pub last_hash : String
  pub event_count : ℕ
  pub merkle_root : String
  pub manifest_hash : String
  pub signature : String
  pub created_at : ℕ

pub record Checkpoint : Type 0 where
  pub id : String
  pub tenant_id : String
  pub stream_id : String
  pub sequence : ℕ
  pub merkle_root : String
  pub signature : String
  pub algorithm : String
  pub created_at : ℕ

pub record StreamState : Type 0 where
  pub tenant_id : String
  pub stream_id : String
  pub next_sequence : ℕ
  pub head_hash : String
  pub pending_prev_hash : String
  pub pending_hashes : List String
  pub pending_events : List String

pub record SourceSystem : Type 0 where
  pub id : String
  pub tenant_id : String
  pub name : String
  pub allowed_client_ids : List String
  pub active : Bool
  pub created_at : ℕ

-- SourceSystem.AllowsClient
unfoldable pub allows_client : SourceSystem → String → Bool
allows_client source client = if client == "" then false else elim source.allowed_client_ids [
  | [] ↦ client == source.id
  | first ∷ others ↦ any (λ allowed. client == allowed) (first ∷ others)
]

pub record DeadLetter : Type 0 where
  pub tenant_id : String
  pub event_id : String
  pub stream_id : String
  pub sequence : ℕ
  pub reason : String
  pub error_message : String
  pub at : ℕ

-- The maps of store.Snapshot that the ledger keeps.
pub record LedgerData : Type 0 where
  pub sources : Table SourceSystem
  pub events : Table Event
  pub receipts : Table EventReceipt
  pub streams : Table StreamState
  pub segments : Table (List Segment)
  pub checkpoints : Table (List Checkpoint)
  pub dead_letters : Table DeadLetter
  pub ledgered_outbox : Table Event
  pub archive_conflict_failures : Table ℕ

abbrev pub new_ledger : LedgerData
new_ledger = record {
  sources = [];
  events = [];
  receipts = [];
  streams = [];
  segments = [];
  checkpoints = [];
  dead_letters = [];
  ledgered_outbox = [];
  archive_conflict_failures = [];
}

-- What the ledger takes as given: SHA-256 (HashBytes), the JSON encodings (CanonicalJSON), `%d`, the
-- signer, and the reconstruction of protected content, which decrypts.
pub record Evidence : Type 0 where
  -- Config.SegmentSize and whether Config.LedgeredPublisher is set
  pub segment_size : ℕ
  pub has_publisher : Bool
  pub hash_bytes : String → String
  -- CanonicalJSON of an event, and of the digest, the previous hash, the sequence and the stream
  pub event_json : Event → Result String
  pub link_json : String → String → ℕ → String → String
  pub format_int : ℕ → String
  -- Signer.Sign, Signer.Verify and Signer.Algorithm
  pub sign : String → Result String
  pub verify : String → String → Result Bool
  pub algorithm : String
  -- reconstructEventForDigest, which decrypts, legacyCanonicalJSON and archivedEventContext
  pub reconstruct_event : Event → Result Event
  pub legacy_json : Event → Result String
  pub archived_event : EventReceipt → Result Event

-- KeySeparator
abbrev pub separator : String
separator = "\u{1f}"

-- EventKey, StreamKey and SourceKey of internal/store/store.go, on whole texts.
unfoldable pub framed_key : String → String → String
framed_key tenant id = tenant +++ separator +++ id
