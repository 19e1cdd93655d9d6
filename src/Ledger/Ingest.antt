-- ===== src/Ledger/Ingest.antt =====
-- internal/service/service.go (Ingest, the closure on a snapshot), archive_fallback.go
-- (checkExistingIngest, idempotencyKeyReused) and sources.go (resolveIngestTenantFromData). The event
-- has passed ValidateBasic and the quota (Quota); the two resolutions of its tenant see the same data,
-- and the layout is the one of a single snapshot.
use snaplink_audit_governanc.Prelude.{
  ℕ, String, Bool, true, false, not, ◌&&◌, ◌||◌, List, [], ◌∷◌, ◌++◌, ◌+++◌, none, some, Table,
  lookup, insert, get_or, length, leb, ◌==◌, if◌then◌else◌,
}
use snaplink_audit_governanc.Prelude.Texts.{codes}
use snaplink_audit_governanc.Domain.Errors.{
  Err, Result, ok, err, forbidden, conflict, tenant_mismatch, ◌>>=◌, ◌>>◌,
}
use snaplink_audit_governanc.Domain.Identifiers.{require_tenant_scope}
use snaplink_audit_governanc.Ledger.Models.{
  Event, EventReceipt, ledgered, is_archived, no_receipt, Segment, Checkpoint, StreamState,
  SourceSystem, allows_client, LedgerData, Evidence, framed_key,
}
use snaplink_audit_governanc.Ledger.Chain.{
  reconstruct_digest, content_digest, event_hash, seal_segment, cleared, new_stream, placed,
  advanced,
}

unfoldable pub source_access_allowed : LedgerData → String → String → String → Bool
source_access_allowed data_ tenant source_id client =
    elim (lookup (framed_key tenant source_id) data_.sources) [
      | none ↦ false
      | some source ↦ source.active && allows_client source client
    ]

-- The loop over the sources, with the tenant that is resolved so far.
unfoldable pub resolve_loop : String → String → String → Table SourceSystem → Result String
resolve_loop client source_id resolved [] = if resolved == "" then err forbidden else ok resolved
resolve_loop client source_id resolved ((key, source) ∷ others) =
    let skipped = resolve_loop client source_id resolved others in
    let taken = resolve_loop client source_id source.tenant_id others in
    if not source.active || not (source.id == source_id) || not (allows_client source client)
    then skipped
    else if not (resolved == "") && not (resolved == source.tenant_id)
    then err forbidden
    else taken

unfoldable pub resolve_ingest_tenant : LedgerData → String → String → String → Result String
resolve_ingest_tenant data_ hint client source_id =
    if not (hint == "")
    then if source_access_allowed data_ hint source_id client then ok hint else err forbidden
    else resolve_loop client source_id "" data_.sources

-- Whether another event of the tenant, hot or recorded, carries the key.
abbrev pub event_reuses : String → String → String → Table Event → Bool
event_reuses tenant key idempotency [] = false
event_reuses tenant key idempotency ((other, event) ∷ rest) =
    not (other == key) && event.tenant_id == tenant && event.idempotency_key == idempotency
    || event_reuses tenant key idempotency rest

abbrev pub receipt_reuses : String → String → String → Table EventReceipt → Bool
receipt_reuses tenant key idempotency [] = false
receipt_reuses tenant key idempotency ((other, receipt) ∷ rest) =
    not (other == key)
      && receipt.tenant_id == tenant
      && not (receipt.idempotency_key == "")
      && receipt.idempotency_key == idempotency
    || receipt_reuses tenant key idempotency rest

unfoldable pub idempotency_key_reused : LedgerData → String → String → String → Bool
idempotency_key_reused data_ tenant key idempotency =
    event_reuses tenant key idempotency data_.events
    || receipt_reuses tenant key idempotency data_.receipts

-- What checkExistingIngest finds: nothing, a clean duplicate, or a refusal.
pub data Existing : Type 0 where
  absent : Existing
  repeated : EventReceipt → Existing
  refused : EventReceipt → Err → Existing

abbrev pub conflicting : EventReceipt → EventReceipt
conflicting receipt = record receipt {
  conflict = true;
  error_code = "event_id_content_conflict";
  error_message = "event_id already exists with different canonical content";
}

abbrev pub compare_content : EventReceipt → String → Result String → Existing
compare_content receipt input (err e) = refused no_receipt e
compare_content receipt input (ok digest) =
    if digest == input
    then repeated (record receipt { duplicate = true })
    else refused (conflicting receipt) conflict

unfoldable pub check_archived : Evidence → EventReceipt → String → Existing
check_archived v receipt input =
    if not (is_archived receipt.status) then absent else elim (v.archived_event receipt) [
      | err e ↦ refused no_receipt e
      | ok event ↦ compare_content receipt input (reconstruct_digest v event)
    ]

unfoldable pub check_existing_ingest : Evidence → LedgerData → String → String → String → Existing
check_existing_ingest v data_ tenant event_id input =
    let key = framed_key tenant event_id in
    elim (lookup key data_.events) [
      | some event ↦
          compare_content (get_or key no_receipt data_.receipts) input (reconstruct_digest v event)
      | none ↦ elim (lookup key data_.receipts) [
        | none ↦ absent
        | some receipt ↦ check_archived v receipt input
      ]
    ]

-- Event.Stream; the client's stream identifier is dropped before.
unfoldable pub derived_stream : Event → String
derived_stream event =
    if not (event.stream_id == "")
    then event.stream_id
    else if not (event.aggregate_type == "") && not (event.aggregate_id == "")
    then event.tenant_id +++ ":aggregate:" +++ event.aggregate_type +++ ":" +++ event.aggregate_id
    else if not (event.operation_id == "")
    then event.tenant_id +++ ":operation:" +++ event.operation_id
    else event.tenant_id +++ ":source:" +++ event.source_system

unfoldable pub conflict_receipt : String → Event → EventReceipt
conflict_receipt tenant event = record no_receipt {
  event_id = event.event_id;
  tenant_id = tenant;
  idempotency_key = event.idempotency_key;
  conflict = true;
  error_code = "idempotency_key_conflict";
  error_message = "idempotency_key is already associated with another event";
}

unfoldable pub ledgered_receipt : String → Event → EventReceipt
ledgered_receipt tenant event = record no_receipt {
  event_id = event.event_id;
  tenant_id = tenant;
  idempotency_key = event.idempotency_key;
  status = ledgered;
  accepted_at = event.received_at;
  ledgered_at = event.received_at;
  stream_id = event.stream_id;
  sequence = event.sequence;
  hash = event.hash;
}

-- What a run of the closure leaves: new data with the receipt and the segments that it sealed, or an
-- error with the receipt that Ingest hands on: it drops the receipt of an error that is no conflict.
-- The store discards the data of a failed run.
pub data Attempt : Type 0 where
  committed : LedgerData → EventReceipt → List Segment → Attempt
  rejected : EventReceipt → Err → Attempt

-- `data.Streams[streamKey]`, or a new stream.
unfoldable pub current_stream : LedgerData → String → String → String → StreamState
current_stream data_ key tenant stream_id = elim (lookup key data_.streams) [
  | none ↦ new_stream tenant stream_id
  | some stream ↦ if stream.stream_id == "" then new_stream tenant stream_id else stream
]

-- The writes of the event, its stream, its receipt and its publication intent.
unfoldable pub record_event :
    Evidence → String → String → StreamState → Event → LedgerData → LedgerData
record_event v key stream_key stream event data_ = record data_ {
  streams = insert stream_key stream data_.streams;
  events = insert key event data_.events;
  ledgered_outbox =
      if v.has_publisher then insert key event data_.ledgered_outbox else data_.ledgered_outbox;
  receipts = insert key (ledgered_receipt event.tenant_id event) data_.receipts;
}

-- `data.Segments[key] = append(…)` and the rest of a seal.
unfoldable pub store_seal : String → StreamState → Segment → Checkpoint → LedgerData → LedgerData
store_seal stream_key stream segment checkpoint data_ = record data_ {
  segments = insert stream_key (get_or stream_key [] data_.segments ++ segment ∷ []) data_.segments;
  checkpoints =
      insert stream_key (get_or stream_key [] data_.checkpoints ++ checkpoint ∷ [])
        data_.checkpoints;
  streams = insert stream_key (cleared stream) data_.streams;
}

abbrev pub finish_seal :
    String → StreamState → Event → LedgerData → Result (Segment × Checkpoint) → Attempt
finish_seal stream_key stream event data_ (err e) = rejected no_receipt e
finish_seal stream_key stream event data_ (ok (segment, checkpoint)) =
    committed (store_seal stream_key stream segment checkpoint data_)
      (ledgered_receipt event.tenant_id event) (segment ∷ [])

-- The stream is sealed once its pending hashes fill a segment.
unfoldable pub seal_full : Evidence → String → String → StreamState → Event → LedgerData → Attempt
seal_full v fresh stream_key stream event data_ =
    if not (leb v.segment_size (length stream.pending_hashes))
    then committed data_ (ledgered_receipt event.tenant_id event) []
    else finish_seal stream_key stream event data_ (seal_segment v fresh stream event.received_at)

-- The event is linked to its stream and recorded.
unfoldable pub append_hashed :
    Evidence → String → String → String → StreamState → Event → LedgerData → Result String → Attempt
append_hashed v fresh key stream_key stream event data_ (err e) = rejected no_receipt e
append_hashed v fresh key stream_key stream event data_ (ok hash) =
    let after = advanced stream key hash in
    let recorded = record event { hash = hash } in
    seal_full v fresh stream_key after recorded (record_event v key stream_key after recorded data_)

unfoldable pub append_event : Evidence → String → String → Event → LedgerData → Attempt
append_event v fresh key event data_ =
    let stream_id = derived_stream event in
    let stream_key = framed_key event.tenant_id stream_id in
    let stream = current_stream data_ stream_key event.tenant_id stream_id in
    let located = placed stream_id stream event in
    append_hashed v fresh key stream_key stream located data_ (event_hash v located)

abbrev pub unless_reused : Evidence → String → String → Event → LedgerData → Bool → Attempt
unless_reused v fresh key event data_ true =
    rejected (conflict_receipt event.tenant_id event) conflict
unless_reused v fresh key event data_ false = append_event v fresh key event data_

abbrev pub unless_existing : Evidence → String → String → Event → LedgerData → Existing → Attempt
unless_existing v fresh key event data_ (repeated receipt) = committed data_ receipt []
unless_existing v fresh key event data_ (refused receipt e) = rejected receipt e
unless_existing v fresh key event data_ absent =
    unless_reused v fresh key event data_
      (idempotency_key_reused data_ event.tenant_id key event.idempotency_key)

-- The whole closure; `event` carries the resolved tenant and no stream.
unfoldable pub ingest_closure :
    Evidence → String → String → String → Event → String → LedgerData → Attempt
ingest_closure v fresh hint client event input data_ =
    elim (resolve_ingest_tenant data_ hint client event.source_system) [
      | err e ↦ rejected no_receipt forbidden
      | ok resolved ↦
          if not (resolved == event.tenant_id)
          then rejected no_receipt forbidden
          else unless_existing v fresh (framed_key event.tenant_id event.event_id) event data_
              (check_existing_ingest v data_ event.tenant_id event.event_id input)
    ]

-- The data after the attempt.
abbrev pub data_after : LedgerData → Attempt → LedgerData
data_after data_ (committed after receipt sealed) = after
data_after data_ (rejected receipt e) = data_

-- The head of Ingest, up to the closure: the tenant is resolved and stamped, the stream dropped.
-- `prepare` is validateEvent with protectSensitiveFields, which replaces fields of the payload.
unfoldable pub stamped_event : String → ℕ → Event → Event
stamped_event tenant now event = record event {
  tenant_id = tenant;
  stream_id = "";
  received_at = now;
  source_digest = "";
}

unfoldable pub ingest_resolved :
    Evidence
    → (Event → Result String)
    → String
    → ℕ
    → String
    → String
    → String
    → Event
    → LedgerData
    → Attempt
ingest_resolved v prepare fresh now hint client tenant event data_ =
    if not (event.tenant_id == "") && not (event.tenant_id == tenant)
    then rejected no_receipt tenant_mismatch
    else elim (content_digest v (stamped_event tenant now event)) [
      | err e ↦ rejected no_receipt e
      | ok digest ↦
          elim (prepare (record (stamped_event tenant now event) { source_digest = digest })) [
            | err e ↦ rejected no_receipt e
            | ok body ↦
                ingest_closure v fresh hint client
                  (record (stamped_event tenant now event) { source_digest = digest; body = body })
                  digest data_
          ]
    ]

abbrev pub check_hint : String → Result (Unit {0})
check_hint hint = if hint == "" then ok tt else require_tenant_scope (codes hint)

unfoldable pub resolve_ingest_scope : LedgerData → String → String → String → Result String
resolve_ingest_scope data_ hint client source_id = do
  check_hint hint
  tenant ← resolve_ingest_tenant data_ hint client source_id
  require_tenant_scope (codes tenant)
  ok tenant

unfoldable pub ingest :
    Evidence → (Event → Result String) → String → ℕ → String → String → Event → LedgerData → Attempt
ingest v prepare fresh now hint client event data_ =
    elim (resolve_ingest_scope data_ hint client event.source_system) [
      | err e ↦ rejected no_receipt e
      | ok tenant ↦ ingest_resolved v prepare fresh now hint client tenant event data_
    ]
