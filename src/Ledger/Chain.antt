-- ===== src/Ledger/Chain.antt =====
-- internal/service/service.go (Ingest) and ingest_validation.go (eventHash, sealSegment): one event
-- is linked to the head of its stream, and the pending hashes of a stream are sealed.
use snaplink_audit_governanc.Prelude.{
  ℕ, suc, ◌-◌, String, not, List, [], ◌∷◌, ◌++◌, ◌+++◌, none, some, length, eqb, ◌==◌,
  if◌then◌else◌,
}
use snaplink_audit_governanc.Domain.Errors.{Result, ok, err, ◌>>=◌}
use snaplink_audit_governanc.Ledger.{merkle_root}
use snaplink_audit_governanc.Ledger.Models.{Event, Segment, Checkpoint, StreamState, Evidence}

-- The event without the fields that processing sets.
unfoldable pub content_fields : Event → Event
content_fields event = record event {
  source_digest = "";
  received_at = 0;
  hash = "";
  prev_hash = "";
  sequence = 0;
  stream_id = "";
}

-- EventContentDigest
unfoldable pub content_digest : Evidence → Event → Result String
unfolding content_fields
content_digest v event = do data_ ← v.event_json (content_fields event); ok (v.hash_bytes data_)

-- legacyEventContentDigest
unfoldable pub legacy_digest : Evidence → Event → Result String
unfolding content_fields
legacy_digest v event = do data_ ← v.legacy_json (content_fields event); ok (v.hash_bytes data_)

-- reconstructAndDerive
unfoldable pub reconstruct_digest : Evidence → Event → Result String
unfolding content_digest
reconstruct_digest v event = do original ← v.reconstruct_event event; content_digest v original

-- EventDigest
unfoldable pub event_digest : Evidence → Event → Result String
unfolding content_digest
event_digest v event =
    if not (event.source_digest == "") then ok event.source_digest else content_digest v event

unfoldable pub event_hash : Evidence → Event → Result String
unfolding event_digest
event_hash v event = do
  digest ← event_digest v event
  ok (v.hash_bytes (v.link_json digest event.prev_hash event.sequence event.stream_id))

-- The root that `merkleRoot` returns.
abbrev pub root_of : Evidence → List String → String
root_of v hashes = elim (merkle_root v.hash_bytes hashes) [ none ↦ "" | some root ↦ root ]

-- `fmt.Sprintf("%s:%d:%d:%s:%s", …)`
unfoldable pub manifest : Evidence → String → ℕ → ℕ → String → String → String
manifest v tenant first last last_hash root =
    tenant
    +++ ":"
    +++ v.format_int first
    +++ ":"
    +++ v.format_int last
    +++ ":"
    +++ last_hash
    +++ ":"
    +++ root

abbrev pub manifest_hash_of : Evidence → StreamState → String
manifest_hash_of v stream = v.hash_bytes (
    manifest v stream.tenant_id (stream.next_sequence - length stream.pending_hashes)
      (stream.next_sequence - 1) stream.head_hash (root_of v stream.pending_hashes))

abbrev pub sealed_segment : Evidence → StreamState → ℕ → String → Segment
sealed_segment v stream now signature = record {
  tenant_id = stream.tenant_id;
  stream_id = stream.stream_id;
  first_sequence = stream.next_sequence - length stream.pending_hashes;
  last_sequence = stream.next_sequence - 1;
  first_prev_hash = stream.pending_prev_hash;
  last_hash = stream.head_hash;
  event_count = length stream.pending_hashes;
  merkle_root = root_of v stream.pending_hashes;
  manifest_hash = manifest_hash_of v stream;
  signature = signature;
  created_at = now;
}

abbrev pub sealed_checkpoint : Evidence → String → StreamState → ℕ → String → Checkpoint
sealed_checkpoint v fresh stream now signature = record {
  id = fresh;
  tenant_id = stream.tenant_id;
  stream_id = stream.stream_id;
  sequence = stream.next_sequence - 1;
  merkle_root = root_of v stream.pending_hashes;
  signature = signature;
  algorithm = v.algorithm;
  created_at = now;
}

abbrev pub signed_seal :
    Evidence → String → StreamState → ℕ → Result String → Result (Segment × Checkpoint)
signed_seal v fresh stream now (err e) = err e
signed_seal v fresh stream now (ok signature) =
    ok (sealed_segment v stream now signature, sealed_checkpoint v fresh stream now signature)

-- sealSegment; `fresh` is the identifier that `newID` draws.
unfoldable pub seal_segment : Evidence → String → StreamState → ℕ → Result (Segment × Checkpoint)
seal_segment v fresh stream now =
    signed_seal v fresh stream now (v.sign (manifest_hash_of v stream))

-- What a sealed stream keeps pending: nothing.
abbrev pub cleared : StreamState → StreamState
cleared stream = record stream { pending_hashes = []; pending_events = []; pending_prev_hash = "" }

abbrev pub new_stream : String → String → StreamState
new_stream tenant stream = record {
  tenant_id = tenant;
  stream_id = stream;
  next_sequence = 1;
  head_hash = "";
  pending_prev_hash = "";
  pending_hashes = [];
  pending_events = [];
}

-- The event at the head of the stream, before its hash.
abbrev pub placed : String → StreamState → Event → Event
placed stream_id stream event = record event {
  stream_id = stream_id;
  sequence = stream.next_sequence;
  prev_hash = stream.head_hash;
}

-- The stream once the event is its head.
unfoldable pub advanced : StreamState → String → String → StreamState
advanced stream key hash = record stream {
  next_sequence = suc stream.next_sequence;
  head_hash = hash;
  pending_hashes = stream.pending_hashes ++ hash ∷ [];
  pending_events = stream.pending_events ++ key ∷ [];
  pending_prev_hash =
      if eqb (length (stream.pending_hashes ++ hash ∷ [])) 1
      then stream.head_hash
      else stream.pending_prev_hash;
}
