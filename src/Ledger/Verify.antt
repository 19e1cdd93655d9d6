-- ===== src/Ledger/Verify.antt =====
-- internal/service/integrity.go, VerifyIntegrity: the checks of the captured events and segments. A
-- `Finding` is one entry of IntegrityResult.Errors; the verdict is valid when there is none. The
-- aggregate attestations, interrupted verifications and the recorded fact are left out.
pub mod Sorting
pub mod Spans
pub mod Covers
pub mod Accepts
pub mod Tampering
use snaplink_audit_governanc.Prelude.{
  ℕ, suc, ◌+◌, ◌-◌, String, Bool, true, false, not, ◌&&◌, ◌||◌, List, [], ◌∷◌, ◌++◌, map, length,
  filter, any, leb, ltb, eqb, str_lt, ◌==◌, if◌then◌else◌, none, some, Table, get_or,
}
use snaplink_audit_governanc.Domain.Errors.{Result, ok, err, ◌>>=◌}
use snaplink_audit_governanc.Ledger.{merkle_root}
use snaplink_audit_governanc.Ledger.Models.{Event, Segment, LedgerData, Evidence, framed_key}
use snaplink_audit_governanc.Ledger.Chain.{
  event_hash, content_digest, legacy_digest, root_of, manifest,
}

pub data Finding : Type 0 where
  prev_hash_mismatch hash_mismatch content_mismatch : String → ℕ → Finding
  root_mismatch signature_mismatch : String → ℕ → ℕ → Finding

-- By sequence, then by identifier.
abbrev pub comes_before : Event → Event → Bool
comes_before a b =
    if eqb a.sequence b.sequence then str_lt a.event_id b.event_id else ltb a.sequence b.sequence

unfoldable pub insert_event : Event → List Event → List Event
insert_event event [] = event ∷ []
insert_event event (first ∷ others) =
    let later = insert_event event others in
    if comes_before first event then first ∷ later else event ∷ first ∷ others

unfoldable pub sort_events : List Event → List Event
unfolding insert_event
sort_events [] = []
sort_events (event ∷ others) = insert_event event (sort_events others)

-- `byStream[stream]`, in the order of the sequence.
abbrev pub by_stream : String → List Event → List Event
by_stream stream events = sort_events (filter (λ e. e.stream_id == stream) events)

-- The streams that occur, each once, in order.
unfoldable pub insert_name : String → List String → List String
insert_name name [] = name ∷ []
insert_name name (first ∷ others) =
    let later = insert_name name others in
    if name == first
    then first ∷ others
    else if str_lt first name
    then first ∷ later
    else name ∷ first ∷ others

unfoldable pub stream_names : List Event → List String
unfolding insert_name
stream_names [] = []
stream_names (event ∷ others) = insert_name event.stream_id (stream_names others)

abbrev pub report : Bool → Finding → List Finding
report fine finding = if fine then [] else finding ∷ []

abbrev pub is_hash : Result String → String → Bool
is_hash (err e) hash = false
is_hash (ok expected) hash = expected == hash

abbrev pub is_verified : Result Bool → Bool
is_verified (err e) = false
is_verified (ok valid) = valid

-- MatchEventContentDigest: whether the digest is the event's, in the current encoding or the legacy one.
unfoldable pub match_content_digest : Evidence → Event → String → Result Bool
match_content_digest v event expected = content_digest v event >>= λ current.
    if current == expected
    then ok true
    else legacy_digest v event >>= λ legacy. ok (legacy == expected)

-- verifyContentDigest
unfoldable pub content_valid : Evidence → Event → Bool
unfolding match_content_digest
content_valid v event =
    not (event.source_digest == "")
    && is_verified (
        v.reconstruct_event event >>= λ original.
        match_content_digest v original event.source_digest)

unfoldable pub check_event : Evidence → String → String → Event → List Finding
check_event v stream head event =
    report (event.prev_hash == head) (prev_hash_mismatch stream event.sequence)
    ++ report (is_hash (event_hash v event) event.hash) (hash_mismatch stream event.sequence)
    ++ report (content_valid v event) (content_mismatch stream event.sequence)

unfoldable pub check_chain : Evidence → String → String → List Event → List Finding
unfolding check_event
check_chain v stream head [] = []
check_chain v stream head (event ∷ others) =
    check_event v stream head event ++ check_chain v stream event.hash others

unfoldable pub check_streams : Evidence → List Event → List String → List Finding
unfolding sort_events check_chain
check_streams v events [] = []
check_streams v events (stream ∷ others) =
    check_chain v stream "" (by_stream stream events) ++ check_streams v events others

-- Whether the segment spans the event's sequence.
abbrev pub spans : Segment → Event → Bool
spans segment event =
    leb segment.first_sequence event.sequence && leb event.sequence segment.last_sequence

-- The field of the last event with that sequence, or the empty text.
unfoldable pub field_at : (Event → String) → ℕ → String → List Event → String
field_at field sequence found [] = found
field_at field sequence found (event ∷ others) =
    let hit = field_at field sequence (field event) others in
    let miss = field_at field sequence found others in
    if eqb event.sequence sequence then hit else miss

abbrev pub event_hash_of : Event → String
event_hash_of event = event.hash

abbrev pub event_prev_hash_of : Event → String
event_prev_hash_of event = event.prev_hash

unfoldable pub has_root : Evidence → Segment → List Event → Bool
unfolding merkle_root field_at
has_root v segment events =
    let hashes = map event_hash_of (filter (spans segment) events) in
    root_of v hashes == segment.merkle_root
    && eqb (length hashes) segment.event_count
    && field_at event_prev_hash_of segment.first_sequence "" events == segment.first_prev_hash
    && field_at event_hash_of segment.last_sequence "" events == segment.last_hash
    && leb segment.first_sequence segment.last_sequence
    && eqb segment.event_count (suc (segment.last_sequence - segment.first_sequence))

unfoldable pub has_signature : Evidence → Segment → Bool
unfolding manifest
has_signature v segment =
    let hash = v.hash_bytes (
      manifest v segment.tenant_id segment.first_sequence segment.last_sequence segment.last_hash
        segment.merkle_root) in
    is_verified (v.verify hash segment.signature) && hash == segment.manifest_hash

unfoldable pub check_segment : Evidence → List Event → Segment → List Finding
unfolding has_root has_signature sort_events
check_segment v events segment =
    report (has_root v segment (by_stream segment.stream_id events))
      (root_mismatch segment.stream_id segment.first_sequence segment.last_sequence)
    ++ report (has_signature v segment)
        (signature_mismatch segment.stream_id segment.first_sequence segment.last_sequence)

unfoldable pub check_segments : Evidence → List Event → List Segment → List Finding
unfolding check_segment
check_segments v events [] = []
check_segments v events (segment ∷ others) =
    check_segment v events segment ++ check_segments v events others

unfoldable pub verify_evidence : Evidence → List Event → List Segment → List Finding
unfolding stream_names check_streams check_segments
verify_evidence v events segments =
    check_streams v events (stream_names events) ++ check_segments v events segments

-- The hot events of one stream of a tenant, and its segments: what the read captures of a stream
-- whose bodies are all hot.
abbrev pub hot_events : Table Event → List Event
hot_events [] = []
hot_events ((key, event) ∷ rest) = event ∷ hot_events rest

abbrev pub is_of : String → String → Event → Bool
is_of tenant stream event = event.tenant_id == tenant && event.stream_id == stream

abbrev pub captured_events : String → String → LedgerData → List Event
captured_events tenant stream data_ = filter (is_of tenant stream) (hot_events data_.events)

unfoldable pub captured_segments : String → String → LedgerData → List Segment
unfolding framed_key
captured_segments tenant stream data_ = get_or (framed_key tenant stream) [] data_.segments
