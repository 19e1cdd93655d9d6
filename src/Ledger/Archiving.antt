-- ===== src/Ledger/Archiving.antt =====
-- internal/service/sealing.go: ArchivePending, the dead letters and the conflict counter; and
-- transitionReceipt of tenant_ingest.go on a snapshot. The archive is an argument: what a Put of an
-- object ends with.
pub mod Marks
pub mod Passes
pub mod Evictions
pub mod DeadLetters
use snaplink_audit_governanc.Prelude.{
  ℕ, suc, String, Bool, true, false, not, ◌&&◌, ◌||◌, Option, none, some, List, [], ◌∷◌, ◌++◌,
  ◌+++◌, Table, lookup, insert, delete, has, get_or, filter, length, eqb, ◌==◌, if◌then◌else◌,
}
use snaplink_audit_governanc.Prelude.Texts.{codes, bytes_eq, cut_prefix}
use snaplink_audit_governanc.Domain.Errors.{
  Err, Result, ok, err, invalid, not_found, failure, ◌>>=◌, ◌>>◌,
}
use snaplink_audit_governanc.Domain.Identifiers.{require_tenant_scope, split_tenant_key}
use snaplink_audit_governanc.Ledger.Models.{
  Event, EventReceipt, ReceiptStatus, archived, is_archived, no_receipt, Segment, DeadLetter,
  LedgerData, Evidence, framed_key, separator,
}

-- archiveEvent and archiveSegment: the object is stored, or can never be (with the error's text, cut
-- to 512 bytes by boundedErrorMessage), or the write failed for now.
pub data Put : Type 0 where
  stored : Put
  key_too_long object_conflict : String → Put
  failed_for_now : Put

pub record Archive : Type 0 where
  -- archive.Configured
  pub configured : Bool
  pub put_event : Event → Put
  pub put_segment : Segment → Put

-- archiveErrorReason
abbrev pub dead_reason : Put → String
dead_reason (key_too_long message) = "archive_key_too_long"
dead_reason (object_conflict message) = "archive_object_conflict"
dead_reason _ = "archive_permanent_failure"

abbrev pub dead_message : Put → String
dead_message (key_too_long message) = message
dead_message (object_conflict message) = message
dead_message _ = ""

-- The synthetic identifier of a segment, which no event has.
unfoldable pub segment_event_id : Evidence → Segment → String
segment_event_id v segment =
    "seg"
    +++ separator
    +++ segment.stream_id
    +++ ":"
    +++ v.format_int segment.first_sequence
    +++ "-"
    +++ v.format_int segment.last_sequence

unfoldable pub segment_dead_letter_key : Evidence → Segment → String
segment_dead_letter_key v segment = framed_key segment.tenant_id (segment_event_id v segment)

abbrev pub has_prefix : List ℕ → List ℕ → Bool
has_prefix prefix text = elim (cut_prefix prefix text) [ none ↦ false | some rest ↦ true ]

unfoldable pub is_segment_dead_letter : DeadLetter → Bool
is_segment_dead_letter dead = has_prefix (codes ("seg" +++ separator)) (codes dead.event_id)

-- What the read of a pass captures: the keys whose archived body is still hot, and the events to
-- archive.
unfoldable pub capture_events : String → LedgerData → Table Event → List String × List Event
capture_events tenant data_ [] = ([], [])
capture_events tenant data_ ((key, event) ∷ rest) =
    let others = capture_events tenant data_ rest in
    if not (event.tenant_id == tenant) || has key data_.dead_letters
    then others
    else if is_archived (get_or key no_receipt data_.receipts).status
    then (key ∷ others.0, others.1)
    else (others.0, event ∷ others.1)

-- The loops over the captured segments and events. A failure for now ends the pass.
abbrev pub segment_dead : Evidence → String → ℕ → Segment → Put → DeadLetter
segment_dead v tenant now segment put = record {
  tenant_id = tenant;
  event_id = segment_event_id v segment;
  stream_id = segment.stream_id;
  sequence = segment.first_sequence;
  reason = dead_reason put;
  error_message = dead_message put;
  at = now;
}

abbrev pub event_dead : String → ℕ → Event → Put → DeadLetter
event_dead tenant now event put = record {
  tenant_id = tenant;
  event_id = event.event_id;
  stream_id = event.stream_id;
  sequence = event.sequence;
  reason = dead_reason put;
  error_message = dead_message put;
  at = now;
}

abbrev pub segment_result :
    Evidence → String → ℕ → Segment → Put → Table DeadLetter → Result (Table DeadLetter)
segment_result v tenant now segment stored dead = ok dead
segment_result v tenant now segment failed_for_now dead = err failure
segment_result v tenant now segment put dead =
    ok (insert (segment_dead_letter_key v segment) (segment_dead v tenant now segment put) dead)

unfoldable pub archive_segments :
    Evidence → Archive → String → ℕ → List Segment → Table DeadLetter → Result (Table DeadLetter)
archive_segments v archive tenant now [] dead = ok dead
archive_segments v archive tenant now (segment ∷ others) dead = do
  later ← segment_result v tenant now segment (archive.put_segment segment) dead
  archive_segments v archive tenant now others later

abbrev pub event_result :
    String
    → ℕ
    → Event
    → Put
    → List Event × Table DeadLetter
    → Result (List Event × Table DeadLetter)
event_result tenant now event stored (done, dead) = ok (done ++ event ∷ [], dead)
event_result tenant now event failed_for_now (done, dead) = err failure
event_result tenant now event put (done, dead) =
    ok (done, insert (framed_key tenant event.event_id) (event_dead tenant now event put) dead)

unfoldable pub archive_events :
    Archive
    → String
    → ℕ
    → List Event
    → List Event × Table DeadLetter
    → Result (List Event × Table DeadLetter)
archive_events archive tenant now [] done = ok done
archive_events archive tenant now (event ∷ others) done = do
  later ← event_result tenant now event (archive.put_event event) done
  archive_events archive tenant now others later

-- The closure that writes the outcome of a pass, in its three loops.
unfoldable pub evict_archived : List String → LedgerData → LedgerData
evict_archived [] data_ = data_
evict_archived (key ∷ keys) data_ =
    let evicted = evict_archived keys (record data_ { events = delete key data_.events }) in
    let kept = evict_archived keys data_ in
    if is_archived (get_or key no_receipt data_.receipts).status then evicted else kept

abbrev pub archived_receipt : ℕ → EventReceipt → EventReceipt
archived_receipt now receipt = record receipt {
  status = archived;
  indexed_at = now;
  archived_at = now;
}

abbrev pub mark_found : ℕ → String → LedgerData → Option EventReceipt → Result LedgerData
mark_found now key data_ none = err not_found
mark_found now key data_ (some receipt) = ok (record data_ {
  receipts = insert key (archived_receipt now receipt) data_.receipts;
  events = delete key data_.events;
})

unfoldable pub mark_archived : ℕ → String → List Event → LedgerData → Result LedgerData
mark_archived now tenant [] data_ = ok data_
mark_archived now tenant (event ∷ others) data_ = do
  let key = framed_key tenant event.event_id
  later ← mark_found now key data_ (lookup key data_.receipts)
  mark_archived now tenant others later

abbrev pub bury_found : String → DeadLetter → LedgerData → Option EventReceipt → Result LedgerData
bury_found key dead data_ none =
    if is_segment_dead_letter dead
    then ok (record data_ { dead_letters = insert key dead data_.dead_letters })
    else err not_found
bury_found key dead data_ (some receipt) = ok (record data_ {
  dead_letters = insert key dead data_.dead_letters;
  receipts =
      insert key
        (record receipt { error_code = "archive_dead_letter"; error_message = dead.error_message })
        data_.receipts;
})

unfoldable pub bury_dead_letters : Table DeadLetter → LedgerData → Result LedgerData
bury_dead_letters [] data_ = ok data_
bury_dead_letters ((key, dead) ∷ rest) data_ = do
  later ← bury_found key dead data_ (lookup key data_.receipts)
  bury_dead_letters rest later

unfoldable pub archive_closure :
    String → ℕ → List String → List Event → Table DeadLetter → LedgerData → Result LedgerData
archive_closure tenant now keys events dead data_ = do
  marked ← mark_archived now tenant events (evict_archived keys data_)
  buried ← bury_dead_letters dead marked
  ok (record buried {
    archive_conflict_failures = insert tenant 0 buried.archive_conflict_failures;
  })

-- transitionReceipt; `evict` also removes the hot body.
unfoldable pub transition_receipt :
    ℕ → String → String → ReceiptStatus → Bool → LedgerData → Result (LedgerData × EventReceipt)
transition_receipt now tenant event_id status evict data_ =
    elim (lookup (framed_key tenant event_id) data_.receipts) [
      | none ↦ err not_found
      | some receipt ↦
          let moved : EventReceipt = record receipt {
            status = status;
            indexed_at = now;
            archived_at = if evict then now else receipt.archived_at;
          } in
          ok (
            record data_ {
              receipts = insert (framed_key tenant event_id) moved data_.receipts;
              events =
                  if evict then delete (framed_key tenant event_id) data_.events else data_.events;
            },
            moved,
          )
    ]

-- ClearDeadLetter and RecordArchivePassConflict
unfoldable pub clear_dead_letter : String → String → LedgerData → Result LedgerData
clear_dead_letter tenant event_id data_ = do
  require_tenant_scope (codes tenant)
  let key = framed_key tenant event_id
  ok (elim (lookup key data_.receipts) [
    | none ↦ record data_ { dead_letters = delete key data_.dead_letters }
    | some receipt ↦ record data_ {
      dead_letters = delete key data_.dead_letters;
      receipts = insert key (record receipt { error_code = ""; error_message = "" }) data_.receipts;
    }
  ])

unfoldable pub record_archive_pass_conflict : String → LedgerData → Result LedgerData
record_archive_pass_conflict tenant data_ = do
  require_tenant_scope (codes tenant)
  ok (record data_ {
    archive_conflict_failures =
        insert tenant (suc (get_or tenant 0 data_.archive_conflict_failures))
          data_.archive_conflict_failures;
  })

-- The segments of the tenant that no dead letter holds back.
abbrev pub is_tenant_key : String → String → Bool
is_tenant_key tenant key = elim (split_tenant_key (codes key)) [
  | none ↦ false
  | some (prefix, rest) ↦ bytes_eq prefix (codes tenant)
]

unfoldable pub capture_segments :
    Evidence → String → LedgerData → Table (List Segment) → List Segment
capture_segments v tenant data_ [] = []
capture_segments v tenant data_ ((key, segments) ∷ rest) =
    let others = capture_segments v tenant data_ rest in
    if is_tenant_key tenant key
    then filter (λ segment. not (has (segment_dead_letter_key v segment) data_.dead_letters))
        segments
      ++ others
    else others

abbrev pub nothing_to_mark : List String → List Event → Table DeadLetter → Bool
nothing_to_mark [] [] [] = true
nothing_to_mark _ _ _ = false

abbrev pub write_outcome :
    String → ℕ → List String → List Event × Table DeadLetter → LedgerData → Result LedgerData
write_outcome tenant now keys (done, dead) data_ =
    if nothing_to_mark keys done dead
    then ok data_
    else archive_closure tenant now keys done dead data_

-- ArchivePending on the layout of one snapshot: the read of `seen`, the writes to the archive, and the closure on the data that the
-- update finds later. The number of archived events is left out.
unfoldable pub archive_pending :
    Evidence → Archive → String → ℕ → LedgerData → LedgerData → Result LedgerData
archive_pending v archive tenant now seen data_ = do
  require_tenant_scope (codes tenant)
  if archive.configured then ok tt else err invalid
  lost ← archive_segments v archive tenant now (capture_segments v tenant seen seen.segments) []
  outcome ← archive_events archive tenant now (capture_events tenant seen seen.events).1 ([], lost)
  write_outcome tenant now (capture_events tenant seen seen.events).0 outcome data_
