-- ===== src/Store/TenantLedger.antt =====
-- internal/store/ledger.go: the cold ledger of one tenant, held in memory: neither a lazy reader nor a
-- parent view stands behind it. `reflect.DeepEqual` on the payloads is an argument, and so is `Itoa`.
-- The error `conflict` is ErrLedgerRecordConflict, and `failure` a refused record.
pub mod Finds
pub mod Immutable
pub mod Appends
use snaplink_audit_governanc.Prelude.{
  ℕ, zero, suc, ◌+◌, ◌-◌, String, Bool, true, false, not, ◌&&◌, ◌||◌, Option, none, some, List, [],
  ◌∷◌, ◌++◌, ◌+++◌, Table, lookup, insert, has, get_or, length, eqb, ltb, bit, is_some, ◌==◌,
  if◌then◌else◌,
}
use snaplink_audit_governanc.Domain.Errors.{Err, Result, ok, err, conflict, failure, ◌>>=◌, ◌>>◌}
use snaplink_audit_governanc.Ledger.Models.{
  EventReceipt, Segment, Checkpoint, framed_key, separator,
}

-- LedgerRecordType, with any other persisted text.
pub data RecordType : Type 0 where
  receipt_record segment_record checkpoint_record : RecordType
  other_record : String → RecordType

abbrev pub type_text : RecordType → String
type_text receipt_record = "receipt"
type_text segment_record = "segment"
type_text checkpoint_record = "checkpoint"
type_text (other_record text) = text

pub record LedgerRecord : Type 0 where
  pub tenant_id : String
  pub record_type : RecordType
  pub key : String
  pub version : ℕ
  pub receipt : Option EventReceipt
  pub segment : Option Segment
  pub checkpoint : Option Checkpoint
  pub written_at : ℕ

-- `format_int` is strconv.Itoa; the others are reflect.DeepEqual on the pointers of a record.
pub record Equality : Type 0 where
  pub format_int : ℕ → String
  pub same_receipt : Option EventReceipt → Option EventReceipt → Bool
  pub same_segment : Option Segment → Option Segment → Bool
  pub same_checkpoint : Option Checkpoint → Option Checkpoint → Bool

pub record TenantLedger : Type 0 where
  pub tenant_id : String
  pub records : List LedgerRecord
  pub receipts : Table EventReceipt
  pub receipt_versions : Table ℕ
  pub idempotency : Table String
  pub segments : Table (List Segment)
  pub checkpoints : Table (List Checkpoint)
  -- map[string]struct{}
  pub committed_record_key : Table (Unit {0})
  pub record_positions : Table ℕ
  pub pending : List LedgerRecord
  pub pending_receipts : Table EventReceipt

abbrev pub identity_text : Equality → RecordType → String → ℕ → String
identity_text e type_ key version =
    type_text type_ +++ separator +++ key +++ separator +++ e.format_int version

-- ledgerRecordIdentity
unfoldable pub ledger_record_identity : Equality → LedgerRecord → String
ledger_record_identity e r = identity_text e r.record_type r.key r.version

abbrev pub same_type : RecordType → RecordType → Bool
same_type a b = type_text a == type_text b

-- `record.RecordType == recordType && record.Key == key && record.Version == version`
abbrev pub matches : RecordType → String → ℕ → LedgerRecord → Bool
matches type_ key version r = same_type r.record_type type_ && r.key == key && eqb r.version version

abbrev pub nth : ℕ → List LedgerRecord → Option LedgerRecord
nth i [] = none
nth zero (r ∷ rest) = some r
nth (suc i) (r ∷ rest) = nth i rest

abbrev pub first_match : RecordType → String → ℕ → List LedgerRecord → Option LedgerRecord
first_match type_ key version [] = none
first_match type_ key version (r ∷ rest) =
    if matches type_ key version r then some r else first_match type_ key version rest

-- A hint counts only if the record at its place is the one that is asked for.
abbrev pub checked_hint :
    String → RecordType → String → ℕ → Option LedgerRecord → Option LedgerRecord
checked_hint tenant type_ key version none = none
checked_hint tenant type_ key version (some r) =
    if r.tenant_id == tenant && matches type_ key version r then some r else none

abbrev pub hinted : TenantLedger → RecordType → String → ℕ → Option ℕ → Option LedgerRecord
hinted l type_ key version none = none
hinted l type_ key version (some i) = checked_hint l.tenant_id type_ key version (nth i l.records)

abbrev pub or_scan : Option LedgerRecord → Option LedgerRecord → Option LedgerRecord
or_scan none scan = scan
or_scan (some r) scan = some r

-- localCommittedRecord, and with it findCommittedRecord
unfoldable pub find_committed_record :
    Equality → TenantLedger → RecordType → String → ℕ → Option LedgerRecord
find_committed_record e l type_ key version =
    or_scan
      (hinted l type_ key version (lookup (identity_text e type_ key version) l.record_positions))
      (first_match type_ key version l.records)

-- findRecord looks at the pending records first.
unfoldable pub find_record : Equality → TenantLedger → RecordType → String → ℕ → Option LedgerRecord
find_record e l type_ key version =
    or_scan (first_match type_ key version l.pending) (find_committed_record e l type_ key version)

unfoldable pub immutable_ledger_record_equal : Equality → LedgerRecord → LedgerRecord → Bool
immutable_ledger_record_equal e a b =
    a.tenant_id == b.tenant_id
    && same_type a.record_type b.record_type
    && a.key == b.key
    && eqb a.version b.version
    && elim a.record_type [
      | receipt_record ↦ e.same_receipt a.receipt b.receipt
      | segment_record ↦ e.same_segment a.segment b.segment
      | checkpoint_record ↦ e.same_checkpoint a.checkpoint b.checkpoint
      | other_record text ↦ false
    ]

unfoldable pub segment_ledger_key : Equality → Segment → String
segment_ledger_key e s =
    framed_key s.tenant_id s.stream_id +++ separator +++ e.format_int s.first_sequence

unfoldable pub checkpoint_ledger_key : Equality → Checkpoint → String
checkpoint_ledger_key e c =
    framed_key c.tenant_id c.stream_id +++ separator +++ e.format_int c.sequence

abbrev pub payloads : LedgerRecord → ℕ
payloads r = bit (is_some r.receipt) + bit (is_some r.segment) + bit (is_some r.checkpoint)

abbrev pub valid_receipt : LedgerRecord → Option EventReceipt → Bool
valid_receipt r none = false
valid_receipt r (some receipt) =
    receipt.tenant_id == r.tenant_id
    && not (receipt.event_id == "")
    && r.key == framed_key r.tenant_id receipt.event_id

abbrev pub valid_segment : Equality → LedgerRecord → Option Segment → Bool
valid_segment e r none = false
valid_segment e r (some s) =
    s.tenant_id == r.tenant_id
    && not (s.stream_id == "")
    && ltb 0 s.first_sequence
    && r.key == segment_ledger_key e s

abbrev pub valid_checkpoint : Equality → LedgerRecord → Option Checkpoint → Bool
valid_checkpoint e r none = false
valid_checkpoint e r (some c) =
    c.tenant_id == r.tenant_id
    && (if c.id == ""
        then not (c.stream_id == "") && ltb 0 c.sequence && r.key == checkpoint_ledger_key e c
        else r.key == c.id)

unfoldable pub validate_ledger_record : Equality → LedgerRecord → Result (Unit {0})
validate_ledger_record e r =
    if r.tenant_id == ""
      || type_text r.record_type == ""
      || r.key == ""
      || eqb r.version 0
      || not (eqb (payloads r) 1)
    then err failure
    else if elim r.record_type [
      | receipt_record ↦ valid_receipt r r.receipt
      | segment_record ↦ valid_segment e r r.segment
      | checkpoint_record ↦ valid_checkpoint e r r.checkpoint
      | other_record text ↦ false
    ]
    then ok tt
    else err failure

-- recordsToAppend, with the records that it has seen by identity.
abbrev pub against : Equality → LedgerRecord → LedgerRecord → Result (Unit {0})
against e previous r = if immutable_ledger_record_equal e previous r then ok tt else err conflict

abbrev pub unless_committed :
    Equality
    → LedgerRecord
    → Option LedgerRecord
    → Result (List LedgerRecord)
    → Result (List LedgerRecord)
unless_committed e r none later = later >>= λ new. ok (r ∷ new)
unless_committed e r (some existing) later = against e existing r >> later

abbrev pub unless_seen :
    Equality
    → LedgerRecord
    → Option LedgerRecord
    → Result (List LedgerRecord)
    → Result (List LedgerRecord)
    → Result (List LedgerRecord)
unless_seen e r none repeated unseen = unseen
unless_seen e r (some previous) repeated unseen = against e previous r >> repeated

unfoldable pub append_loop :
    Equality → TenantLedger → Table LedgerRecord → List LedgerRecord → Result (List LedgerRecord)
append_loop e l seen [] = ok []
append_loop e l seen (r ∷ rest) =
    let identity = ledger_record_identity e r in
    let repeated = append_loop e l seen rest in
    let later = append_loop e l (insert identity r seen) rest in
    validate_ledger_record e r
    >> unless_seen e r (lookup identity seen) repeated
        (unless_committed e r (find_committed_record e l r.record_type r.key r.version) later)

unfoldable pub records_to_append :
    Equality → TenantLedger → List LedgerRecord → Result (List LedgerRecord)
records_to_append e l records = append_loop e l [] records

-- applyRecord: the index of the payload, and then the record itself.
abbrev pub is_newer : Option ℕ → ℕ → Bool
is_newer none version = true
is_newer (some current) version = ltb current version

abbrev pub index_receipt : LedgerRecord → Option EventReceipt → TenantLedger → Option TenantLedger
index_receipt r none l = none
index_receipt r (some receipt) l =
    if is_newer (lookup r.key l.receipt_versions) r.version
    then some (record l {
      receipts = insert r.key receipt l.receipts;
      receipt_versions = insert r.key r.version l.receipt_versions;
      idempotency =
          if receipt.idempotency_key == ""
          then l.idempotency
          else insert receipt.idempotency_key r.key l.idempotency;
    })
    else none

abbrev pub index_segment : Option Segment → TenantLedger → Option TenantLedger
index_segment none l = none
index_segment (some s) l =
    let key = framed_key s.tenant_id s.stream_id in
    some (record l { segments = insert key (get_or key [] l.segments ++ s ∷ []) l.segments })

abbrev pub index_checkpoint : Option Checkpoint → TenantLedger → Option TenantLedger
index_checkpoint none l = none
index_checkpoint (some c) l =
    let key = framed_key c.tenant_id c.stream_id in
    some
      (record l { checkpoints = insert key (get_or key [] l.checkpoints ++ c ∷ []) l.checkpoints })

unfoldable pub index_record : LedgerRecord → TenantLedger → Option TenantLedger
index_record r l = elim r.record_type [
  | receipt_record ↦ index_receipt r r.receipt l
  | segment_record ↦ index_segment r.segment l
  | checkpoint_record ↦ index_checkpoint r.checkpoint l
  | other_record text ↦ some l
]

abbrev pub store_record : Equality → LedgerRecord → TenantLedger → TenantLedger
store_record e r l = record l {
  records = l.records ++ r ∷ [];
  committed_record_key = insert (ledger_record_identity e r) tt l.committed_record_key;
  record_positions = insert (ledger_record_identity e r) (length l.records) l.record_positions;
}

unfoldable pub has_committed_record : Equality → TenantLedger → LedgerRecord → Bool
has_committed_record e l r = has (ledger_record_identity e r) l.committed_record_key

abbrev pub stored_index :
    Equality → LedgerRecord → TenantLedger → Option TenantLedger → TenantLedger
stored_index e r l none = l
stored_index e r l (some indexed) = store_record e r indexed

-- A record without a tenant belongs to the ledger's.
abbrev pub owned : TenantLedger → LedgerRecord → LedgerRecord
owned l r = if r.tenant_id == "" then record r { tenant_id = l.tenant_id } else r

unfoldable pub apply_record : Equality → LedgerRecord → TenantLedger → TenantLedger
apply_record e given l =
    let r = owned l given in
    if not (r.tenant_id == l.tenant_id) || eqb r.version 0 || has_committed_record e l r
    then l
    else stored_index e r l (index_record r l)

unfoldable pub commit_loop : Equality → List LedgerRecord → TenantLedger → TenantLedger
commit_loop e [] l = l
commit_loop e (r ∷ rest) l =
    commit_loop e rest (if has_committed_record e l r then l else apply_record e r l)

unfoldable pub commit_pending : Equality → List LedgerRecord → TenantLedger → TenantLedger
commit_pending e records l = record (commit_loop e records l) {
  pending = [];
  pending_receipts = [];
}

-- pendingReceiptRecord: the pending record of the key with the highest version.
unfoldable pub latest_pending :
    String → Option LedgerRecord → List LedgerRecord → Option LedgerRecord
latest_pending key found [] = found
latest_pending key found (r ∷ rest) =
    let taken = latest_pending key (some r) rest in
    let kept = latest_pending key found rest in
    if same_type r.record_type receipt_record
      && r.key == key
      && elim found [ none ↦ true | some latest ↦ ltb latest.version r.version ]
    then taken
    else kept

unfoldable pub next_version : TenantLedger → String → ℕ
next_version l key = elim (latest_pending key none l.pending) [
  | none ↦ suc (get_or key 0 l.receipt_versions)
  | some previous ↦ suc previous.version
]

-- Appending to the pending records, unless the identity is taken.
abbrev pub buffer_new :
    Equality → LedgerRecord → TenantLedger → Option LedgerRecord → Result TenantLedger
buffer_new e r l none = ok (record l { pending = l.pending ++ r ∷ [] })
buffer_new e r l (some existing) = against e existing r >> ok l

unfoldable pub buffer_record : Equality → LedgerRecord → TenantLedger → Result TenantLedger
buffer_record e r l =
    validate_ledger_record e r >> buffer_new e r l (find_record e l r.record_type r.key r.version)

abbrev pub segment_entry : Equality → TenantLedger → ℕ → Segment → LedgerRecord
segment_entry e l now s = record {
  tenant_id = l.tenant_id;
  record_type = segment_record;
  key = segment_ledger_key e s;
  version = 1;
  receipt = none;
  segment = some s;
  checkpoint = none;
  written_at = now;
}

unfoldable pub append_segment : Equality → ℕ → Segment → TenantLedger → Result TenantLedger
append_segment e now s l =
    if not (s.tenant_id == l.tenant_id)
    then err failure
    else buffer_record e (segment_entry e l now s) l

abbrev pub checkpoint_entry : Equality → TenantLedger → ℕ → Checkpoint → LedgerRecord
checkpoint_entry e l now c = record {
  tenant_id = l.tenant_id;
  record_type = checkpoint_record;
  key = if c.id == "" then checkpoint_ledger_key e c else c.id;
  version = 1;
  receipt = none;
  segment = none;
  checkpoint = some c;
  written_at = now;
}

unfoldable pub append_checkpoint : Equality → ℕ → Checkpoint → TenantLedger → Result TenantLedger
append_checkpoint e now c l =
    if not (c.tenant_id == l.tenant_id)
    then err failure
    else buffer_record e (checkpoint_entry e l now c) l
