-- ===== src/Store/TenantLedger/Immutable.antt =====
-- A record that is committed is found at its identity for ever.
use snaplink_audit_governanc.Prelude.{
  ℕ, ◌≡◌, inl, inr, refl, ap, ◌∙◌, String, true, false, not, ◌||◌, Option, none, some, List, [],
  ◌∷◌, ◌++◌, Table, lookup, insert, lookup-insert, has, eqb, is_some, ◌==◌, eq_iff, eq_refl,
  if◌then◌else◌, Bool-cases, arith, All,
}
use snaplink_audit_governanc.Ledger.Models.{EventReceipt, Segment, Checkpoint}
use snaplink_audit_governanc.Store.TenantLedger.{
  RecordType, LedgerRecord, Equality, TenantLedger, identity_text, ledger_record_identity,
  find_committed_record, index_record, index_receipt, index_segment, index_checkpoint, store_record,
  has_committed_record, stored_index, owned, apply_record, commit_loop, commit_pending, is_newer,
  receipt_record, segment_record, checkpoint_record, other_record,
}
use snaplink_audit_governanc.Store.TenantLedger.Finds.{
  IsKeyed, found-keyed, find_committed_record-stored,
}

-- The index of a payload leaves the records and their hints alone.
abbrev KeepsRecords : TenantLedger → Option TenantLedger → Type 0
KeepsRecords l none = Unit
KeepsRecords l (some indexed) =
    (indexed.tenant_id ≡ l.tenant_id)
    × (indexed.records ≡ l.records)
    × (indexed.committed_record_key ≡ l.committed_record_key)
    × (indexed.record_positions ≡ l.record_positions)

index_receipt-KeepsRecords :
    (r : LedgerRecord) (receipt : Option EventReceipt) (l : TenantLedger)
    → KeepsRecords l (index_receipt r receipt l)
index_receipt-KeepsRecords r none l = tt
index_receipt-KeepsRecords r (some receipt) l =
    elim (Bool-cases (is_newer (lookup r.key l.receipt_versions) r.version)) [
      | inl newer ↦ rw newer (refl, refl, refl, refl)
      | inr older ↦ rw older tt
    ]

index_segment-KeepsRecords :
    (s : Option Segment) (l : TenantLedger) → KeepsRecords l (index_segment s l)
index_segment-KeepsRecords none l = tt
index_segment-KeepsRecords (some s) l = (refl, refl, refl, refl)

index_checkpoint-KeepsRecords :
    (c : Option Checkpoint) (l : TenantLedger) → KeepsRecords l (index_checkpoint c l)
index_checkpoint-KeepsRecords none l = tt
index_checkpoint-KeepsRecords (some c) l = (refl, refl, refl, refl)

index_record-KeepsRecords :
    (r : LedgerRecord) (l : TenantLedger) → KeepsRecords l (index_record r l)
unfolding index_record
index_record-KeepsRecords r l = by_type r.record_type
  where
    by_type :
        (t : RecordType)
        → KeepsRecords l (elim t [
          | receipt_record ↦ index_receipt r r.receipt l
          | segment_record ↦ index_segment r.segment l
          | checkpoint_record ↦ index_checkpoint r.checkpoint l
          | other_record text ↦ some l
        ])
    by_type receipt_record = index_receipt-KeepsRecords r r.receipt l
    by_type segment_record = index_segment-KeepsRecords r.segment l
    by_type checkpoint_record = index_checkpoint-KeepsRecords r.checkpoint l
    by_type (other_record text) = (refl, refl, refl, refl)

has-insert :
    (a b : String) (keys : Table (Unit {0})) → has b keys ≡ true → has b (insert a tt keys) ≡ true
has-insert a b keys h = elim (Bool-cases (a == b)) [
  | inl same ↦
      ap is_some (lookup-insert a b tt keys ∙ ap (λ c. if c then some tt else lookup b keys) same)
  | inr other ↦
      ap is_some (lookup-insert a b tt keys ∙ ap (λ c. if c then some tt else lookup b keys) other)
      ∙ h
]

has-inserted : (a : String) (keys : Table (Unit {0})) → has a (insert a tt keys) ≡ true
has-inserted a keys =
    ap is_some
      (lookup-insert a a tt keys ∙ ap (λ c. if c then some tt else lookup a keys) (eq_refl a))

keyed-snoc :
    (e : Equality) (id : String) (keys : Table (Unit {0})) (records : List LedgerRecord)
    (x : LedgerRecord)
    → ledger_record_identity e x ≡ id
    → All (λ r. has (ledger_record_identity e r) keys ≡ true) records
    → All (λ r. has (ledger_record_identity e r) (insert id tt keys) ≡ true) (records ++ x ∷ [])
keyed-snoc e id keys [] x own h =
    (ap (λ i. has i (insert id tt keys)) own ∙ has-inserted id keys, tt)
keyed-snoc e id keys (first ∷ rest) x own (k, h) =
    (has-insert id (ledger_record_identity e first) keys k, keyed-snoc e id keys rest x own h)

find_committed_record-moved :
    (e : Equality) (type_ : RecordType) (key : String) (version : ℕ) (l indexed : TenantLedger)
    → indexed.tenant_id ≡ l.tenant_id
    → indexed.records ≡ l.records
    → indexed.record_positions ≡ l.record_positions
    → find_committed_record e indexed type_ key version
      ≡ find_committed_record e l type_ key version
unfolding find_committed_record
find_committed_record-moved e type_ key version l indexed t rs ps = rw (t, rs, ps) refl

module _ (e : Equality) (type_ : RecordType) (key : String) (version : ℕ)
    (found : LedgerRecord) where
  -- The record is found, and the set of identities is complete.
  Holds : TenantLedger → Type 0
  Holds l = IsKeyed e l × (find_committed_record e l type_ key version ≡ some found)

  stored_index-Holds :
      (x : LedgerRecord) (l : TenantLedger) (indexed : Option TenantLedger)
      → KeepsRecords l indexed
      → has (ledger_record_identity e x) l.committed_record_key ≡ false
      → Holds l
      → Holds (stored_index e x l indexed)
  unfolding Holds
  stored_index-Holds x l none keeps fresh h = h
  stored_index-Holds x l (some indexed) (t, rs, ks, ps) fresh (keyed, h) = (kept, same)
    where
      kept : IsKeyed e (store_record e x indexed)
      kept =
          rw (rs, ks)
            (keyed-snoc e (ledger_record_identity e x) l.committed_record_key l.records x refl
              keyed)

      other : (ledger_record_identity e x == identity_text e type_ key version) ≡ false
      other = elim (Bool-cases (ledger_record_identity e x == identity_text e type_ key version)) [
        | inr differs ↦ differs
        | inl clash ↦ absurd (
            ground (
              arith,
              fresh,
              found-keyed e type_ key version l found keyed h,
              ap (λ id. has id l.committed_record_key)
                  ((eq_iff (ledger_record_identity e x) (identity_text e type_ key version)).0
                    clash),
            ))
      ]

      moved :
          find_committed_record e indexed type_ key version
          ≡ find_committed_record e l type_ key version
      moved = find_committed_record-moved e type_ key version l indexed t rs ps

      same : find_committed_record e (store_record e x indexed) type_ key version ≡ some found
      same = find_committed_record-stored e type_ key version indexed x other ∙ moved ∙ h

  apply_record-Holds :
      (given : LedgerRecord) (l : TenantLedger) → Holds l → Holds (apply_record e given l)
  unfolding apply_record has_committed_record
  apply_record-Holds given l h =
      elim (Bool-cases (
        not ((owned l given).tenant_id == l.tenant_id)
        || eqb (owned l given).version 0
        || has_committed_record e l (owned l given))) [
          | inl skipped ↦ rw skipped h
          | inr fresh ↦ rw fresh (
              stored_index-Holds (owned l given) l (index_record (owned l given) l)
                (index_record-KeepsRecords (owned l given) l) (ground (arith, fresh)) h)
        ]

  commit_loop-Holds :
      (records : List LedgerRecord) (l : TenantLedger) → Holds l → Holds (commit_loop e records l)
  unfolding commit_loop
  commit_loop-Holds [] l h = h
  commit_loop-Holds (r ∷ rest) l h = elim (Bool-cases (has_committed_record e l r)) [
    | inl committed ↦ rw committed (commit_loop-Holds rest l h)
    | inr fresh ↦ rw fresh (commit_loop-Holds rest (apply_record e r l) (apply_record-Holds r l h))
  ]

  -- What is committed under a type, a key and a version is found there unchanged after any commit, of
  -- whatever records: the answer for an identity never changes again. The set of identities stays
  -- complete, so that this holds for every later commit.
  pub commit_pending-immutable :
      (records : List LedgerRecord) (l : TenantLedger)
      → IsKeyed e l
      → find_committed_record e l type_ key version ≡ some found
      → IsKeyed e (commit_pending e records l)
        × (find_committed_record e (commit_pending e records l) type_ key version ≡ some found)
  unfolding commit_pending Holds
  commit_pending-immutable records l keyed h =
      let (still, same) = commit_loop-Holds records l (keyed, h) in
      (
        still,
        find_committed_record-moved e type_ key version (commit_loop e records l)
              (commit_pending e records l) refl refl refl
            ∙ same,
      )
