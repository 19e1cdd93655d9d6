-- ===== src/Store/TenantLedger/Finds.antt =====
-- What finds a committed record: hints, scans, and records appended behind it (ledger.go).
use snaplink_audit_governanc.Prelude.{
  ℕ, zero, suc, ◌≡◌, inl, inr, refl, ap, sym, ◌∙◌, String, true, false, ◌&&◌, Option, none, some,
  List, [], ◌∷◌, ◌++◌, Table, lookup, lookup-insert, has, length, ◌==◌, eq_iff, if◌then◌else◌,
  Bool-cases, arith, All,
}
use snaplink_audit_governanc.Store.TenantLedger.{
  RecordType, type_text, LedgerRecord, Equality, TenantLedger, identity_text,
  ledger_record_identity, matches, nth, first_match, checked_hint, hinted, or_scan,
  find_committed_record, store_record,
}

-- Every committed record stands in the set of identities.
abbrev pub IsKeyed : Equality → TenantLedger → Type 0
IsKeyed e l = All (λ r. has (ledger_record_identity e r) l.committed_record_key ≡ true) l.records

-- Two records that match one request have one identity.
matches-identity :
    (e : Equality) (type_ : RecordType) (key : String) (version : ℕ) (r : LedgerRecord)
    → matches type_ key version r ≡ true
    → ledger_record_identity e r ≡ identity_text e type_ key version
unfolding ledger_record_identity
matches-identity e type_ key version r h =
    let types : type_text r.record_type ≡ type_text type_ =
      ground (arith, h, eq_iff (type_text r.record_type) (type_text type_)) in
    let keys : r.key ≡ key = ground (arith, h, eq_iff r.key key) in
    let versions : r.version ≡ version = ground (arith, h) in cc

first_match-keyed :
    (e : Equality) (keys : Table (Unit {0})) (type_ : RecordType) (key : String) (version : ℕ)
    (records : List LedgerRecord) (r : LedgerRecord)
    → All (λ r. has (ledger_record_identity e r) keys ≡ true) records
    → first_match type_ key version records ≡ some r
    → has (identity_text e type_ key version) keys ≡ true
first_match-keyed e keys type_ key version [] r h found = absurd cc
first_match-keyed e keys type_ key version (first ∷ rest) r (k, h) found =
    elim (Bool-cases (matches type_ key version first)) [
      | inl hit ↦ ap (λ id. has id keys) (sym (matches-identity e type_ key version first hit)) ∙ k
      | inr miss ↦ first_match-keyed e keys type_ key version rest r h (
          ap (λ b. if b then some first else first_match type_ key version rest) (sym miss) ∙ found)
    ]

checked_hint-keyed :
    (e : Equality) (keys : Table (Unit {0})) (tenant : String) (type_ : RecordType) (key : String)
    (version : ℕ) (i : ℕ) (records : List LedgerRecord) (r : LedgerRecord)
    → All (λ r. has (ledger_record_identity e r) keys ≡ true) records
    → checked_hint tenant type_ key version (nth i records) ≡ some r
    → has (identity_text e type_ key version) keys ≡ true
checked_hint-keyed e keys tenant type_ key version i [] r h found = absurd cc
checked_hint-keyed e keys tenant type_ key version (suc i) (first ∷ rest) r (k, h) found =
    checked_hint-keyed e keys tenant type_ key version i rest r h found
checked_hint-keyed e keys tenant type_ key version zero (first ∷ rest) r (k, h) found =
    elim (Bool-cases (first.tenant_id == tenant && matches type_ key version first)) [
      | inl hit ↦
          ap (λ id. has id keys)
            (sym (matches-identity e type_ key version first (ground (arith, hit))))
          ∙ k
      | inr miss ↦
          let missed : ◌≡◌ {A = Option LedgerRecord} none (some r) =
            ap (λ b. if b then some first else none) (sym miss) ∙ found in
          absurd cc
    ]

-- A record of another identity changes no search.
first_match-append :
    (type_ : RecordType) (key : String) (version : ℕ) (records : List LedgerRecord)
    (x : LedgerRecord)
    → matches type_ key version x ≡ false
    → first_match type_ key version (records ++ x ∷ []) ≡ first_match type_ key version records
first_match-append type_ key version [] x other = rw other refl
first_match-append type_ key version (first ∷ rest) x other =
    ap (λ later. if matches type_ key version first then some first else later)
      (first_match-append type_ key version rest x other)

checked_hint-append :
    (tenant : String) (type_ : RecordType) (key : String) (version i : ℕ)
    (records : List LedgerRecord) (x : LedgerRecord)
    → matches type_ key version x ≡ false
    → checked_hint tenant type_ key version (nth i (records ++ x ∷ []))
      ≡ checked_hint tenant type_ key version (nth i records)
checked_hint-append tenant type_ key version zero [] x other = unmatched
  where
    unmatched :
        (if x.tenant_id == tenant && matches type_ key version x then some x else none) ≡ none
    unmatched =
        let both : (x.tenant_id == tenant && matches type_ key version x) ≡ false =
          ground (arith, other) in
        ap (λ b. if b then some x else none) both
checked_hint-append tenant type_ key version (suc i) [] x other = refl
checked_hint-append tenant type_ key version zero (first ∷ rest) x other = refl
checked_hint-append tenant type_ key version (suc i) (first ∷ rest) x other =
    checked_hint-append tenant type_ key version i rest x other

module _ (e : Equality) (type_ : RecordType) (key : String) (version : ℕ) where
  -- What is found has its identity in the set.
  pub found-keyed :
      (l : TenantLedger) (r : LedgerRecord)
      → IsKeyed e l
      → find_committed_record e l type_ key version ≡ some r
      → has (identity_text e type_ key version) l.committed_record_key ≡ true
  unfolding find_committed_record
  found-keyed l r keyed found =
      by_hint (lookup (identity_text e type_ key version) l.record_positions) found
    where
      by_scan :
          (hint : Option LedgerRecord)
          → (hint ≡ some r → has (identity_text e type_ key version) l.committed_record_key ≡ true)
          → or_scan hint (first_match type_ key version l.records) ≡ some r
          → has (identity_text e type_ key version) l.committed_record_key ≡ true
      by_scan none from_hint h =
          first_match-keyed e l.committed_record_key type_ key version l.records r keyed h
      by_scan (some hit) from_hint h = from_hint h

      by_hint :
          (position : Option ℕ)
          → or_scan (hinted l type_ key version position) (first_match type_ key version l.records)
            ≡ some r
          → has (identity_text e type_ key version) l.committed_record_key ≡ true
      by_hint none h =
          first_match-keyed e l.committed_record_key type_ key version l.records r keyed h
      by_hint (some i) h =
          by_scan (checked_hint l.tenant_id type_ key version (nth i l.records))
            (checked_hint-keyed e l.committed_record_key l.tenant_id type_ key version i l.records r
              keyed)
            h

  -- Storing a record of another identity.
  pub find_committed_record-stored :
      (l : TenantLedger) (x : LedgerRecord)
      → (ledger_record_identity e x == identity_text e type_ key version) ≡ false
      → find_committed_record e (store_record e x l) type_ key version
        ≡ find_committed_record e l type_ key version
  unfolding find_committed_record
  find_committed_record-stored l x other =
      rw
        (
          lookup-insert (ledger_record_identity e x) (identity_text e type_ key version)
              (length l.records) l.record_positions,
          other,
          first_match-append type_ key version l.records x unmatched,
        )
        (positioned (lookup (identity_text e type_ key version) l.record_positions))
    where
      unmatched : matches type_ key version x ≡ false
      unmatched = elim (Bool-cases (matches type_ key version x)) [
        | inr miss ↦ miss
        | inl hit ↦ absurd (
            ground (
              arith,
              other,
              eq_iff (ledger_record_identity e x) (identity_text e type_ key version),
              matches-identity e type_ key version x hit,
            ))
      ]

      positioned :
          (position : Option ℕ)
          → or_scan
              (hinted (store_record e x l) type_ key version position)
              (first_match type_ key version l.records)
            ≡ or_scan
                (hinted l type_ key version position)
                (first_match type_ key version l.records)
      positioned none = refl
      positioned (some i) =
          ap (λ hint. or_scan hint (first_match type_ key version l.records))
            (checked_hint-append l.tenant_id type_ key version i l.records x unmatched)
