-- ===== src/Store/TenantLedger/Appends.antt =====
-- What recordsToAppend makes of the records that it is given.
use snaplink_audit_governanc.Prelude.{
  ◌≡◌, ◌⊎◌, String, true, none, some, List, [], ◌∷◌, Table, lookup, All,
}
use snaplink_audit_governanc.Domain.Errors.{ok}
use snaplink_audit_governanc.Domain.Errors.Yields.{Yields}
use snaplink_audit_governanc.Store.TenantLedger.{
  LedgerRecord, Equality, TenantLedger, ledger_record_identity, find_committed_record,
  validate_ledger_record, immutable_ledger_record_equal,
}

-- A valid record whose identity is not committed.
pub record IsNew (e : Equality) (l : TenantLedger) (r : LedgerRecord) : Type 0 where
  pub valid : validate_ledger_record e r ≡ ok tt
  pub uncommitted : find_committed_record e l r.record_type r.key r.version ≡ none

abbrev pub Occurs : LedgerRecord → List LedgerRecord → Type 0
Occurs r [] = ⊥
Occurs r (other ∷ others) = (r ≡ other) ⊎ Occurs r others

-- The record is appended, or it is the same as the committed record of its identity.
pub data IsSettled (e : Equality) (l : TenantLedger) (new : List LedgerRecord) (r : LedgerRecord)
    : Type 0 where
  appended : Occurs r new → IsSettled e l new r
  committed_same :
      (existing : LedgerRecord)
      → find_committed_record e l r.record_type r.key r.version ≡ some existing
      → immutable_ledger_record_equal e existing r ≡ true
      → IsSettled e l new r

-- The record is settled, or it is the same as a record that `Known` has for its identity.
pub data IsAccounted (e : Equality) (l : TenantLedger) (Known : String → LedgerRecord → Type 0)
    (new : List LedgerRecord) (r : LedgerRecord) : Type 0 where
  settled : IsSettled e l new r → IsAccounted e l Known new r
  repeated_same :
      (previous : LedgerRecord)
      → Known (ledger_record_identity e r) previous
      → immutable_ledger_record_equal e previous r ≡ true
      → IsAccounted e l Known new r

-- A settled record that has the identity.
abbrev pub HasSettled : Equality → TenantLedger → List LedgerRecord → String → LedgerRecord → Type 0
HasSettled e l new identity previous =
    IsSettled e l new previous × (ledger_record_identity e previous ≡ identity)

-- What a commit of the records appends: new records only, and every record is accounted for.
pub record IsAppend (e : Equality) (l : TenantLedger) (records new : List LedgerRecord)
    : Type 0 where
  pub fresh : All (IsNew e l) new
  pub accounted : All (IsAccounted e l (HasSettled e l new) new) records

module _ (e : Equality) (l : TenantLedger) where
  abbrev IsSeen : Table LedgerRecord → List LedgerRecord → String → LedgerRecord → Type 0
  IsSeen seen new identity previous =
      (lookup identity seen ≡ some previous) ⊎ HasSettled e l new identity previous

  -- The loop, with the records that it has seen before.
  record IsLoop (seen : Table LedgerRecord) (records new : List LedgerRecord) : Type 0 where
    loop_fresh : All (IsNew e l) new
    loop_accounted : All (IsAccounted e l (IsSeen seen new) new) records
