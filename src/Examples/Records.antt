-- ===== src/Examples/Records.antt =====
-- The ledger of one tenant at concrete inputs.
use snaplink_audit_governanc.Prelude.{◌≡◌, refl, true, [], ◌∷◌, none, some, lookup}
use snaplink_audit_governanc.Domain.Errors.Yields.{Yields}
use snaplink_audit_governanc.Store.TenantLedger.{
  LedgerRecord, receipt_record, Equality, TenantLedger, find_committed_record, commit_pending,
  ledger_record_identity,
}
use snaplink_audit_governanc.Store.TenantLedger.Finds.{IsKeyed}
use snaplink_audit_governanc.Store.TenantLedger.Immutable.{commit_pending-immutable}
use snaplink_audit_governanc.Examples.Ledgers.{pack_number}
use snaplink_audit_governanc.Examples.Archives.{demo_receipt}

abbrev demo_equality : Equality
demo_equality = record {
  format_int = λ n. pack_number n "";
  same_receipt = λ a b. true;
  same_segment = λ a b. true;
  same_checkpoint = λ a b. true;
}

abbrev first_record : LedgerRecord
first_record = record {
  tenant_id = "acme";
  record_type = receipt_record;
  key = "e1";
  version = 1;
  receipt = some demo_receipt;
  segment = none;
  checkpoint = none;
  written_at = 1;
}

abbrev second_record : LedgerRecord
second_record = record first_record { version = 2 }

abbrev demo_ledger : TenantLedger
demo_ledger = record {
  tenant_id = "acme";
  records = first_record ∷ [];
  receipts = ("e1", demo_receipt) ∷ [];
  receipt_versions = ("e1", 1) ∷ [];
  idempotency = [];
  segments = [];
  checkpoints = [];
  committed_record_key = ("receipt\u{1f}e1\u{1f}x.", tt) ∷ [];
  record_positions = ("receipt\u{1f}e1\u{1f}x.", 0) ∷ [];
  pending = second_record ∷ [];
  pending_receipts = [];
}

demo_ledger-IsKeyed : IsKeyed demo_equality demo_ledger
unfolding ledger_record_identity lookup
demo_ledger-IsKeyed = (refl, tt)

first_found :
    find_committed_record demo_equality demo_ledger receipt_record "e1" 1 ≡ some first_record
unfolding find_committed_record lookup
first_found = refl

commit_pending-immutable_example :
    IsKeyed demo_equality
      (commit_pending demo_equality (second_record ∷ first_record ∷ []) demo_ledger)
    × (find_committed_record demo_equality
          (commit_pending demo_equality (second_record ∷ first_record ∷ []) demo_ledger)
          receipt_record
          "e1"
          1
        ≡ some first_record)
commit_pending-immutable_example =
    commit_pending-immutable demo_equality receipt_record "e1" 1 first_record
      (second_record ∷ first_record ∷ []) demo_ledger demo_ledger-IsKeyed first_found
