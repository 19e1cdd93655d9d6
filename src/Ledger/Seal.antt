-- ===== src/Ledger/Seal.antt =====
-- internal/service/sealing.go: SealPendingSegments seals the streams of a tenant that have pending
-- hashes, in the order in which the table lists them.
use snaplink_audit_governanc.Prelude.{
  String, ℕ, List, [], ◌∷◌, not, ◌||◌, none, some, Table, lookup, length, eqb, ◌==◌, if◌then◌else◌,
}
use snaplink_audit_governanc.Prelude.Texts.{codes}
use snaplink_audit_governanc.Domain.Errors.{Result, ok, err, ◌>>=◌, ◌>>◌}
use snaplink_audit_governanc.Domain.Identifiers.{require_tenant_scope}
use snaplink_audit_governanc.Ledger.Models.{StreamState, LedgerData, Evidence}
use snaplink_audit_governanc.Ledger.Chain.{seal_segment}
use snaplink_audit_governanc.Ledger.Ingest.{store_seal}

-- One round of the loop, on the value that the map holds when the round comes; `fresh` draws the
-- checkpoint's identifier.
unfoldable pub seal_entry :
    Evidence
    → (String → String)
    → ℕ
    → String
    → String
    → StreamState
    → LedgerData
    → Result LedgerData
seal_entry v fresh now tenant key stream data_ =
    if not (stream.tenant_id == tenant) || eqb (length stream.pending_hashes) 0
    then ok data_
    else do
      (segment, checkpoint) ← seal_segment v (fresh key) stream now
      ok (store_seal key stream segment checkpoint data_)

unfoldable pub seal_round :
    Evidence → (String → String) → ℕ → String → String → LedgerData → Result LedgerData
seal_round v fresh now tenant key data_ = elim (lookup key data_.streams) [
  | none ↦ ok data_
  | some stream ↦ seal_entry v fresh now tenant key stream data_
]

unfoldable pub seal_loop :
    Evidence → (String → String) → ℕ → String → List String → LedgerData → Result LedgerData
seal_loop v fresh now tenant [] data_ = ok data_
seal_loop v fresh now tenant (key ∷ keys) data_ = do
  after ← seal_round v fresh now tenant key data_
  seal_loop v fresh now tenant keys after

abbrev pub stream_keys : Table StreamState → List String
stream_keys [] = []
stream_keys ((key, stream) ∷ rest) = key ∷ stream_keys rest

unfoldable pub seal_pending_segments :
    Evidence → (String → String) → ℕ → String → LedgerData → Result LedgerData
seal_pending_segments v fresh now tenant data_ = do
  require_tenant_scope (codes tenant)
  seal_loop v fresh now tenant (stream_keys data_.streams) data_

-- The data after the update, which a failed pass leaves as it was.
abbrev pub sealed_after : LedgerData → Result LedgerData → LedgerData
sealed_after data_ (err e) = data_
sealed_after data_ (ok after) = after
