-- ===== src/Ledger/Linked/Steps.antt =====
-- SealPendingSegments keeps every stream linked.
use snaplink_audit_governanc.Prelude.{
  ℕ, ◌≡◌, ◌≢◌, refl, ap, ◌∙◌, String, false, not, ◌||◌, List, [], ◌∷◌, Option, none, some, lookup,
  length, eqb, arith, ◌==◌, eq_iff, Bool-cases, inl, inr,
}
use snaplink_audit_governanc.Prelude.Texts.{codes}
use snaplink_audit_governanc.Domain.Errors.{Result, ok, err, ◌>>=◌, ◌>>◌}
use snaplink_audit_governanc.Domain.Identifiers.{require_tenant_scope}
use snaplink_audit_governanc.Ledger.Models.{StreamState, LedgerData, Evidence}
use snaplink_audit_governanc.Ledger.Chain.{
  signed_seal, seal_segment, sealed_checkpoint, manifest_hash_of,
}
use snaplink_audit_governanc.Ledger.Ingest.{store_seal}
use snaplink_audit_governanc.Ledger.Seal.{
  seal_entry, seal_round, seal_loop, seal_pending_segments, sealed_after, stream_keys,
}
use snaplink_audit_governanc.Ledger.Linked.Keeps.{IsLedger}
use snaplink_audit_governanc.Ledger.Linked.Writes.{store_seal-IsLedger}

abbrev pub IsLedgerOf : Evidence → Result LedgerData → Type 0
IsLedgerOf v (err e) = Unit
IsLedgerOf v (ok data_) = IsLedger v data_

no_hashes : (hashes : List String) → eqb (length hashes) 0 ≡ false → hashes ≢ []
no_hashes [] h e = absurd (ground (arith, h))
no_hashes (first ∷ hashes) h e = cc

module _ (v : Evidence) (fresh : String → String) (now : ℕ) (tenant : String)
    (scope : require_tenant_scope (codes tenant) ≡ ok tt) where
  seal_entry-IsLedger :
      (key : String) (st : StreamState) (data_ : LedgerData)
      → IsLedger v data_
      → lookup key data_.streams ≡ some st
      → IsLedgerOf v (seal_entry v fresh now tenant key st data_)
  unfolding seal_entry seal_segment
  seal_entry-IsLedger key st data_ ledger found =
      elim (Bool-cases (not (st.tenant_id == tenant) || eqb (length st.pending_hashes) 0)) [
        | inl skipped ↦ rw skipped ledger
        | inr due ↦ rw due (
            sealed (ground (arith, due, eq_iff st.tenant_id tenant))
              (no_hashes st.pending_hashes (ground (arith, due))) (v.sign (manifest_hash_of v st))
              refl)
      ]
    where
      sealed :
          st.tenant_id ≡ tenant
          → st.pending_hashes ≢ []
          → (signed : Result String) → v.sign (manifest_hash_of v st) ≡ signed
          → IsLedgerOf v (
              signed_seal v (fresh key) st now signed >>= λ (segment, checkpoint).
              ok (store_seal key st segment checkpoint data_))
      sealed own some_ (err e) h = tt
      sealed own some_ (ok signature) h =
          store_seal-IsLedger v data_ ledger key st now signature
            (sealed_checkpoint v (fresh key) st now signature) found
            (ap (λ t. require_tenant_scope (codes t)) own ∙ scope) some_ h

  seal_round-IsLedger :
      (key : String) (data_ : LedgerData)
      → IsLedger v data_
      → IsLedgerOf v (seal_round v fresh now tenant key data_)
  unfolding seal_round
  seal_round-IsLedger key data_ ledger = present (lookup key data_.streams) refl
    where
      present :
          (found : Option StreamState)
          → lookup key data_.streams ≡ found
          → IsLedgerOf v (elim found [
            | none ↦ ok data_
            | some st ↦ seal_entry v fresh now tenant key st data_
          ])
      present none h = ledger
      present (some st) h = seal_entry-IsLedger key st data_ ledger h

  pub seal_loop-IsLedger :
      (keys : List String) (data_ : LedgerData)
      → IsLedger v data_
      → IsLedgerOf v (seal_loop v fresh now tenant keys data_)
  unfolding seal_loop
  seal_loop-IsLedger [] data_ ledger = ledger
  seal_loop-IsLedger (key ∷ keys) data_ ledger =
      next (seal_round v fresh now tenant key data_) (seal_round-IsLedger key data_ ledger)
        (λ after h. seal_loop-IsLedger keys after h)
    where
      next :
          (after : Result LedgerData)
          → IsLedgerOf v after
          → ((later : LedgerData)
              → IsLedger v later
              → IsLedgerOf v (seal_loop v fresh now tenant keys later))
          → IsLedgerOf v (after >>= λ later. seal_loop v fresh now tenant keys later)
      next (err e) h go_on = tt
      next (ok after) h go_on = go_on after h

module _ (v : Evidence) (fresh : String → String) (now : ℕ) (tenant : String) where
  pub seal_pending_segments-IsLedger :
      (data_ : LedgerData)
      → IsLedger v data_
      → IsLedger v (sealed_after data_ (seal_pending_segments v fresh now tenant data_))
  unfolding seal_pending_segments
  seal_pending_segments-IsLedger data_ ledger = scoped (require_tenant_scope (codes tenant)) refl
    where
      done :
          (after : Result LedgerData) → IsLedgerOf v after → IsLedger v (sealed_after data_ after)
      done (err e) h = ledger
      done (ok after) h = h

      scoped :
          (checked : Result (Unit {0}))
          → require_tenant_scope (codes tenant) ≡ checked
          → IsLedger v (
              sealed_after data_
                (checked >> seal_loop v fresh now tenant (stream_keys data_.streams) data_))
      scoped (err e) h = ledger
      scoped (ok _) h =
          done (seal_loop v fresh now tenant (stream_keys data_.streams) data_)
            (seal_loop-IsLedger v fresh now tenant h (stream_keys data_.streams) data_ ledger)
