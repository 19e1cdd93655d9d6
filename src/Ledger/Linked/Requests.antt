-- ===== src/Ledger/Linked/Requests.antt =====
-- The closure of Ingest, from its scope to its event, keeps every stream linked.
use snaplink_audit_governanc.Prelude.{
  ℕ, ◌≡◌, refl, String, true, not, ◌&&◌, none, lookup, ◌==◌, if◌then◌else◌, Bool-cases, inl, inr,
}
use snaplink_audit_governanc.Prelude.Texts.{codes}
use snaplink_audit_governanc.Domain.Errors.{Err, Result, ok, err}
use snaplink_audit_governanc.Domain.Identifiers.{require_tenant_scope}
use snaplink_audit_governanc.Ledger.Models.{Event, LedgerData, Evidence, framed_key, no_receipt}
use snaplink_audit_governanc.Ledger.Chain.{content_digest}
use snaplink_audit_governanc.Ledger.Ingest.{
  Existing, absent, repeated, refused, check_existing_ingest, idempotency_key_reused,
  unless_existing, ingest_closure, ingest_resolved, ingest, stamped_event, resolve_ingest_scope,
  resolve_ingest_tenant, data_after, rejected,
}
use snaplink_audit_governanc.Ledger.Linked.Keeps.{IsLedger}
use snaplink_audit_governanc.Ledger.Linked.Ingests.{append_event-IsLedger}
use snaplink_audit_governanc.Ledger.Linked.Scopes.{
  derived_stream-named, scope_named, is_absent, check_existing_ingest-unseen,
  resolve_ingest_scope-accepted,
}

module _ (v : Evidence) (fresh : String) (data_ : LedgerData) (ledger : IsLedger v data_) where
  unless_existing-IsLedger :
      (key : String) (event : Event) (existing : Existing)
      → require_tenant_scope (codes event.tenant_id) ≡ ok tt
      → (is_absent existing ≡ true → lookup key data_.events ≡ none)
      → IsLedger v (data_after data_ (unless_existing v fresh key event data_ existing))
  unless_existing-IsLedger key event (repeated receipt) scope unseen = ledger
  unless_existing-IsLedger key event (refused receipt e) scope unseen = ledger
  unless_existing-IsLedger key event absent scope unseen =
      elim (Bool-cases (idempotency_key_reused data_ event.tenant_id key event.idempotency_key)) [
        | inl reused ↦ rw reused ledger
        | inr new_ ↦ rw new_ (
            append_event-IsLedger v fresh key data_ ledger (unseen refl) event scope
              (derived_stream-named event (scope_named event.tenant_id scope)))
      ]

  ingest_closure-IsLedger :
      (hint client : String) (event : Event) (input : String)
      → require_tenant_scope (codes event.tenant_id) ≡ ok tt
      → IsLedger v (data_after data_ (ingest_closure v fresh hint client event input data_))
  unfolding ingest_closure
  ingest_closure-IsLedger hint client event input scope =
      resolved (resolve_ingest_tenant data_ hint client event.source_system)
    where
      resolved :
          (found : Result String)
          → IsLedger v (
              data_after data_ (elim found [
                | err e ↦ rejected no_receipt Err.forbidden
                | ok tenant ↦
                    if not (tenant == event.tenant_id)
                    then rejected no_receipt Err.forbidden
                    else unless_existing v fresh
                        (framed_key event.tenant_id event.event_id)
                        event
                        data_
                        (check_existing_ingest v data_ event.tenant_id event.event_id input)
              ]))
      resolved (err e) = ledger
      resolved (ok tenant) = elim (Bool-cases (tenant == event.tenant_id)) [
        | inr differs ↦ rw differs ledger
        | inl same ↦ rw same (
            unless_existing-IsLedger (framed_key event.tenant_id event.event_id) event
              (check_existing_ingest v data_ event.tenant_id event.event_id input) scope
              (check_existing_ingest-unseen v data_ event.tenant_id event.event_id input))
      ]

  ingest_resolved-IsLedger :
      (prepare : Event → Result String) (now : ℕ) (hint client tenant : String) (event : Event)
      → require_tenant_scope (codes tenant) ≡ ok tt
      → IsLedger v
          (data_after data_ (ingest_resolved v prepare fresh now hint client tenant event data_))
  unfolding ingest_resolved stamped_event
  ingest_resolved-IsLedger prepare now hint client tenant event scope =
      elim (Bool-cases (not (event.tenant_id == "") && not (event.tenant_id == tenant))) [
        | inl mismatch ↦ rw mismatch ledger
        | inr fine ↦ rw fine (digested (content_digest v (stamped_event tenant now event)))
      ]
    where
      prepared :
          (digest : String) (body : Result String)
          → IsLedger v (
              data_after data_ (elim body [
                | err e ↦ rejected no_receipt e
                | ok body ↦
                    ingest_closure v fresh hint client
                      (record (stamped_event tenant now event) {
                        source_digest = digest;
                        body = body;
                      })
                      digest
                      data_
              ]))
      prepared digest (err e) = ledger
      prepared digest (ok body) =
          ingest_closure-IsLedger hint client
            (record (stamped_event tenant now event) { source_digest = digest; body = body }) digest
            scope

      digested :
          (digest : Result String)
          → IsLedger v (
              data_after data_ (elim digest [
                | err e ↦ rejected no_receipt e
                | ok digest ↦
                    elim (prepare
                      (record (stamped_event tenant now event) { source_digest = digest })) [
                        | err e ↦ rejected no_receipt e
                        | ok body ↦
                            ingest_closure v fresh hint client
                              (record (stamped_event tenant now event) {
                                source_digest = digest;
                                body = body;
                              })
                              digest
                              data_
                      ]
              ]))
      digested (err e) = ledger
      digested (ok digest) =
          prepared digest
            (prepare (record (stamped_event tenant now event) { source_digest = digest }))

  pub ingest-IsLedger :
      (prepare : Event → Result String) (now : ℕ) (hint client : String) (event : Event)
      → IsLedger v (data_after data_ (ingest v prepare fresh now hint client event data_))
  unfolding ingest
  ingest-IsLedger prepare now hint client event =
      scoped (resolve_ingest_scope data_ hint client event.source_system) refl
    where
      scoped :
          (found : Result String)
          → resolve_ingest_scope data_ hint client event.source_system ≡ found
          → IsLedger v (
              data_after data_ (elim found [
                | err e ↦ rejected no_receipt e
                | ok tenant ↦ ingest_resolved v prepare fresh now hint client tenant event data_
              ]))
      scoped (err e) h = ledger
      scoped (ok tenant) h =
          ingest_resolved-IsLedger prepare now hint client tenant event
            (resolve_ingest_scope-accepted data_ hint client event.source_system tenant h)
