-- ===== src/Ledger/Linked/Scopes.antt =====
-- The scope that a request to ingest is given, and the keys that its event is not yet found under.
use Prim.Native.String.append
use snaplink_audit_governanc.Prelude.{
  ◌≡◌, refl, ap, sym, ◌∙◌, String, Bool, true, false, not, ◌&&◌, ◌+++◌, Option, none, some, lookup,
  arith, ◌==◌, eq_iff, if◌then◌else◌, Bool-cases, inl, inr, get_or,
}
use snaplink_audit_governanc.Prelude.Texts.{codes}
use snaplink_audit_governanc.Domain.Errors.{Result, ok, err, invalid, ◌>>=◌, ◌>>◌}
use snaplink_audit_governanc.Domain.Identifiers.{require_tenant_scope}
use snaplink_audit_governanc.Ledger.Chain.{reconstruct_digest}
use snaplink_audit_governanc.Ledger.Models.{
  Event, EventReceipt, LedgerData, Evidence, framed_key, no_receipt,
}
use snaplink_audit_governanc.Ledger.Ingest.{
  Existing, absent, compare_content, check_archived, check_existing_ingest, check_hint,
  resolve_ingest_scope, resolve_ingest_tenant, derived_stream,
}

append-named : (s t : String) → (s == "") ≡ false → (s +++ t == "") ≡ false
append-named String.[] t h = absurd (ground (arith, h))
append-named (String.◌∷◌ c s) t h = elim (Bool-cases (String.◌∷◌ c s +++ t == "")) [
  | inr named ↦ named
  | inl empty ↦
      let this : String.◌∷◌ c (s +++ t) ≡ "" =
        sym (append.cons c s t) ∙ (eq_iff (String.◌∷◌ c s +++ t) "").0 empty in
      absurd cc
]

if_named :
    (b : Bool) (x y : String)
    → (x == "") ≡ false
    → (y == "") ≡ false
    → ((if b then x else y) == "") ≡ false
if_named true x y h k = h
if_named false x y h k = k

pub derived_stream-named :
    (event : Event) → (event.tenant_id == "") ≡ false → (derived_stream event == "") ≡ false
unfolding derived_stream
derived_stream-named event h = elim (Bool-cases (event.stream_id == "")) [
  | inr given ↦ rw (given) given
  | inl derived ↦ rw derived (
      if_named (not (event.aggregate_type == "") && not (event.aggregate_id == ""))
        (event.tenant_id +++ ":aggregate:" +++ event.aggregate_type +++ ":" +++ event.aggregate_id)
        (if not (event.operation_id == "")
          then event.tenant_id +++ ":operation:" +++ event.operation_id
          else event.tenant_id +++ ":source:" +++ event.source_system)
        (append-named event.tenant_id
          (":aggregate:" +++ event.aggregate_type +++ ":" +++ event.aggregate_id) h)
        (if_named (not (event.operation_id == ""))
          (event.tenant_id +++ ":operation:" +++ event.operation_id)
          (event.tenant_id +++ ":source:" +++ event.source_system)
          (append-named event.tenant_id (":operation:" +++ event.operation_id) h)
          (append-named event.tenant_id (":source:" +++ event.source_system) h)))
]

pub scope_named :
    (tenant : String) → require_tenant_scope (codes tenant) ≡ ok tt → (tenant == "") ≡ false
unfolding require_tenant_scope
scope_named tenant h = elim (Bool-cases (tenant == "")) [
  | inr named ↦ named
  | inl empty ↦
      let refused_ : err invalid ≡ ok tt =
        ap (λ t. require_tenant_scope (codes t)) (sym ((eq_iff tenant "").0 empty)) ∙ h in
      absurd cc
]

abbrev pub is_absent : Existing → Bool
is_absent absent = true
is_absent _ = false

compare_content-found :
    (receipt : EventReceipt) (input : String) (digest : Result String)
    → is_absent (compare_content receipt input digest) ≡ false
compare_content-found receipt input (err e) = refl
compare_content-found receipt input (ok digest) = elim (Bool-cases (digest == input)) [
  | inl same ↦ rw same refl
  | inr differs ↦ rw differs refl
]

-- Only an event that is not hot can be new.
pub check_existing_ingest-unseen :
    (v : Evidence) (data_ : LedgerData) (tenant event_id input : String)
    → is_absent (check_existing_ingest v data_ tenant event_id input) ≡ true
    → lookup (framed_key tenant event_id) data_.events ≡ none
unfolding check_existing_ingest
check_existing_ingest-unseen v data_ tenant event_id input h =
    seen (lookup (framed_key tenant event_id) data_.events) h
  where
    seen :
        (found : Option Event)
        → is_absent (elim found [
          | some event ↦
              compare_content
                (get_or (framed_key tenant event_id) no_receipt data_.receipts)
                input
                (reconstruct_digest v event)
          | none ↦ elim (lookup (framed_key tenant event_id) data_.receipts) [
            | none ↦ absent
            | some receipt ↦ check_archived v receipt input
          ]
        ])
          ≡ true
        → found ≡ none
    seen none h = refl
    seen (some event) h = absurd (
        ground (
          arith,
          h,
          compare_content-found (get_or (framed_key tenant event_id) no_receipt data_.receipts)
              input (reconstruct_digest v event),
        ))

-- A tenant that Ingest resolves is accepted.
pub resolve_ingest_scope-accepted :
    (data_ : LedgerData) (hint client source tenant : String)
    → resolve_ingest_scope data_ hint client source ≡ ok tenant
    → require_tenant_scope (codes tenant) ≡ ok tt
unfolding resolve_ingest_scope
resolve_ingest_scope-accepted data_ hint client source tenant h =
    chained (check_hint hint) (resolve_ingest_tenant data_ hint client source) h
  where
    checked :
        (t : String) (r : Result (Unit {0}))
        → require_tenant_scope (codes t) ≡ r
        → (r >> ok t) ≡ ok tenant
        → require_tenant_scope (codes tenant) ≡ ok tt
    checked t (err e) accepted h = absurd cc
    checked t (ok _) accepted h =
        let same : t ≡ tenant = cc in
        ap (λ name. require_tenant_scope (codes name)) (sym same) ∙ accepted

    chained :
        (hinted : Result (Unit {0})) (found : Result String)
        → (hinted >> (found >>= λ t. require_tenant_scope (codes t) >> ok t)) ≡ ok tenant
        → require_tenant_scope (codes tenant) ≡ ok tt
    chained (err e) found h = absurd cc
    chained (ok _) (err e) h = absurd cc
    chained (ok _) (ok t) h = checked t (require_tenant_scope (codes t)) refl h
