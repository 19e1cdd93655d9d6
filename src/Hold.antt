-- ===== src/Hold.antt =====
-- internal/service/hold.go: legal holds.
pub mod Releases
use snaplink_audit_governanc.Prelude.{
  ℕ, String, Bool, not, ◌&&◌, ◌||◌, none, some, lookup, insert, has, eqb, ltb, ◌==◌, if◌then◌else◌,
}
use snaplink_audit_governanc.Prelude.Texts.{codes}
use snaplink_audit_governanc.Domain.Errors.{Result, ok, err, invalid, not_found, conflict, ◌>>◌}
use snaplink_audit_governanc.Domain.Models.{Query, LegalHold}
use snaplink_audit_governanc.Domain.Identifiers.{require_tenant_scope}
use snaplink_audit_governanc.Service.{Service, Call, admin_action}
use snaplink_audit_governanc.Store.Control.{
  Control, Change, append_admin_action, save, skip, update_checked,
}

-- `From` and `To` come together and in order; so do the payload's field and digest.
unfoldable pub valid_hold_filter : Query → Bool
valid_hold_filter q =
    (eqb q.from_time 0 && eqb q.to_time 0
      || not (eqb q.from_time 0) && not (eqb q.to_time 0) && ltb q.from_time q.to_time)
    && (if q.payload_field == "" then q.payload_digest == "" else not (q.payload_digest == ""))

-- The identifier and the time that the caller left out.
unfoldable pub completed_hold : Call → LegalHold → LegalHold
completed_hold call hold = record hold {
  id = if hold.id == "" then call.fresh 0 else hold.id;
  created_at = if eqb hold.created_at 0 then call.now else hold.created_at;
}

unfoldable pub create_hold_closure :
    Service → Call → LegalHold → Control → Result (Change LegalHold)
unfolding append_admin_action
create_hold_closure s call hold data_ =
    if not (has hold.tenant_id data_.tenants)
    then err not_found
    else if has hold.id data_.legal_holds
    then err conflict
    else save
        (append_admin_action s.max_admin_actions
          (record data_ { legal_holds = insert hold.id hold data_.legal_holds })
          (admin_action call 1 hold.tenant_id hold.created_by "legal_hold.created" "legal_hold"
            hold.id hold.reason))
        hold

unfoldable pub create_legal_hold : Service → Call → LegalHold → Control → Control × Result LegalHold
unfolding completed_hold create_hold_closure
create_legal_hold s call hold data_ = elim (require_tenant_scope (codes hold.tenant_id)) [
  | err e ↦ (data_, err e)
  | ok _ ↦
      if hold.tenant_id == "" || hold.name == "" || hold.reason == ""
      then (data_, err invalid)
      else if not (valid_hold_filter hold.filter)
      then (data_, err invalid)
      else update_checked (create_hold_closure s call (completed_hold call hold)) data_
]

abbrev pub released_hold : LegalHold → String → ℕ → LegalHold
released_hold hold actor now = record hold { released_at = some now; released_by = actor }

unfoldable pub release_found :
    Service → Call → String → String → LegalHold → Control → Result (Change LegalHold)
unfolding append_admin_action
release_found s call hold_id actor hold data_ = elim hold.released_at [
  | some _ ↦ skip data_ hold
  | none ↦
      save
        (append_admin_action s.max_admin_actions
          (record data_ {
            legal_holds = insert hold_id (released_hold hold actor call.now) data_.legal_holds;
          })
          (admin_action call 0 hold.tenant_id actor "legal_hold.released" "legal_hold" hold_id ""))
        (released_hold hold actor call.now)
]

unfoldable pub release_closure :
    Service → Call → String → String → String → Control → Result (Change LegalHold)
release_closure s call tenant hold_id actor data_ = elim (lookup hold_id data_.legal_holds) [
  | none ↦ err not_found
  | some hold ↦
      if not (hold.tenant_id == tenant)
      then err not_found
      else release_found s call hold_id actor hold data_
]

unfoldable pub release_legal_hold :
    Service → Call → String → String → String → Control → Control × Result LegalHold
unfolding release_closure
release_legal_hold s call tenant hold_id actor data_ = elim (require_tenant_scope (codes tenant)) [
  | err e ↦ (data_, err e)
  | ok _ ↦ update_checked (release_closure s call tenant hold_id actor) data_
]
