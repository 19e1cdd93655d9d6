-- ===== src/Restore.antt =====
-- internal/service/restore.go: requests to restore, and the decision on them.
pub mod Decisions
use snaplink_audit_governanc.Prelude.{
  ℕ, String, Bool, true, false, not, ◌||◌, Option, none, some, lookup, insert, ◌==◌, if◌then◌else◌,
}
use snaplink_audit_governanc.Prelude.Texts.{codes}
use snaplink_audit_governanc.Domain.Errors.{
  Result, ok, err, invalid, not_found, conflict, forbidden,
}
use snaplink_audit_governanc.Domain.Models.{
  RestoreRun, RestoreStatus, pending_approval, approved, rejected,
}
use snaplink_audit_governanc.Domain.Identifiers.{require_tenant_scope}
use snaplink_audit_governanc.Service.{Service, Call, admin_action}
use snaplink_audit_governanc.Store.Control.{
  Control, Change, append_admin_action, save, update_checked,
}

abbrev pub is_pending_approval : RestoreStatus → Bool
is_pending_approval pending_approval = true
is_pending_approval _ = false

-- The target of ApproveRestore and of RejectRestore.
pub data Decision : Type 0 where
  approve reject : Decision

unfoldable pub new_restore_run : Call → String → String → String → String → RestoreRun
new_restore_run call tenant operation_id reason requested_by = record {
  id = call.fresh 0;
  tenant_id = tenant;
  operation_id = operation_id;
  status = pending_approval;
  reason = reason;
  created_by = requested_by;
  created_at = call.now;
  approved_by = "";
  approved_at = none;
  rejected_by = "";
  rejected_at = none;
}

unfoldable pub create_restore_closure :
    Service → Call → RestoreRun → Control → Result (Change RestoreRun)
unfolding append_admin_action
create_restore_closure s call run data_ =
    save
      (append_admin_action s.max_admin_actions
        (record data_ { restore_runs = insert run.id run data_.restore_runs })
        (admin_action call 1 run.tenant_id run.created_by "restore.created" "restore" run.id
          run.operation_id))
      run

-- `replayed` is what ReplayOperation answers.
unfoldable pub create_restore :
    Service
    → Call
    → String
    → String
    → String
    → String
    → Result (Unit {0})
    → Control
    → Control × Result RestoreRun
unfolding new_restore_run create_restore_closure
create_restore s call tenant operation_id reason requested_by replayed data_ =
    elim (require_tenant_scope (codes tenant)) [
      | err e ↦ (data_, err e)
      | ok _ ↦ if operation_id == "" || reason == "" then (data_, err invalid) else elim replayed [
        | err e ↦ (data_, err e)
        | ok _ ↦
            update_checked
              (create_restore_closure s call
                (new_restore_run call tenant operation_id reason requested_by))
              data_
      ]
    ]

abbrev pub decided_run : Decision → RestoreRun → String → ℕ → RestoreRun
decided_run approve run actor now = record run {
  status = approved;
  approved_by = actor;
  approved_at = some now;
}
decided_run reject run actor now = record run {
  status = rejected;
  rejected_by = actor;
  rejected_at = some now;
}

abbrev pub decision_word : Decision → String
decision_word approve = "restore.approved"
decision_word reject = "restore.rejected"

-- The write of a decision.
unfoldable pub record_decision :
    Service → Call → String → String → Decision → RestoreRun → Control → Result (Change RestoreRun)
unfolding append_admin_action
record_decision s call run_id actor decision run data_ =
    let told = append_admin_action s.max_admin_actions data_ (
      admin_action call 0 run.tenant_id actor (decision_word decision) "restore" run_id
        run.operation_id) in
    let decided = decided_run decision run actor call.now in
    save (record told { restore_runs = insert run_id decided data_.restore_runs }) decided

unfoldable pub decide_run :
    Service → Call → String → String → Decision → RestoreRun → Control → Result (Change RestoreRun)
decide_run s call run_id actor decision run data_ =
    if not (is_pending_approval run.status)
    then err conflict
    else if run.created_by == actor
    then err forbidden
    else record_decision s call run_id actor decision run data_

unfoldable pub transition_closure :
    Service → Call → String → String → String → Decision → Control → Result (Change RestoreRun)
transition_closure s call tenant run_id actor decision data_ =
    elim (lookup run_id data_.restore_runs) [
      | none ↦ err not_found
      | some run ↦
          if not (run.tenant_id == tenant)
          then err not_found
          else decide_run s call run_id actor decision run data_
    ]

unfoldable pub transition_restore :
    Service → Call → String → String → String → Decision → Control → Control × Result RestoreRun
unfolding transition_closure
transition_restore s call tenant run_id actor decision data_ =
    elim (require_tenant_scope (codes tenant)) [
      | err e ↦ (data_, err e)
      | ok _ ↦ update_checked (transition_closure s call tenant run_id actor decision) data_
    ]
