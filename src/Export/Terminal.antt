-- ===== src/Export/Terminal.antt =====
-- internal/service/export.go, persistTerminalExport: the owner of a lease finishes its export.
use snaplink_audit_governanc.Prelude.{
  ℕ, String, not, ◌&&◌, ◌||◌, none, some, lookup, insert, delete, has, ◌+++◌, if◌then◌else◌,
}
use snaplink_audit_governanc.Domain.Errors.{Result, err, plan_invalid, checkpoint_invalid}
use snaplink_audit_governanc.Domain.Models.{ExportJob, LegalHold, is_completed, is_failed}
use snaplink_audit_governanc.Service.{Service, Call, admin_action}
use snaplink_audit_governanc.Store.Control.{
  Control, Change, append_admin_action, save, skip, update_checked,
}
use snaplink_audit_governanc.Export.Lease.{ExportClaim, owns_export_lease}
use snaplink_audit_governanc.Export.Checkpoint.{
  Ending, verdict_status, export_plan_matches, terminal_export_checkpoint_matches,
}

-- `onWrite`: none, or what failExportBlocked does for a hold.
pub data OnWrite : Type 0 where
  nothing : OnWrite
  blocked_by : LegalHold → OnWrite
  checkpoint_rejected : OnWrite

abbrev pub on_write_code : OnWrite → String → String
on_write_code (blocked_by hold) code = "legal_hold"
on_write_code _ code = code

abbrev pub on_write_data : Service → Call → ExportJob → OnWrite → Control → Control
on_write_data s call job nothing data_ = data_
on_write_data s call job (blocked_by hold) data_ = append_admin_action s.max_admin_actions data_ (
    admin_action call 0 job.tenant_id "governance-worker" "export.blocked" "legal_hold" hold.id
      ("export_blocked reason=" +++ hold.reason))
on_write_data s call job checkpoint_rejected data_ = append_admin_action s.max_admin_actions data_ (
    admin_action call 0 job.tenant_id "governance-worker" "export.checkpoint_rejected" "export"
      job.id "stage=sealed verification_failed")

abbrev pub finished_job : ExportJob → Ending → OnWrite → ℕ → ExportJob
finished_job job e on_write now = record job {
  status = verdict_status e.verdict;
  finished_at = some now;
  object_path = e.path;
  digest = e.digest;
  event_count = e.count;
  error = e.failure;
  failure_code =
      on_write_code on_write
        (if is_failed (verdict_status e.verdict) then "execution_failed" else "");
}

-- The fact of a completion from a checkpoint.
abbrev completion_fact : Service → Call → ExportJob → Ending → Control → Control
completion_fact s call job e data_ =
    if has job.id data_.export_checkpoints && is_completed (verdict_status e.verdict)
    then append_admin_action s.max_admin_actions data_ (
        admin_action call 1 job.tenant_id "governance-worker" "export.completed" "export" job.id
          "stage=sealed status=completed")
    else data_

abbrev closed_data : ExportJob → Control → Control
closed_data job data_ = record data_ {
  export_leases = delete job.id data_.export_leases;
  export_checkpoints = delete job.id data_.export_checkpoints;
  export_plans = delete job.id data_.export_plans;
}

unfoldable pub finish : Service → Call → ExportJob → Ending → OnWrite → Control → Control
unfolding append_admin_action
finish s call job e on_write data_ =
    let closed =
      on_write_data s call job on_write (closed_data job (completion_fact s call job e data_)) in
    record closed { exports = insert job.id (finished_job job e on_write call.now) data_.exports }

unfoldable pub terminal_found :
    Service
    → Call
    → ExportClaim
    → ExportJob
    → Ending
    → OnWrite
    → Control
    → Result (Change (Unit {0}))
unfolding finish
terminal_found s call claim job e on_write data_ =
    if not (owns_export_lease data_ job claim call.now)
    then skip data_ tt
    else if not (export_plan_matches s data_ job claim call.now)
        || has job.id data_.export_plans && is_completed (verdict_status e.verdict)
    then err plan_invalid
    else if not (terminal_export_checkpoint_matches s data_ job claim e call.now)
    then err checkpoint_invalid
    else save (finish s call job e on_write data_) tt

-- One attempt. The claim is the caller's own: its key is the job's.
unfoldable pub terminal_closure :
    Service → Call → ExportClaim → Ending → OnWrite → Control → Result (Change (Unit {0}))
terminal_closure s call claim e on_write data_ = elim (lookup claim.job.id data_.exports) [
  | none ↦ skip data_ tt
  | some job ↦ terminal_found s call claim job e on_write data_
]

unfoldable pub persist_terminal_export :
    Service → Call → ExportClaim → Ending → OnWrite → Control → Control × Result (Unit {0})
unfolding terminal_closure
persist_terminal_export s call claim e on_write =
    update_checked (terminal_closure s call claim e on_write)
