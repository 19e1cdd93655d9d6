-- ===== src/Export/Claim.antt =====
-- internal/service/export_recovery.go, claimExport: a pending export becomes running, or an expired
-- running one with a plan or checkpoint gets a new owner.
use snaplink_audit_governanc.Prelude.{
  ℕ, ◌+◌, String, Bool, not, ◌&&◌, ◌||◌, Option, none, some, lookup, insert, get_or, has, ltb, eqb,
  length, ◌==◌, ◌+++◌, if◌then◌else◌,
}
use snaplink_audit_governanc.Domain.Errors.{Result, err, conflict, plan_invalid, ◌>>◌}
use snaplink_audit_governanc.Domain.Models.{
  ExportJob, ExportLease, ExportPlan, running, is_pending, is_running, no_lease, no_plan,
  no_checkpoint,
}
use snaplink_audit_governanc.Service.{Service, Call, admin_action}
use snaplink_audit_governanc.Store.Control.{
  Control, Change, append_admin_action, save, skip, update_checked,
}
use snaplink_audit_governanc.Export.Lease.{ExportClaim, export_lease_duration, valid_export_lease}
use snaplink_audit_governanc.Export.Plan.{is_none}
use snaplink_audit_governanc.Export.Checkpoint.{valid_export_artifacts}
use snaplink_audit_governanc.Export.Queue.{
  export_claim_has_capacity, export_checkpoint_has_capacity,
}

unfoldable pub new_lease : ExportJob → String → ℕ → ExportLease
new_lease job owner now = record {
  version = 1;
  job_id = job.id;
  tenant_id = job.tenant_id;
  owner = owner;
  heartbeat_at = now;
  expires_at = now + export_lease_duration;
}

-- The claim that is handed to the executor.
unfoldable pub new_claim : Control → ExportJob → String → ExportClaim
new_claim data_ job owner = record {
  job = job;
  owner = owner;
  checkpoint = get_or job.id no_checkpoint data_.export_checkpoints;
  plan = get_or job.id no_plan data_.export_plans;
  hold_binding = "";
}

-- The write that both branches end in; `value` is the job with its new state.
unfoldable pub take : ExportJob → String → ℕ → Control → Result (Change (Option ExportClaim))
take value owner now data_ =
    save
      (record data_ {
        exports = insert value.id value data_.exports;
        export_leases = insert value.id (new_lease value owner now) data_.export_leases;
      })
      (some (new_claim data_ value owner))

abbrev resume_detail : Service → Option ExportPlan → String
resume_detail s none = "stage=sealed version=1"
resume_detail s (some plan) =
    if eqb (length plan.chunks) 0
    then "stage=selected version=" +++ s.format_int plan.version
    else "stage=generating version=1"

-- A running export: only an expired owner of planned or sealed work is replaced.
unfoldable pub claim_running :
    Service → Call → String → ExportJob → Control → Result (Change (Option ExportClaim))
unfolding take append_admin_action
claim_running s call owner value data_ =
    let id = value.id in
    let lease = get_or id no_lease data_.export_leases in
    let fact =
      admin_action call 0 value.tenant_id "governance-worker" "export.resumed" "export" id
        (resume_detail s (lookup id data_.export_plans)) in
    if not (has id data_.export_checkpoints) && not (has id data_.export_plans)
    then skip data_ none
    else if not (valid_export_lease value lease)
    then err plan_invalid
    else valid_export_artifacts s data_ value call.now
      >> (if ltb call.now lease.expires_at
            || not (export_checkpoint_has_capacity data_.exports value.tenant_id)
          then skip data_ none
          else take value owner call.now (append_admin_action s.max_admin_actions data_ fact))

abbrev pub started : ExportJob → ℕ → ExportJob
started job now = record job { status = running; started_at = some now }

-- A pending export holds no lease, plan or checkpoint, and starts if there is room.
unfoldable pub claim_pending :
    Call → String → ExportJob → Control → Result (Change (Option ExportClaim))
unfolding take
claim_pending call owner value data_ =
    let id = value.id in
    if has id data_.export_leases || has id data_.export_checkpoints || has id data_.export_plans
    then err conflict
    else if not (export_claim_has_capacity data_.exports value.tenant_id)
    then skip data_ none
    else take (started value call.now) owner call.now data_

abbrev pub is_unclaimable : Bool → ExportJob → Bool
is_unclaimable allow_checkpoint value =
    not (is_pending value.status) && (not allow_checkpoint || not (is_running value.status))

abbrev pub is_mismatched : String → ExportJob → Bool
is_mismatched job_id value =
    not (value.id == job_id) || value.tenant_id == "" || not (is_none value.finished_at)

-- The guards on the job that the key holds.
unfoldable pub claim_found :
    Service
    → Call
    → String
    → String
    → Bool
    → ExportJob
    → Control
    → Result (Change (Option ExportClaim))
claim_found s call owner job_id allow_checkpoint value data_ =
    if is_unclaimable allow_checkpoint value
    then skip data_ none
    else if is_mismatched job_id value
    then err conflict
    else if is_running value.status
    then claim_running s call owner value data_
    else claim_pending call owner value data_

unfoldable pub claim_closure :
    Service → Call → String → String → Bool → Control → Result (Change (Option ExportClaim))
claim_closure s call owner job_id allow_checkpoint data_ = elim (lookup job_id data_.exports) [
  | none ↦ skip data_ none
  | some value ↦ claim_found s call owner job_id allow_checkpoint value data_
]

-- `owner` is the fresh `rand.Text()` of the call.
unfoldable pub claim_export :
    Service → Call → String → String → Bool → Control → Control × Result (Option ExportClaim)
unfolding claim_closure
claim_export s call owner job_id allow_checkpoint =
    update_checked (claim_closure s call owner job_id allow_checkpoint)
