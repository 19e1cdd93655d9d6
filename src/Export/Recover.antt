-- ===== src/Export/Recover.antt =====
-- internal/service/export_lease.go, recoverExportJobs: expired leased exports, and old exports with
-- no lease, are failed. A cancelled context aborts the pass and is left out.
use snaplink_audit_governanc.Prelude.{
  ℕ, suc, ◌+◌, String, Bool, not, ◌&&◌, ◌||◌, Option, none, some, [], ◌∷◌, Table, lookup, insert,
  delete, has, ltb, eqb, ◌==◌, ◌+++◌, if◌then◌else◌,
}
use snaplink_audit_governanc.Domain.Errors.{Result, ok, err, conflict, plan_invalid, ◌>>=◌, ◌>>◌}
use snaplink_audit_governanc.Domain.Models.{ExportJob, ExportLease, failed, is_running}
use snaplink_audit_governanc.Service.{Service, Call, admin_action}
use snaplink_audit_governanc.Store.Control.{
  Control, Change, append_admin_action, save, skip, update_checked,
}
use snaplink_audit_governanc.Export.Lease.{valid_export_lease}
use snaplink_audit_governanc.Export.Plan.{is_none}
use snaplink_audit_governanc.Export.Checkpoint.{valid_export_artifacts}

-- What a recovered job says of its failure: code, detail of the fact, message.
pub record Diagnosis : Type 0 where
  pub failure_code : String
  pub detail : String
  pub failure : String

abbrev lease_diagnosis : Diagnosis
lease_diagnosis = record {
  failure_code = "lease_expired";
  detail = "lease_expired status=failed";
  failure = "export interrupted: execution lease expired; re-request the export";
}

unfoldable pub legacy_diagnosis : Service → ℕ → Diagnosis
legacy_diagnosis s start = record {
  failure_code = "legacy_stuck";
  detail = "stuck_running_since=" +++ (s.format_time start +++ " status=failed");
  failure =
      "export interrupted: stuck in running since "
      +++ (s.format_time start +++ "; re-request the export");
}

-- `StartedAt`, or `CreatedAt` where it is not set.
abbrev pub start_of : ExportJob → ℕ
start_of job = elim job.started_at [
  | none ↦ job.created_at
  | some t ↦ if eqb t 0 then job.created_at else t
]

-- A leased running job: `none` is `continue`.
unfoldable pub diagnose_leased :
    ℕ → String → ExportJob → ExportLease → Bool → Result (Option Diagnosis)
diagnose_leased now job_id job lease keeps_artifact =
    if not (job.id == job_id) || not (valid_export_lease job lease)
    then err conflict
    else if ltb now lease.expires_at || keeps_artifact
    then ok none
    else ok (some lease_diagnosis)

-- A running job with no lease. `start` is strictly before `now - StuckExportAge`.
unfoldable pub diagnose_legacy : Service → ℕ → Bool → ExportJob → Option Diagnosis
diagnose_legacy s now include_legacy job =
    if include_legacy && ltb (start_of job + s.stuck_export_age) now
    then some (legacy_diagnosis s (start_of job))
    else none

-- The body of the loop up to its write.
unfoldable pub diagnose :
    Service → ℕ → Bool → String → ExportJob → Control → Result (Option Diagnosis)
diagnose s now include_legacy job_id job data_ =
    let keeps_artifact = has job_id data_.export_checkpoints || has job_id data_.export_plans in
    valid_export_artifacts s data_ job now >> elim (lookup job_id data_.export_leases) [
      | none ↦
          if keeps_artifact then err plan_invalid else ok (diagnose_legacy s now include_legacy job)
      | some lease ↦ diagnose_leased now job_id job lease keeps_artifact
    ]

abbrev pub recovered_job : ExportJob → Diagnosis → ℕ → ExportJob
recovered_job job d now = record job {
  status = failed;
  error = d.failure;
  failure_code = d.failure_code;
  finished_at = some now;
  object_path = "";
  digest = "";
  event_count = 0;
}

unfoldable pub fail_job : Service → Call → ℕ → String → ExportJob → Diagnosis → Control → Control
unfolding append_admin_action
fail_job s call i job_id job d data_ =
    append_admin_action s.max_admin_actions
      (record data_ {
        exports = insert job_id (recovered_job job d call.now) data_.exports;
        export_leases = delete job_id data_.export_leases;
      })
      (admin_action call i job.tenant_id "governance-worker" "export.recovered" "export" job_id
        d.detail)

-- The jobs that the pass looks at; the empty tenant is every tenant.
abbrev pub is_candidate : String → ExportJob → Bool
is_candidate tenant job =
    (tenant == "" || job.tenant_id == tenant) && is_running job.status && is_none job.finished_at

-- What the loop does with a diagnosis.
unfoldable pub settle :
    Service
    → Call
    → String
    → ExportJob
    → Control × ℕ
    → Result (Option Diagnosis)
    → Result (Control × ℕ)
unfolding fail_job
settle s call job_id job acc (err e) = err e
settle s call job_id job acc (ok none) = ok acc
settle s call job_id job (data_, recovered) (ok (some d)) =
    ok (fail_job s call recovered job_id job d data_, suc recovered)

unfoldable pub recover_step :
    Service → Call → String → Bool → String → ExportJob → Control × ℕ → Result (Control × ℕ)
unfolding settle
recover_step s call tenant include_legacy job_id job acc =
    if not (is_candidate tenant job)
    then ok acc
    else settle s call job_id job acc (diagnose s call.now include_legacy job_id job acc.0)

unfoldable pub recover_loop :
    Service → Call → String → Bool → Table ExportJob → Control × ℕ → Result (Control × ℕ)
recover_loop s call tenant include_legacy [] acc = ok acc
recover_loop s call tenant include_legacy ((job_id, job) ∷ jobs) acc =
    recover_step s call tenant include_legacy job_id job acc
    >>= recover_loop s call tenant include_legacy jobs

-- A pass that recovered nothing reports no change.
unfoldable pub recovered_change : Control × ℕ → Result (Change ℕ)
recovered_change (after, recovered) =
    if eqb recovered 0 then skip after recovered else save after recovered

unfoldable pub recover_closure : Service → Call → String → Bool → Control → Result (Change ℕ)
recover_closure s call tenant include_legacy data_ =
    recover_loop s call tenant include_legacy data_.exports (data_, 0) >>= λ acc.
    recovered_change acc

-- RecoverStuckExports is the pass over one tenant with legacy jobs included, and
-- recoverExpiredExportLeases the pass over every tenant without them.
unfoldable pub recover_export_jobs : Service → Call → String → Bool → Control → Control × Result ℕ
unfolding recover_closure
recover_export_jobs s call tenant include_legacy =
    update_checked (recover_closure s call tenant include_legacy)
