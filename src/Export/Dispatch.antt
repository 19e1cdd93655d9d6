-- ===== src/Export/Dispatch.antt =====
-- internal/service/export_checkpoint_schedule.go, nextRunnableExport: the export that the dispatcher
-- runs next. An expired run of planned or sealed work is reclaimed before a pending export starts.
pub mod Choices
use snaplink_audit_governanc.Prelude.{
  ℕ, String, Bool, not, ◌&&◌, ◌||◌, List, [], ◌∷◌, Table, get_or, has, ltb, eqb, str_lt, ◌==◌,
  if◌then◌else◌,
}
use snaplink_audit_governanc.Domain.Models.{ExportJob, is_running, no_lease}
use snaplink_audit_governanc.Store.Control.{Control}
use snaplink_audit_governanc.Export.Plan.{is_none}
use snaplink_audit_governanc.Export.Lease.{valid_export_lease}
use snaplink_audit_governanc.Export.Queue.{export_checkpoint_has_capacity}
use snaplink_audit_governanc.Export.Scheduler.{next_export}

unfoldable pub is_reclaimable : Control → Table String → ℕ → String → ExportJob → Bool
is_reclaimable data_ active now id job =
    let lease = get_or id no_lease data_.export_leases in
    (has id data_.export_checkpoints || has id data_.export_plans)
    && not (has id active)
    && job.id == id
    && is_running job.status
    && is_none job.finished_at
    && valid_export_lease job lease
    && not (ltb now lease.expires_at)
    && export_checkpoint_has_capacity data_.exports job.tenant_id

-- The order of the candidates: tenant, creation, identifier.
abbrev pub runs_before : ExportJob → ExportJob → Bool
runs_before a b =
    if not (a.tenant_id == b.tenant_id)
    then str_lt a.tenant_id b.tenant_id
    else if not (eqb a.created_at b.created_at)
    then ltb a.created_at b.created_at
    else str_lt a.id b.id

unfoldable pub insert_candidate : ExportJob → List ExportJob → List ExportJob
insert_candidate job [] = job ∷ []
insert_candidate job (first ∷ others) =
    let later = insert_candidate job others in
    if runs_before first job then first ∷ later else job ∷ first ∷ others

-- The candidates among the jobs, sorted.
unfoldable pub reclaim_candidates : Control → Table String → ℕ → Table ExportJob → List ExportJob
unfolding insert_candidate
reclaim_candidates data_ active now [] = []
reclaim_candidates data_ active now ((id, job) ∷ rest) =
    let others = reclaim_candidates data_ active now rest in
    if is_reclaimable data_ active now id job then insert_candidate job others else others

-- The first candidate of a tenant past `after`, or `first`.
unfoldable pub candidate_after : String → ExportJob → List ExportJob → ExportJob
candidate_after after first [] = first
candidate_after after first (job ∷ jobs) =
    let later = candidate_after after first jobs in
    if str_lt after job.tenant_id then job else later

unfoldable pub next_runnable_export : Control → Table String → String → ℕ → ExportJob
unfolding is_reclaimable reclaim_candidates candidate_after next_export
next_runnable_export data_ active after now =
    elim (reclaim_candidates data_ active now data_.exports) [
      | [] ↦ next_export data_.exports active after
      | job ∷ jobs ↦ candidate_after after job (job ∷ jobs)
    ]
