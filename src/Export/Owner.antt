-- ===== src/Export/Owner.antt =====
-- internal/service/export_actions.go and export_retry.go: the actions of an export's requester.
use snaplink_audit_governanc.Prelude.{
  ℕ, String, Bool, not, ◌&&◌, ◌||◌, Option, none, some, [], ◌∷◌, Table, lookup, insert, delete, has,
  eqb, ◌==◌, ◌+++◌, if◌then◌else◌,
}
use snaplink_audit_governanc.Domain.Errors.{
  Result, ok, err, not_found, forbidden, conflict, quota_exceeded, ◌>>=◌, ◌>>◌,
}
use snaplink_audit_governanc.Domain.Equality.{query_eq, job_eq}
use snaplink_audit_governanc.Domain.Models.{
  Query, ExportJob, ExportLease, ExportSummary, cancelled, is_pending, is_running, is_failed,
  is_cancelled, is_set, summarize_export,
}
use snaplink_audit_governanc.Service.{Service, Call, admin_action}
use snaplink_audit_governanc.Store.Control.{
  Control, Change, append_admin_action, save, skip, update_checked,
}
use snaplink_audit_governanc.Export.Lease.{valid_export_lease}
use snaplink_audit_governanc.Export.Plan.{is_none}
use snaplink_audit_governanc.Export.Checkpoint.{valid_export_artifacts}
use snaplink_audit_governanc.Export.Queue.{
  export_queue_has_capacity, check_export_preflight, new_export_job,
}

unfoldable pub owned_export : Control → String → String → String → Result ExportJob
owned_export data_ tenant actor job_id = elim (lookup job_id data_.exports) [
  | none ↦ err not_found
  | some job ↦
      if not (job.tenant_id == tenant)
      then err not_found
      else if job.requested_by == "" || not (job.requested_by == actor)
      then err forbidden
      else if not (job.id == job_id)
      then err conflict
      else ok job
]

abbrev pub has_execution : String → Control → Bool
has_execution job_id data_ =
    has job_id data_.export_leases
    || has job_id data_.export_checkpoints
    || has job_id data_.export_plans

-- A job that is cancelled already: the answer repeats, if its record is sound.
unfoldable pub cancel_repeated : String → ExportJob → Control → Result (Change ExportSummary)
cancel_repeated job_id job data_ =
    if not (is_set job.finished_at)
      || not (job.object_path == "")
      || not (job.digest == "")
      || not (eqb job.event_count 0)
    then err conflict
    else if has_execution job_id data_
    then err conflict
    else skip data_ (summarize_export job)

-- A pending job has no lease, and a running one has a valid one.
unfoldable pub lease_fits : ExportJob → Option ExportLease → Bool
lease_fits job none = not (is_running job.status)
lease_fits job (some lease) = not (is_pending job.status) && valid_export_lease job lease

abbrev pub cancelled_job : ExportJob → ℕ → ExportJob
cancelled_job job now = record job {
  status = cancelled;
  finished_at = some now;
  failure_code = "cancelled";
  error = "";
  object_path = "";
  digest = "";
  event_count = 0;
}

unfoldable pub revoke : Service → Call → String → ExportJob → Control → Control
unfolding append_admin_action
revoke s call actor job data_ =
    append_admin_action s.max_admin_actions
      (record data_ {
        exports = insert job.id (cancelled_job job call.now) data_.exports;
        export_leases = delete job.id data_.export_leases;
        export_checkpoints = delete job.id data_.export_checkpoints;
        export_plans = delete job.id data_.export_plans;
      })
      (admin_action call 0 job.tenant_id actor "export.cancelled" "export" job.id
        "status=cancelled")

-- Neither pending nor running, or finished.
abbrev pub is_closed : ExportJob → Bool
is_closed job =
    not (is_none job.finished_at) || not (is_pending job.status || is_running job.status)

unfoldable pub cancel_owned :
    Service → Call → String → ExportJob → Control → Result (Change ExportSummary)
unfolding revoke
cancel_owned s call actor job data_ =
    if is_cancelled job.status
    then cancel_repeated job.id job data_
    else if is_closed job
    then err conflict
    else valid_export_artifacts s data_ job call.now
      >> (if not (lease_fits job (lookup job.id data_.export_leases))
          then err conflict
          else save (revoke s call actor job data_) (summarize_export (cancelled_job job call.now)))

unfoldable pub cancel_closure :
    Service → Call → String → String → String → Control → Result (Change ExportSummary)
cancel_closure s call tenant actor job_id data_ =
    owned_export data_ tenant actor job_id >>= λ job. cancel_owned s call actor job data_

-- Behind exportActionScope: here any tenant, actor and identifier get through.
unfoldable pub cancel_export :
    Service → Call → String → String → String → Control → Control × Result ExportSummary
unfolding cancel_closure
cancel_export s call tenant actor job_id =
    update_checked (cancel_closure s call tenant actor job_id)

abbrev pub retryable_export : ExportJob → Bool
retryable_export job = (is_failed job.status || is_cancelled job.status) && is_set job.finished_at

unfoldable pub owned_retry_source : Control → String → String → String → Result ExportJob
owned_retry_source data_ tenant actor job_id = owned_export data_ tenant actor job_id >>= λ job.
    if not (retryable_export job) || has_execution job_id data_ then err conflict else ok job

abbrev pub fresh_query : Query → Query
fresh_query q = record q { cursor = "" }

-- What a child that names the source must agree in.
unfoldable pub is_successor : ExportJob → String → ExportJob → Bool
is_successor source key child =
    child.id == key
    && not (child.id == source.id)
    && child.tenant_id == source.tenant_id
    && child.requested_by == source.requested_by
    && query_eq child.query (fresh_query source.query)

-- The loop over the map; `found` is the successor so far.
unfoldable pub successor_loop :
    ExportJob → Table ExportJob → Option ExportSummary → Result (Option ExportSummary)
successor_loop source [] found = ok found
successor_loop source ((key, child) ∷ jobs) found =
    let next = successor_loop source jobs (some (summarize_export child)) in
    let rest = successor_loop source jobs found in
    if not (child.retry_of == source.id)
    then rest
    else if not (is_none found) || not (is_successor source key child)
    then err conflict
    else next

abbrev pub export_retry_successor : Control → ExportJob → Result (Option ExportSummary)
export_retry_successor data_ source = successor_loop source data_.exports none

-- The write of a retry. The identifier of the child is `call.fresh 0`.
unfoldable pub retry_create :
    Service → Call → String → String → ExportJob → String → Control → Result (Change ExportSummary)
unfolding append_admin_action
retry_create s call tenant actor source hold_binding data_ =
    let child =
      new_export_job (call.fresh 0) tenant actor (fresh_query source.query) source.id call.now in
    let detail = "retry_of=" +++ source.id in
    let created = admin_action call 1 tenant actor "export.created" "export" child.id detail in
    let retried = admin_action call 2 tenant actor "export.retried" "export" child.id detail in
    let cap = s.max_admin_actions in
    if not (check_export_preflight s data_ tenant hold_binding)
    then err conflict
    else if not (export_queue_has_capacity data_.exports tenant)
    then err quota_exceeded
    else if has child.id data_.exports
    then err conflict
    else save
        (append_admin_action cap
          (append_admin_action cap (record data_ { exports = insert child.id child data_.exports })
            created)
          retried)
        (summarize_export child)

-- One successor, whatever the number of retries.
unfoldable pub retry_successor :
    Service
    → Call
    → String
    → String
    → ExportJob
    → String
    → Control
    → Option ExportSummary
    → Result (Change ExportSummary)
retry_successor s call tenant actor source hold_binding data_ found = elim found [
  | some summary ↦ skip data_ summary
  | none ↦ retry_create s call tenant actor source hold_binding data_
]

unfoldable pub retry_current :
    Service
    → Call
    → String
    → String
    → ExportJob
    → String
    → Control
    → ExportJob
    → Result (Change ExportSummary)
retry_current s call tenant actor source hold_binding data_ current =
    if not (job_eq source current)
    then err conflict
    else export_retry_successor data_ current >>= λ found.
        retry_successor s call tenant actor current hold_binding data_ found

-- The closure of RetryExport, behind the read of `source` and the preflight.
unfoldable pub retry_closure :
    Service → Call → String → String → ExportJob → String → Control → Result (Change ExportSummary)
retry_closure s call tenant actor source hold_binding data_ =
    owned_retry_source data_ tenant actor source.id >>= λ current.
    retry_current s call tenant actor source hold_binding data_ current

unfoldable pub retry_export :
    Service → Call → String → String → ExportJob → String → Control → Control × Result ExportSummary
unfolding retry_closure
retry_export s call tenant actor source hold_binding =
    update_checked (retry_closure s call tenant actor source hold_binding)
