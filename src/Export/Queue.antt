-- ===== src/Export/Queue.antt =====
-- internal/service/export_scheduler.go and export_checkpoint_schedule.go: the shared ceilings on
-- queued and running exports, and internal/service/export.go, the admission of CreateExport.
use snaplink_audit_governanc.Prelude.{
  ℕ, String, Bool, not, ◌&&◌, ◌||◌, Table, count, insert, ltb, leb, ◌==◌, ◌+++◌, if◌then◌else◌,
}
use snaplink_audit_governanc.Domain.Errors.{Result, err, conflict, quota_exceeded}
use snaplink_audit_governanc.Domain.Models.{
  Query, ExportJob, pending, is_pending, is_running, no_job,
}
use snaplink_audit_governanc.Service.{Service, Call, admin_action}
use snaplink_audit_governanc.Store.Control.{
  Control, Change, append_admin_action, save, update_checked,
}
use snaplink_audit_governanc.Export.Checkpoint.{export_hold_binding}

abbrev pub export_concurrency : ℕ
export_concurrency = 2

abbrev pub export_tenant_concurrency : ℕ
export_tenant_concurrency = 1

abbrev pub max_pending_exports_per_tenant : ℕ
max_pending_exports_per_tenant = 32

abbrev pub max_pending_exports : ℕ
max_pending_exports = 128

abbrev pub is_queued : ExportJob → Bool
is_queued job = is_pending job.status || is_running job.status

abbrev pub is_queued_of : String → ExportJob → Bool
is_queued_of tenant job = is_queued job && job.tenant_id == tenant

abbrev pub occupies : ExportJob → Bool
occupies job = is_running job.status

abbrev pub occupies_of : String → ExportJob → Bool
occupies_of tenant job = is_running job.status && job.tenant_id == tenant

unfoldable pub export_queue_has_capacity : Table ExportJob → String → Bool
export_queue_has_capacity jobs tenant =
    ltb (count is_queued jobs) max_pending_exports
    && ltb (count (is_queued_of tenant) jobs) max_pending_exports_per_tenant

unfoldable pub export_claim_has_capacity : Table ExportJob → String → Bool
export_claim_has_capacity jobs tenant =
    ltb (count occupies jobs) export_concurrency
    && ltb (count (occupies_of tenant) jobs) export_tenant_concurrency

unfoldable pub export_checkpoint_has_capacity : Table ExportJob → String → Bool
export_checkpoint_has_capacity jobs tenant =
    leb (count occupies jobs) export_concurrency
    && leb (count (occupies_of tenant) jobs) export_tenant_concurrency

-- `checkExportPreflight`: the tenant's active holds are those that the preflight saw.
unfoldable pub check_export_preflight : Service → Control → String → String → Bool
unfolding export_hold_binding
check_export_preflight s data_ tenant hold_binding =
    not (hold_binding == "") && hold_binding == export_hold_binding s data_ tenant

abbrev pub new_export_job : String → String → String → Query → String → ℕ → ExportJob
new_export_job id tenant actor query retry_of now = record no_job {
  id = id;
  tenant_id = tenant;
  requested_by = actor;
  query = query;
  status = pending;
  retry_of = retry_of;
  created_at = now;
}

-- The admission of `CreateExport`, behind the evidence preflight that yields `hold_binding`. The
-- new identifier is `call.fresh 0`.
unfoldable pub create_closure :
    Service → Call → String → String → Query → String → Control → Result (Change ExportJob)
unfolding append_admin_action
create_closure s call tenant actor query hold_binding data_ =
    let job = new_export_job (call.fresh 0) tenant actor query "" call.now in
    let detail =
      "from=" +++ (s.format_time query.from_time +++ (" to=" +++ s.format_time query.to_time)) in
    let fact = admin_action call 1 tenant actor "export.created" "export" job.id detail in
    if not (check_export_preflight s data_ tenant hold_binding)
    then err conflict
    else if not (export_queue_has_capacity data_.exports tenant)
    then err quota_exceeded
    else save
        (append_admin_action s.max_admin_actions
          (record data_ { exports = insert job.id job data_.exports }) fact)
        job

-- Behind requireTenantScope: here any tenant gets through.
unfoldable pub create_export :
    Service → Call → String → String → Query → String → Control → Control × Result ExportJob
unfolding create_closure
create_export s call tenant actor query hold_binding =
    update_checked (create_closure s call tenant actor query hold_binding)
