-- ===== src/Export/Lease.antt =====
-- internal/service/export_lease.go: the execution lease of a running export.
use snaplink_audit_governanc.Prelude.{
  ℕ, ◌+◌, ◌*◌, String, Bool, true, false, not, ◌&&◌, none, some, lookup, insert, get_or, leb, ltb,
  eqb, ◌==◌, if◌then◌else◌,
}
use snaplink_audit_governanc.Domain.Errors.{Result, ok, err, lease_lost}
use snaplink_audit_governanc.Domain.Models.{
  ExportJob, ExportLease, ExportPlan, ExportCheckpoint, is_running, is_set, not_before, no_job,
  no_lease,
}
use snaplink_audit_governanc.Store.Control.{Control, Change, save, skip, update_checked}

-- 2 * time.Minute
abbrev pub export_lease_duration : ℕ
export_lease_duration = 2 * 60 * 1_000_000_000

-- `exportClaim`; a checkpoint or plan of version 0 is none.
pub record ExportClaim : Type 0 where
  pub job : ExportJob
  pub owner : String
  pub checkpoint : ExportCheckpoint
  pub plan : ExportPlan
  pub hold_binding : String

unfoldable pub valid_export_lease : ExportJob → ExportLease → Bool
valid_export_lease job lease =
    not (job.id == "")
    && not (job.tenant_id == "")
    && eqb lease.version 1
    && lease.job_id == job.id
    && lease.tenant_id == job.tenant_id
    && not (lease.owner == "")
    && is_set job.started_at
    && not (eqb lease.heartbeat_at 0)
    && not_before lease.heartbeat_at job.started_at
    && eqb lease.expires_at (lease.heartbeat_at + export_lease_duration)

-- What is asked of the lease that the job's key holds.
unfoldable pub lease_is_owned : ExportLease → ExportJob → ExportClaim → ℕ → Bool
lease_is_owned lease job claim now =
    valid_export_lease job lease
    && job.id == claim.job.id
    && job.tenant_id == claim.job.tenant_id
    && lease.owner == claim.owner
    && is_running job.status
    && (elim job.finished_at [ none ↦ true | some _ ↦ false ])
    && leb lease.heartbeat_at now
    && ltb now lease.expires_at

unfoldable pub owns_export_lease : Control → ExportJob → ExportClaim → ℕ → Bool
owns_export_lease data_ job claim now = elim (lookup job.id data_.export_leases) [
  | none ↦ false
  | some lease ↦ lease_is_owned lease job claim now
]

renewed : ExportLease → ℕ → ExportLease
renewed lease now = record lease { heartbeat_at = now; expires_at = now + export_lease_duration }

unfoldable pub renew_closure : ExportClaim → ℕ → Control → Result (Change (Unit {0}))
unfolding renewed
renew_closure claim now data_ =
    let id = claim.job.id in
    let job = get_or id no_job data_.exports in
    let lease = get_or id no_lease data_.export_leases in
    if not (owns_export_lease data_ job claim now)
    then err lease_lost
    else if leb now lease.heartbeat_at
    then skip data_ tt
    else save (record data_ { export_leases = insert id (renewed lease now) data_.export_leases })
        tt

-- `renewExportLease`
unfoldable pub renew_export_lease : ExportClaim → ℕ → Control → Control × Result (Unit {0})
unfolding renew_closure
renew_export_lease claim now = update_checked (renew_closure claim now)

-- `checkExportLease`
unfoldable pub check_export_lease : ExportClaim → ℕ → Control → Result (Unit {0})
check_export_lease claim now data_ =
    if owns_export_lease data_ (get_or claim.job.id no_job data_.exports) claim now
    then ok tt
    else err lease_lost
