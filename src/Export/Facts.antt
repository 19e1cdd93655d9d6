-- ===== src/Export/Facts.antt =====
-- What the guards of a claim and of an owner's write say of the job.
use snaplink_audit_governanc.Prelude.{
  ℕ, ◌≡◌, refl, String, Bool, true, false, not, some, lookup, eq_iff, arith,
}
use snaplink_audit_governanc.Domain.Models.{ExportJob, is_running, is_pending}
use snaplink_audit_governanc.Store.Control.{Control}
use snaplink_audit_governanc.Export.Lease.{ExportClaim, owns_export_lease, lease_is_owned}
use snaplink_audit_governanc.Export.Claim.{is_mismatched, is_unclaimable}

pub not-false : {b : Bool} → not b ≡ false → b ≡ true
not-false {b = true} h = refl
not-false {b = false} h = cc

pub same_key :
    (job_id : String) (value : ExportJob) (d : Control)
    → lookup job_id d.exports ≡ some value
    → is_mismatched job_id value ≡ false
    → lookup value.id d.exports ≡ some value
same_key job_id value d found sound = ground (arith, found, eq_iff value.id job_id)

pub starts_pending :
    (value : ExportJob) (sealed : Bool)
    → is_unclaimable sealed value ≡ false
    → is_running value.status ≡ false
    → is_pending value.status ≡ true
starts_pending value sealed h idle = ground arith

pub owned_key :
    (claim : ExportClaim) (job : ExportJob) (now : ℕ) (d : Control)
    → owns_export_lease d job claim now ≡ true
    → (job.id ≡ claim.job.id) × (is_running job.status ≡ true)
unfolding owns_export_lease lease_is_owned
owned_key claim job now d owned = ground (arith, eq_iff job.id claim.job.id)
