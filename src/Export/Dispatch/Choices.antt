-- ===== src/Export/Dispatch/Choices.antt =====
-- What the dispatcher may choose.
use snaplink_audit_governanc.Prelude.{
  ℕ, ◌≤◌, ◌≡◌, ◌⊎◌, String, true, false, ◌||◌, [], ◌∷◌, Table, get_or, has,
}
use snaplink_audit_governanc.Domain.Models.{ExportJob, is_pending, is_running, no_job, no_lease}
use snaplink_audit_governanc.Store.Control.{Control}
use snaplink_audit_governanc.Export.Plan.{is_none}
use snaplink_audit_governanc.Export.Lease.{valid_export_lease}
use snaplink_audit_governanc.Export.Queue.{
  export_checkpoint_has_capacity, export_claim_has_capacity,
}
use snaplink_audit_governanc.Export.Dispatch.{is_reclaimable}

-- The job stands in the table under the key.
abbrev pub Stands : String → ExportJob → Table ExportJob → Type 0
Stands id job [] = ⊥
Stands id job ((other, held) ∷ rest) = ((id ≡ other) × (job ≡ held)) ⊎ Stands id job rest

-- A running export of planned or sealed work, under its own key, whose valid lease has expired, that
-- this process does not run, and for which there is room.
pub record IsReclaim (data_ : Control) (active : Table String) (now : ℕ) (job : ExportJob)
    : Type 0 where
  pub stands : Stands job.id job data_.exports
  pub running : is_running job.status ≡ true
  pub unfinished : is_none job.finished_at ≡ true
  pub prepared : (has job.id data_.export_checkpoints || has job.id data_.export_plans) ≡ true
  pub idle : has job.id active ≡ false
  pub valid : valid_export_lease job (get_or job.id no_lease data_.export_leases) ≡ true
  pub expired : (get_or job.id no_lease data_.export_leases).expires_at ≤ now
  pub room : export_checkpoint_has_capacity data_.exports job.tenant_id ≡ true

-- The table holds no export to reclaim.
pub record NothingToReclaim (data_ : Control) (active : Table String) (now : ℕ) : Type 0 where
  pub at :
      (id : String) (job : ExportJob)
      → Stands id job data_.exports
      → is_reclaimable data_ active now id job ≡ false

pub data IsDispatched (data_ : Control) (active : Table String) (now : ℕ) (job : ExportJob)
    : Type 0 where
  reclaims : IsReclaim data_ active now job → IsDispatched data_ active now job
  starts :
      NothingToReclaim data_ active now
      → is_pending job.status ≡ true
      → export_claim_has_capacity data_.exports job.tenant_id ≡ true
      → IsDispatched data_ active now job
  waits : NothingToReclaim data_ active now → job ≡ no_job → IsDispatched data_ active now job
