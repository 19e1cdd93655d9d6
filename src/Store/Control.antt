-- ===== src/Store/Control.antt =====
-- internal/store/store.go, Snapshot: the control-plane maps that exports, holds and restores share,
-- and internal/service/admin_trail.go, appendAdminAction. A closure given to `UpdateControlChecked`
-- returns the data that it changed, whether it reports a change, and what it hands to its caller.
pub mod Keeps
use snaplink_audit_governanc.Prelude.{
  ℕ, ◌-◌, Bool, true, false, ◌&&◌, List, [], ◌∷◌, ◌++◌, Table, length, drop, ltb, if◌then◌else◌,
}
use snaplink_audit_governanc.Domain.Errors.{Result, ok, err}
use snaplink_audit_governanc.Domain.Models.{
  Tenant, LegalHold, ExportJob, ExportLease, ExportCheckpoint, ExportPlan, RestoreRun, AdminAction,
}

pub record Control : Type 0 where
  pub tenants : Table Tenant
  pub legal_holds : Table LegalHold
  pub exports : Table ExportJob
  pub export_leases : Table ExportLease
  pub export_checkpoints : Table ExportCheckpoint
  pub export_plans : Table ExportPlan
  pub restore_runs : Table RestoreRun
  pub admin_actions : List AdminAction

abbrev pub new_control : Control
new_control = record {
  tenants = [];
  legal_holds = [];
  exports = [];
  export_leases = [];
  export_checkpoints = [];
  export_plans = [];
  restore_runs = [];
  admin_actions = [];
}

-- The fact goes to the end; past the cap the oldest are dropped.
unfoldable pub append_capped : ℕ → List AdminAction → AdminAction → List AdminAction
append_capped cap actions action =
    let all = actions ++ action ∷ [] in
    if ltb 0 cap && ltb cap (length all) then drop (length all - cap) all else all

unfoldable pub append_admin_action : ℕ → Control → AdminAction → Control
append_admin_action cap data_ action = record data_ {
  admin_actions = append_capped cap data_.admin_actions action;
}

pub record Change {ℓ} (A : Type ℓ) : Type ℓ where
  pub after : Control
  pub changed : Bool
  pub value : A

module _ {ℓ} {A : Type ℓ} where
  -- `return true, nil`
  abbrev pub save : Control → A → Result (Change A)
  save after value = ok (record { after = after; changed = true; value = value })

  -- `return false, nil`
  abbrev pub skip : Control → A → Result (Change A)
  skip after value = ok (record { after = after; changed = false; value = value })

  abbrev pub persist : Control → Result (Change A) → Control × Result A
  persist data_ (err e) = (data_, err e)
  persist data_ (ok c) = (if c.changed then c.after else data_, ok c.value)

  -- One uncontended pass of `UpdateControlChecked`: a closure that fails or reports no change
  -- persists nothing.
  abbrev pub update_checked : (Control → Result (Change A)) → Control → Control × Result A
  update_checked closure data_ = persist data_ (closure data_)
