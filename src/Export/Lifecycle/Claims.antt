-- ===== src/Export/Lifecycle/Claims.antt =====
-- The life cycle under claimExport and persistTerminalExport.
use snaplink_audit_governanc.Prelude.{◌≡◌, sym, subst, String, Bool, true, false, not, some, lookup}
use snaplink_audit_governanc.Domain.Models.{ExportJob, is_running, is_pending}
use snaplink_audit_governanc.Service.{Service, Call}
use snaplink_audit_governanc.Store.Control.{Control, append_admin_action}
use snaplink_audit_governanc.Store.Control.Keeps.{saves_rules, Saves-option, Saves-skip}
use snaplink_audit_governanc.Export.Lease.{ExportClaim, owns_export_lease}
use snaplink_audit_governanc.Export.Checkpoint.{Ending}
use snaplink_audit_governanc.Export.Facts.{not-false, same_key, starts_pending, owned_key}
use snaplink_audit_governanc.Export.Claim.{
  take, started, claim_running, claim_pending, claim_found, is_mismatched, is_unclaimable,
  claim_closure,
}
use snaplink_audit_governanc.Export.Terminal.{
  OnWrite, finished_job, finish, terminal_found, terminal_closure,
}
use snaplink_audit_governanc.Export.Lifecycle.Moves.{
  stays, starts, ends, Enders, HasUniqueKeys, IsSoundStep, IsSoundStep-write, SavesStep,
}

module _ (P : Enders) where
  claim_running_sound :
      (s : Service) (call : Call) (owner : String) (value : ExportJob) (d : Control)
      → HasUniqueKeys d.exports
      → lookup value.id d.exports ≡ some value
      → SavesStep P d (claim_running s call owner value d)
  unfolding claim_running take append_admin_action
  claim_running_sound s call owner value d u found =
      search
        (saves_rules, IsSoundStep-write {P = P} d.exports u value.id (some value) value found stays)
        depth 9

  claim_pending_sound :
      (call : Call) (owner : String) (value : ExportJob) (d : Control)
      → HasUniqueKeys d.exports
      → lookup value.id d.exports ≡ some value
      → is_pending value.status ≡ true
      → SavesStep P d (claim_pending call owner value d)
  unfolding claim_pending take
  claim_pending_sound call owner value d u found pending =
      let job = started value call.now in
      search (
        saves_rules,
        IsSoundStep-write {P = P} d.exports u value.id (some value) job found
            (starts call.now pending),
      )

  claim_found_sound :
      (s : Service) (call : Call) (owner job_id : String) (sealed : Bool) (value : ExportJob)
      → (d : Control) → HasUniqueKeys d.exports
      → lookup job_id d.exports ≡ some value
      → SavesStep P d (claim_found s call owner job_id sealed value d)
  unfolding claim_found
  claim_found_sound s call owner job_id sealed value d u found =
      search
        (
          saves_rules,
          λ (sound : is_mismatched job_id value ≡ false).
              claim_running_sound s call owner value d u (same_key job_id value d found sound),
          λ (sound : is_mismatched job_id value ≡ false)
                (closed : is_unclaimable sealed value ≡ false)
                (idle : is_running value.status ≡ false).
              claim_pending_sound call owner value d u (same_key job_id value d found sound)
                (starts_pending value sealed closed idle),
        )
        depth 9

  pub claim_closure_sound :
      (s : Service) (call : Call) (owner job_id : String) (sealed : Bool) (d : Control)
      → HasUniqueKeys d.exports
      → SavesStep P d (claim_closure s call owner job_id sealed d)
  unfolding claim_closure
  claim_closure_sound s call owner job_id sealed d u =
      Saves-option Saves-skip
        (λ value found. claim_found_sound s call owner job_id sealed value d u found)

  finish_sound :
      (s : Service) (call : Call) (claim : ExportClaim) (job : ExportJob) (e : Ending)
      (on : OnWrite)
      → (d : Control) → HasUniqueKeys d.exports
      → lookup claim.job.id d.exports ≡ some job
      → owns_export_lease d job claim call.now ≡ true
      → P job e on call.now
      → IsSoundStep P d.exports (finish s call job e on d).exports
  unfolding finish
  finish_sound s call claim job e on d u found owned may =
      let facts = owned_key claim job call.now d owned in
      let at : lookup job.id d.exports ≡ some job =
        subst (λ k. lookup k d.exports ≡ some job) (sym facts.0) found in
      IsSoundStep-write {P = P} d.exports u job.id (some job) (finished_job job e on call.now) at
        (ends e on call.now facts.1 may)

  terminal_found_sound :
      (s : Service) (call : Call) (claim : ExportClaim) (job : ExportJob) (e : Ending)
      (on : OnWrite)
      → (d : Control) → HasUniqueKeys d.exports
      → lookup claim.job.id d.exports ≡ some job
      → (owns_export_lease d job claim call.now ≡ true → P job e on call.now)
      → SavesStep P d (terminal_found s call claim job e on d)
  unfolding terminal_found
  terminal_found_sound s call claim job e on d u found may =
      let closed : not (owns_export_lease d job claim call.now) ≡ false
          → IsSoundStep P d.exports (finish s call job e on d).exports =
        λ owned.
          finish_sound s call claim job e on d u found (not-false owned) (may (not-false owned)) in
      search (saves_rules, closed) depth 9

  pub terminal_closure_sound :
      (s : Service) (call : Call) (claim : ExportClaim) (e : Ending) (on : OnWrite) (d : Control)
      → HasUniqueKeys d.exports
      → ((job : ExportJob) → owns_export_lease d job claim call.now ≡ true → P job e on call.now)
      → SavesStep P d (terminal_closure s call claim e on d)
  unfolding terminal_closure
  terminal_closure_sound s call claim e on d u may =
      Saves-option Saves-skip
        (λ job found. terminal_found_sound s call claim job e on d u found (may job))
