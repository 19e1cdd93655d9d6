-- ===== src/Export/Slots/Starts.antt =====
-- The ceilings under claimExport.
use snaplink_audit_governanc.Prelude.{◌≡◌, refl, String, Bool, true, false, some, lookup}
use snaplink_audit_governanc.Domain.Models.{ExportJob, is_running, is_pending}
use snaplink_audit_governanc.Service.{Service, Call}
use snaplink_audit_governanc.Store.Control.{Control, append_admin_action}
use snaplink_audit_governanc.Store.Control.Keeps.{
  Saves, saves_rules, Saves-if, Saves-option, Saves-refuse, Saves-save, Saves-skip, Saves-bind,
}
use snaplink_audit_governanc.Export.Facts.{same_key, starts_pending}
use snaplink_audit_governanc.Export.Claim.{
  take, claim_running, claim_pending, claim_found, is_mismatched, is_unclaimable, claim_closure,
}
use snaplink_audit_governanc.Export.Slots.Writes.{IsWithinCeilings, rewritten, admitted_start}

claim_running-keeps :
    (s : Service) (call : Call) (owner : String) (value : ExportJob) (d : Control)
    → IsWithinCeilings d
    → lookup value.id d.exports ≡ some value
    → is_running value.status ≡ true
    → Saves IsWithinCeilings (claim_running s call owner value d)
unfolding claim_running take append_admin_action
claim_running-keeps s call owner value d w found running =
    search
      (
        Saves-if,
        Saves-refuse,
        Saves-skip,
        Saves-bind,
        Saves-save,
        rewritten value value d w found running refl,
      )
      depth 9

claim_pending-keeps :
    (call : Call) (owner : String) (value : ExportJob) (d : Control)
    → IsWithinCeilings d
    → lookup value.id d.exports ≡ some value
    → is_pending value.status ≡ true
    → Saves IsWithinCeilings (claim_pending call owner value d)
unfolding claim_pending take
claim_pending-keeps call owner value d w found pending = search (
  Saves-if,
  Saves-refuse,
  Saves-skip,
  Saves-save,
  admitted_start value call.now d w found pending,
)

claim_found-keeps :
    (s : Service) (call : Call) (owner job_id : String) (sealed : Bool) (value : ExportJob)
    → (d : Control) → IsWithinCeilings d
    → lookup job_id d.exports ≡ some value
    → Saves IsWithinCeilings (claim_found s call owner job_id sealed value d)
unfolding claim_found
claim_found-keeps s call owner job_id sealed value d w found =
    let at : is_mismatched job_id value ≡ false → lookup value.id d.exports ≡ some value =
      same_key job_id value d found in
    search
      (
        saves_rules,
        λ (sound : is_mismatched job_id value ≡ false).
            claim_running-keeps s call owner value d w (at sound),
        λ (sound : is_mismatched job_id value ≡ false)
              (closed : is_unclaimable sealed value ≡ false)
              (idle : is_running value.status ≡ false).
            claim_pending-keeps call owner value d w (at sound)
              (starts_pending value sealed closed idle),
      )
      depth 9

pub claim_closure-keeps :
    (s : Service) (call : Call) (owner job_id : String) (sealed : Bool) (d : Control)
    → IsWithinCeilings d
    → Saves IsWithinCeilings (claim_closure s call owner job_id sealed d)
unfolding claim_closure
claim_closure-keeps s call owner job_id sealed d w =
    Saves-option Saves-skip
      (λ value found. claim_found-keeps s call owner job_id sealed value d w found)
