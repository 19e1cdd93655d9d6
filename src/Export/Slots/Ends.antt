-- ===== src/Export/Slots/Ends.antt =====
-- The ceilings under cancellation, termination and recovery.
use snaplink_audit_governanc.Prelude.{
  ℕ, Table, [], ◌∷◌, ◌≡◌, refl, subst, sym, String, Bool, true, false, not, some, insert, none,
  Option, lookup, insert,
}
use snaplink_audit_governanc.Domain.Models.{ExportJob, is_running}
use snaplink_audit_governanc.Domain.Errors.{Result, ok, err}
use snaplink_audit_governanc.Domain.Errors.Yields.{
  Yields, Yields-ok, Yields-err, Yields-if, Yields-bind, Yields-value,
}
use snaplink_audit_governanc.Service.{Service, Call}
use snaplink_audit_governanc.Store.Control.{Control, append_admin_action}
use snaplink_audit_governanc.Store.Control.Keeps.{
  Saves, saves_rules, Saves-option, Saves-skip, Saves-bind,
}
use snaplink_audit_governanc.Export.Lease.{ExportClaim, owns_export_lease}
use snaplink_audit_governanc.Export.Checkpoint.{Ending}
use snaplink_audit_governanc.Export.Owner.{
  cancelled_job, revoke, cancel_repeated, cancel_owned, cancel_closure,
}
use snaplink_audit_governanc.Export.Terminal.{
  OnWrite, finished_job, finish, terminal_found, terminal_closure,
}
use snaplink_audit_governanc.Export.Recover.{
  Diagnosis, diagnose, recovered_job, fail_job, recover_step, settle, recover_loop,
  recovered_change, recover_closure,
}
use snaplink_audit_governanc.Export.Facts.{not-false, owned_key}
use snaplink_audit_governanc.Export.Slots.Writes.{IsWithinCeilings, rewritten, retired}

cancel_owned-keeps :
    (s : Service) (call : Call) (actor : String) (job : ExportJob) (d : Control)
    → IsWithinCeilings d
    → Saves IsWithinCeilings (cancel_owned s call actor job d)
unfolding cancel_owned cancel_repeated revoke append_admin_action
cancel_owned-keeps s call actor job d w =
    search (saves_rules, retired job.id (cancelled_job job call.now) d w) depth 9

pub cancel_closure-keeps :
    (s : Service) (call : Call) (tenant actor job_id : String) (d : Control)
    → IsWithinCeilings d
    → Saves IsWithinCeilings (cancel_closure s call tenant actor job_id d)
unfolding cancel_closure
cancel_closure-keeps s call tenant actor job_id d w =
    Saves-bind (λ job _. cancel_owned-keeps s call actor job d w)

finish-exports :
    (s : Service) (call : Call) (job : ExportJob) (e : Ending) (on : OnWrite) (d : Control)
    → (finish s call job e on d).exports ≡ insert job.id (finished_job job e on call.now) d.exports
unfolding finish append_admin_action
finish-exports s call job e on d = refl

finish-keeps :
    (s : Service) (call : Call) (claim : ExportClaim) (job : ExportJob) (e : Ending) (on : OnWrite)
    → (d : Control) → IsWithinCeilings d
    → lookup claim.job.id d.exports ≡ some job
    → owns_export_lease d job claim call.now ≡ true
    → IsWithinCeilings (finish s call job e on d)
unfolding finish
finish-keeps s call claim job e on d w found owned =
    let facts : (job.id ≡ claim.job.id) × (is_running job.status ≡ true) =
      owned_key claim job call.now d owned in
    let at : lookup job.id d.exports ≡ some job =
      subst (λ k. lookup k d.exports ≡ some job) (sym facts.0) found in
    rewritten job (finished_job job e on call.now) d w at facts.1 refl
      (finish-exports s call job e on d)

terminal_found-keeps :
    (s : Service) (call : Call) (claim : ExportClaim) (job : ExportJob) (e : Ending) (on : OnWrite)
    → (d : Control) → IsWithinCeilings d
    → lookup claim.job.id d.exports ≡ some job
    → Saves IsWithinCeilings (terminal_found s call claim job e on d)
unfolding terminal_found
terminal_found-keeps s call claim job e on d w found =
    let closed : not (owns_export_lease d job claim call.now) ≡ false
        → IsWithinCeilings (finish s call job e on d) =
      λ owned. finish-keeps s call claim job e on d w found (not-false owned) in
    search (saves_rules, closed) depth 9

pub terminal_closure-keeps :
    (s : Service) (call : Call) (claim : ExportClaim) (e : Ending) (on : OnWrite) (d : Control)
    → IsWithinCeilings d
    → Saves IsWithinCeilings (terminal_closure s call claim e on d)
unfolding terminal_closure
terminal_closure-keeps s call claim e on d w =
    Saves-option Saves-skip (λ job found. terminal_found-keeps s call claim job e on d w found)

settle-keeps :
    (s : Service) (call : Call) (key : String) (job : ExportJob) (acc : Control × ℕ)
    → (verdict : Result (Option Diagnosis)) → IsWithinCeilings acc.0
    → Yields (λ next. IsWithinCeilings next.0) (settle s call key job acc verdict)
unfolding settle fail_job append_admin_action
settle-keeps s call key job acc (err e) w = Yields-err
settle-keeps s call key job acc (ok none) w = Yields-ok w
settle-keeps s call key job (d, n) (ok (some v)) w =
    Yields-ok (retired key (recovered_job job v call.now) d w refl refl)

recover_step-keeps :
    (s : Service) (call : Call) (tenant : String) (legacy : Bool) (key : String) (job : ExportJob)
    → (acc : Control × ℕ) → IsWithinCeilings acc.0
    → Yields (λ next. IsWithinCeilings next.0) (recover_step s call tenant legacy key job acc)
unfolding recover_step
recover_step-keeps s call tenant legacy key job acc w =
    let settled = settle-keeps s call key job acc (diagnose s call.now legacy key job acc.0) w in
    search (Yields-if, Yields-ok, settled)

recover_loop-keeps :
    (s : Service) (call : Call) (tenant : String) (legacy : Bool) (jobs : Table ExportJob)
    → (acc : Control × ℕ) → IsWithinCeilings acc.0
    → Yields (λ next. IsWithinCeilings next.0) (recover_loop s call tenant legacy jobs acc)
unfolding recover_loop
recover_loop-keeps s call tenant legacy [] acc w = Yields-ok w
recover_loop-keeps s call tenant legacy ((key, job) ∷ jobs) acc w =
    Yields-bind (recover_step-keeps s call tenant legacy key job acc w)
      (λ next kept _. recover_loop-keeps s call tenant legacy jobs next kept)

recovered_change-keeps :
    (acc : Control × ℕ) → IsWithinCeilings acc.0 → Saves IsWithinCeilings (recovered_change acc)
unfolding recovered_change
recovered_change-keeps acc w = search (saves_rules, w)

pub recover_closure-keeps :
    (s : Service) (call : Call) (tenant : String) (legacy : Bool) (d : Control)
    → IsWithinCeilings d
    → Saves IsWithinCeilings (recover_closure s call tenant legacy d)
unfolding recover_closure
recover_closure-keeps s call tenant legacy d w = Saves-bind (λ acc done.
    recovered_change-keeps acc
      (Yields-value (recover_loop-keeps s call tenant legacy d.exports (d, 0) w) done))
