-- ===== src/Export/Lifecycle/Requests.antt =====
-- The life cycle under CreateExport, RetryExport, CancelExport and a heartbeat.
use snaplink_audit_governanc.Prelude.{
  ℕ, Table, ◌≡◌, refl, String, false, some, none, Option, Option-cases, lookup, eq_iff, arith, inl,
  inr, has,
}
use snaplink_audit_governanc.Domain.Models.{ExportJob, ExportSummary, Query}
use snaplink_audit_governanc.Domain.Errors.{ok}
use snaplink_audit_governanc.Service.{Service, Call}
use snaplink_audit_governanc.Store.Control.{Control, append_admin_action}
use snaplink_audit_governanc.Store.Control.Keeps.{saves_rules, Saves-skip, Saves-bind}
use snaplink_audit_governanc.Export.Lease.{ExportClaim, renew_closure}
use snaplink_audit_governanc.Export.Queue.{new_export_job, create_closure}
use snaplink_audit_governanc.Export.Owner.{
  owned_export, fresh_query, cancelled_job, revoke, cancel_repeated, is_closed, cancel_owned,
  cancel_closure, retry_create, retry_successor, retry_current, retry_closure,
}
use snaplink_audit_governanc.Export.Lifecycle.Moves.{
  admits, cancels, Enders, HasUniqueKeys, IsSoundStep-same, IsSoundStep-write, SavesStep,
}

module _ (P : Enders) where
  pub create_closure_sound :
      (s : Service) (call : Call) (tenant actor : String) (query : Query) (binding : String)
      → (d : Control) → HasUniqueKeys d.exports
      → lookup (call.fresh 0) d.exports ≡ none
      → SavesStep P d (create_closure s call tenant actor query binding d)
  unfolding create_closure append_admin_action
  create_closure_sound s call tenant actor query binding d u fresh =
      let job = new_export_job (call.fresh 0) tenant actor query "" call.now in
      search
        (saves_rules, IsSoundStep-write {P = P} d.exports u job.id none job fresh (admits refl))

  missing : (m : Table ExportJob) (k : String) → has k m ≡ false → lookup k m ≡ none
  missing m k h = ground arith

  retry_create_sound :
      (s : Service) (call : Call) (tenant actor : String) (source : ExportJob) (binding : String)
      → (d : Control) → HasUniqueKeys d.exports
      → SavesStep P d (retry_create s call tenant actor source binding d)
  unfolding retry_create append_admin_action
  retry_create_sound s call tenant actor source binding d u =
      let child =
        new_export_job (call.fresh 0) tenant actor (fresh_query source.query) source.id call.now in
      search (
        saves_rules,
        λ (apart : has child.id d.exports ≡ false).
            IsSoundStep-write {P = P} d.exports u child.id none child
              (missing d.exports child.id apart) (admits refl),
      )

  retry_successor_sound :
      (s : Service) (call : Call) (tenant actor : String) (source : ExportJob) (binding : String)
      → (d : Control) → HasUniqueKeys d.exports
      → (found : Option ExportSummary)
      → SavesStep P d (retry_successor s call tenant actor source binding d found)
  unfolding retry_successor
  retry_successor_sound s call tenant actor source binding d u none =
      retry_create_sound s call tenant actor source binding d u
  retry_successor_sound s call tenant actor source binding d u (some summary) = Saves-skip

  retry_current_sound :
      (s : Service) (call : Call) (tenant actor : String) (source : ExportJob) (binding : String)
      → (d : Control) (current : ExportJob) → HasUniqueKeys d.exports
      → SavesStep P d (retry_current s call tenant actor source binding d current)
  unfolding retry_current
  retry_current_sound s call tenant actor source binding d current u =
      let next = λ (found : Option ExportSummary).
        retry_successor_sound s call tenant actor current binding d u found in
      search (saves_rules, next) depth 9

  pub retry_closure_sound :
      (s : Service) (call : Call) (tenant actor : String) (source : ExportJob) (binding : String)
      → (d : Control) → HasUniqueKeys d.exports
      → SavesStep P d (retry_closure s call tenant actor source binding d)
  unfolding retry_closure
  retry_closure_sound s call tenant actor source binding d u =
      Saves-bind (λ current _. retry_current_sound s call tenant actor source binding d current u)

  pub renew_closure_sound :
      (claim : ExportClaim) (now : ℕ) (d : Control)
      → HasUniqueKeys d.exports
      → SavesStep P d (renew_closure claim now d)
  unfolding renew_closure
  renew_closure_sound claim now d u = search (saves_rules, IsSoundStep-same d.exports u)

  owned_export-lookup :
      (d : Control) (tenant actor job_id : String) (job : ExportJob)
      → owned_export d tenant actor job_id ≡ ok job
      → lookup job.id d.exports ≡ some job
  unfolding owned_export
  owned_export-lookup d tenant actor job_id job h = elim (Option-cases (lookup job_id d.exports)) [
    | inl gone ↦ ground (arith, h, gone)
    | inr (found, at) ↦ ground (arith, h, at, eq_iff found.id job_id)
  ]

  cancel_owned_sound :
      (s : Service) (call : Call) (actor : String) (job : ExportJob) (d : Control)
      → HasUniqueKeys d.exports
      → lookup job.id d.exports ≡ some job
      → SavesStep P d (cancel_owned s call actor job d)
  unfolding cancel_owned cancel_repeated revoke append_admin_action
  cancel_owned_sound s call actor job d u found =
      search
        (
          saves_rules,
          λ (live : is_closed job ≡ false).
              IsSoundStep-write {P = P} d.exports u job.id (some job) (cancelled_job job call.now)
                found (cancels call.now (ground (arith, live))),
        )
        depth 9

  pub cancel_closure_sound :
      (s : Service) (call : Call) (tenant actor job_id : String) (d : Control)
      → HasUniqueKeys d.exports
      → SavesStep P d (cancel_closure s call tenant actor job_id d)
  unfolding cancel_closure
  cancel_closure_sound s call tenant actor job_id d u = Saves-bind (λ job found.
      cancel_owned_sound s call actor job d u (owned_export-lookup d tenant actor job_id job found))
