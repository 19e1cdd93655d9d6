-- ===== src/Export/Slots/Admissions.antt =====
-- The ceilings under CreateExport, RetryExport and a heartbeat.
use snaplink_audit_governanc.Prelude.{ℕ, String, some, none, Option}
use snaplink_audit_governanc.Domain.Models.{ExportJob, ExportSummary, Query}
use snaplink_audit_governanc.Service.{Service, Call}
use snaplink_audit_governanc.Store.Control.{Control, append_admin_action}
use snaplink_audit_governanc.Store.Control.Keeps.{
  Saves, saves_rules, Saves-if, Saves-refuse, Saves-save, Saves-skip, Saves-bind,
}
use snaplink_audit_governanc.Export.Lease.{ExportClaim, renew_closure}
use snaplink_audit_governanc.Export.Queue.{create_closure}
use snaplink_audit_governanc.Export.Owner.{
  fresh_query, retry_create, retry_successor, retry_current, retry_closure,
}
use snaplink_audit_governanc.Export.Slots.Writes.{IsWithinCeilings, admitted, same_exports}

pub create_closure-keeps :
    (s : Service) (call : Call) (tenant actor : String) (query : Query) (binding : String)
    → (d : Control) → IsWithinCeilings d
    → Saves IsWithinCeilings (create_closure s call tenant actor query binding d)
unfolding create_closure append_admin_action
create_closure-keeps s call tenant actor query binding d w =
    search (Saves-refuse, Saves-save, admitted call tenant actor query "" d w)

retry_create-keeps :
    (s : Service) (call : Call) (tenant actor : String) (source : ExportJob) (binding : String)
    → (d : Control) → IsWithinCeilings d
    → Saves IsWithinCeilings (retry_create s call tenant actor source binding d)
unfolding retry_create append_admin_action
retry_create-keeps s call tenant actor source binding d w =
    search (
      Saves-refuse,
      Saves-save,
      admitted call tenant actor (fresh_query source.query) source.id d w,
    )

retry_successor-keeps :
    (s : Service) (call : Call) (tenant actor : String) (source : ExportJob) (binding : String)
    → (d : Control) → IsWithinCeilings d
    → (found : Option ExportSummary)
    → Saves IsWithinCeilings (retry_successor s call tenant actor source binding d found)
unfolding retry_successor
retry_successor-keeps s call tenant actor source binding d w none =
    retry_create-keeps s call tenant actor source binding d w
retry_successor-keeps s call tenant actor source binding d w (some summary) = Saves-skip

retry_current-keeps :
    (s : Service) (call : Call) (tenant actor : String) (source : ExportJob) (binding : String)
    → (d : Control) (current : ExportJob) → IsWithinCeilings d
    → Saves IsWithinCeilings (retry_current s call tenant actor source binding d current)
unfolding retry_current
retry_current-keeps s call tenant actor source binding d current w =
    let next = λ (found : Option ExportSummary).
      retry_successor-keeps s call tenant actor current binding d w found in
    search (saves_rules, next) depth 9

pub retry_closure-keeps :
    (s : Service) (call : Call) (tenant actor : String) (source : ExportJob) (binding : String)
    → (d : Control) → IsWithinCeilings d
    → Saves IsWithinCeilings (retry_closure s call tenant actor source binding d)
unfolding retry_closure
retry_closure-keeps s call tenant actor source binding d w =
    Saves-bind (λ current _. retry_current-keeps s call tenant actor source binding d current w)

pub renew_closure-keeps :
    (claim : ExportClaim) (now : ℕ) (d : Control)
    → IsWithinCeilings d
    → Saves IsWithinCeilings (renew_closure claim now d)
unfolding renew_closure
renew_closure-keeps claim now d w =
    search (Saves-refuse, Saves-if, Saves-skip, Saves-save, same_exports d w)
