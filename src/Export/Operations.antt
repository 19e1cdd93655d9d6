-- ===== src/Export/Operations.antt =====
-- The operations of internal/service on the table of exports, as the steps of one history: each is one
-- checked update, and the store serialises them (Store.Cas). The operations of the HTTP side
-- (CreateExport, CancelExport, RetryExport) and of the workers (claimExport, renewExportLease,
-- persistTerminalExport, recoverExportJobs) interleave in any order.
use snaplink_audit_governanc.Prelude.{String, Bool, List, [], ◌∷◌}
use snaplink_audit_governanc.Domain.Models.{Query, ExportJob}
use snaplink_audit_governanc.Service.{Service, Call}
use snaplink_audit_governanc.Store.Control.{Control}
use snaplink_audit_governanc.Export.Lease.{ExportClaim, renew_export_lease}
use snaplink_audit_governanc.Export.Checkpoint.{Ending}
use snaplink_audit_governanc.Export.Queue.{create_export}
use snaplink_audit_governanc.Export.Claim.{claim_export}
use snaplink_audit_governanc.Export.Recover.{recover_export_jobs}
use snaplink_audit_governanc.Export.Owner.{cancel_export, retry_export}
use snaplink_audit_governanc.Export.Terminal.{OnWrite, persist_terminal_export}

pub data Operation : Type 0 where
  create : (tenant actor : String) → Query → (hold_binding : String) → Operation
  retry : (tenant actor : String) → ExportJob → (hold_binding : String) → Operation
  cancel : (tenant actor job_id : String) → Operation
  claim : (owner job_id : String) → (allow_checkpoint : Bool) → Operation
  renew : ExportClaim → Operation
  finish : ExportClaim → Ending → OnWrite → Operation
  recover : (tenant : String) → (include_legacy : Bool) → Operation

-- The data after one operation, whether it succeeds or fails.
unfoldable pub perform : Service → Call → Operation → Control → Control
unfolding create_export retry_export cancel_export claim_export renew_export_lease
    persist_terminal_export recover_export_jobs
perform s call (create tenant actor query b) d = (create_export s call tenant actor query b d).0
perform s call (retry tenant actor source b) d = (retry_export s call tenant actor source b d).0
perform s call (cancel tenant actor job_id) d = (cancel_export s call tenant actor job_id d).0
perform s call (claim owner job_id allow) d = (claim_export s call owner job_id allow d).0
perform s call (renew c) d = (renew_export_lease c call.now d).0
perform s call (finish c e on) d = (persist_terminal_export s call c e on d).0
perform s call (recover tenant legacy) d = (recover_export_jobs s call tenant legacy d).0

unfoldable pub perform_all : Service → List (Call × Operation) → Control → Control
perform_all s [] d = d
perform_all s ((call, op) ∷ ops) d = perform_all s ops (perform s call op d)
