-- ===== src/Examples/Fixtures.antt =====
-- A service with constant codes, one call, and jobs in each state.
use snaplink_audit_governanc.Prelude.{ℕ, String, Option, none, some, [], ◌∷◌}
use snaplink_audit_governanc.Domain.Models.{
  ExportJob, ExportLease, Status, pending, running, completed, no_job, no_plan, no_checkpoint,
}
use snaplink_audit_governanc.Service.{Service, Call}
use snaplink_audit_governanc.Store.Control.{Control, new_control}
use snaplink_audit_governanc.Export.Lease.{ExportClaim}

abbrev pub demo : Service
demo = record {
  stuck_export_age = 1000;
  max_admin_actions = 3;
  mac_scope = λ label scope. label;
  mac_text = λ label text. label;
  mac_plan = λ label plan. label;
  mac_checkpoint = λ label checkpoint. label;
  mac_holds = λ label holds. label;
  json_size = λ plan. 1;
  format_time = λ t. "time";
  format_int = λ n. "number";
}

abbrev pub call : Call
call = record { now = 10; fresh = λ i. "new" }

abbrev pub job_in : Status → Option ℕ → Option ℕ → ExportJob
job_in status started finished = record no_job {
  id = "e1";
  tenant_id = "acme";
  requested_by = "alice";
  status = status;
  created_at = 1;
  started_at = started;
  finished_at = finished;
}

abbrev pub waiting : ExportJob
waiting = job_in pending none none

abbrev pub executing : ExportJob
executing = job_in running (some 2) none

abbrev pub done : ExportJob
done = job_in completed (some 2) (some 5)

abbrev pub holding : ExportJob → Control
holding job = record new_control { exports = ("e1", job) ∷ [] }

abbrev pub live_lease : ExportLease
live_lease = record {
  version = 1;
  job_id = "e1";
  tenant_id = "acme";
  owner = "w1";
  heartbeat_at = 5;
  expires_at = 120_000_000_005;
}

abbrev pub leased : Control
leased = record (holding executing) { export_leases = ("e1", live_lease) ∷ [] }

abbrev pub claim_of : ExportJob → String → ExportClaim
claim_of job owner = record {
  job = job;
  owner = owner;
  checkpoint = no_checkpoint;
  plan = no_plan;
  hold_binding = "";
}
