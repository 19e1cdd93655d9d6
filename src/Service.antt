-- ===== src/Service.antt =====
-- internal/service/service.go: the configuration of a service, and what it takes from outside the
-- repository: HMAC-SHA256 over a JSON encoding (queryMAC), the length of a JSON encoding, RFC 3339.
use snaplink_audit_governanc.Prelude.{ℕ, String, Option, Table}
use snaplink_audit_governanc.Domain.Models.{
  Query, ExportPlan, ExportCheckpoint, LegalHold, AdminAction,
}

-- The anonymous struct of `exportCheckpointBinding`.
pub record ExportScope : Type 0 where
  pub id : String
  pub tenant : String
  pub requester : String
  pub retry_of : String
  pub created_at : ℕ
  pub started_at : Option ℕ
  pub query : Query

pub record Service : Type 0 where
  -- Config.StuckExportAge and Config.MaxAdminActions
  pub stuck_export_age : ℕ
  pub max_admin_actions : ℕ
  -- queryMAC at the types that it is called at
  pub mac_scope : String → ExportScope → String
  pub mac_text : String → String → String
  pub mac_plan : String → ExportPlan → String
  pub mac_checkpoint : String → ExportCheckpoint → String
  pub mac_holds : String → Table LegalHold → String
  -- len(json.Marshal(plan)), time.Format(time.RFC3339), fmt.Sprintf("%d")
  pub json_size : ExportPlan → ℕ
  pub format_time : ℕ → String
  pub format_int : ℕ → String

-- One call of a method: the clock, read once, and the identifiers that `newID` draws in it.
pub record Call : Type 0 where
  pub now : ℕ
  pub fresh : ℕ → String

unfoldable pub admin_action :
    Call → ℕ → String → String → String → String → String → String → AdminAction
admin_action call i tenant actor action target_type target detail = record {
  id = call.fresh i;
  tenant_id = tenant;
  actor = actor;
  action = action;
  target_type = target_type;
  target_id = target;
  detail = detail;
  created_at = call.now;
}
