-- ===== src/Domain/Models.antt =====
-- internal/domain/models.go and the private records of internal/store: exports, holds, restores.
-- A `time.Time` is a number of nanoseconds, 0 the zero time; a `*time.Time` is an `Option`.
use snaplink_audit_governanc.Prelude.{
  ℤ, ℕ, String, Bool, true, false, not, Option, none, some, List, [], ◌∷◌, any, eqb, leb, ◌==◌,
  if◌then◌else◌,
}

pub record Query : Type 0 where
  pub from_time : ℕ
  pub to_time : ℕ
  pub event_type : String
  pub source_system : String
  pub actor_id : String
  pub target_id : String
  pub aggregate_type : String
  pub aggregate_id : String
  pub operation_id : String
  pub causation_id : String
  pub correlation_id : String
  pub trace_id : String
  pub outcome : String
  pub payload_field : String
  pub payload_digest : String
  pub stream_id : String
  pub cursor : String
  pub page_size : ℕ

-- `ExportJob.Status`: the words that the service writes, and any other persisted text.
pub data Status : Type 0 where
  pending running completed failed cancelled : Status
  other : String → Status

pub record ExportJob : Type 0 where
  pub id : String
  pub tenant_id : String
  pub requested_by : String
  pub query : Query
  pub status : Status
  pub retry_of : String
  pub failure_code : String
  pub created_at : ℕ
  pub started_at : Option ℕ
  pub finished_at : Option ℕ
  pub object_path : String
  pub digest : String
  pub event_count : ℕ
  pub error : String

pub record ExportLease : Type 0 where
  pub version : ℕ
  pub job_id : String
  pub tenant_id : String
  pub owner : String
  pub heartbeat_at : ℕ
  pub expires_at : ℕ

pub record PlanMember : Type 0 where
  pub occurred_at : ℕ
  pub event_id : String
  pub stream_id : String
  pub sequence : ℕ
  pub hash : String
  pub schema_id : String
  pub schema_version : ℕ
  pub schema_digest : String

pub record PlanChunk : Type 0 where
  pub seal_version : ℕ
  pub first : ℕ
  pub count : ℕ
  pub object_path : String
  pub sealed_digest : String
  pub digest : String
  pub created_at : ℕ

pub record ExportPlan : Type 0 where
  pub version : ℕ
  pub format_version : ℕ
  pub job_id : String
  pub tenant_id : String
  pub binding : String
  pub created_at : ℕ
  pub members : List PlanMember
  pub chunks : List PlanChunk
  pub signature : String

pub record ExportCheckpoint : Type 0 where
  pub version : ℕ
  pub seal_version : ℕ
  pub job_id : String
  pub tenant_id : String
  pub binding : String
  pub object_path : String
  pub sealed_digest : String
  pub digest : String
  pub event_count : ℕ
  pub created_at : ℕ
  pub signature : String

pub record LegalHold : Type 0 where
  pub id : String
  pub tenant_id : String
  pub name : String
  pub reason : String
  pub filter : Query
  pub created_by : String
  pub created_at : ℕ
  pub released_at : Option ℕ
  pub released_by : String

pub data RestoreStatus : Type 0 where
  pending_approval approved rejected : RestoreStatus
  other : String → RestoreStatus

pub record RestoreRun : Type 0 where
  pub id : String
  pub tenant_id : String
  pub operation_id : String
  pub status : RestoreStatus
  pub reason : String
  pub created_by : String
  pub created_at : ℕ
  pub approved_by : String
  pub approved_at : Option ℕ
  pub rejected_by : String
  pub rejected_at : Option ℕ

pub record AdminAction : Type 0 where
  pub id : String
  pub tenant_id : String
  pub actor : String
  pub action : String
  pub target_type : String
  pub target_id : String
  pub detail : String
  pub created_at : ℕ

pub record Tenant : Type 0 where
  pub id : String
  pub active : Bool
  -- a rate that is not positive, which is no limit, is 0; the burst has its sign
  pub events_per_second : ℕ
  pub burst : ℤ

abbrev pub is_pending : Status → Bool
is_pending pending = true
is_pending _ = false

abbrev pub is_running : Status → Bool
is_running running = true
is_running _ = false

abbrev pub is_completed : Status → Bool
is_completed completed = true
is_completed _ = false

abbrev pub is_failed : Status → Bool
is_failed failed = true
is_failed _ = false

abbrev pub is_cancelled : Status → Bool
is_cancelled cancelled = true
is_cancelled _ = false

-- `t != nil && !t.IsZero()` for a `*time.Time`.
abbrev pub is_set : Option ℕ → Bool
is_set none = false
is_set (some n) = not (eqb n 0)

-- `!t.Before(*start)`, false where there is no start
abbrev pub not_before : ℕ → Option ℕ → Bool
not_before t none = false
not_before t (some s) = leb s t

abbrev pub no_query : Query
no_query = record {
  from_time = 0;
  to_time = 0;
  event_type = "";
  source_system = "";
  actor_id = "";
  target_id = "";
  aggregate_type = "";
  aggregate_id = "";
  operation_id = "";
  causation_id = "";
  correlation_id = "";
  trace_id = "";
  outcome = "";
  payload_field = "";
  payload_digest = "";
  stream_id = "";
  cursor = "";
  page_size = 0;
}

-- What a read of a missing key of the `Exports` map yields.
abbrev pub no_job : ExportJob
no_job = record {
  id = "";
  tenant_id = "";
  requested_by = "";
  query = no_query;
  status = other "";
  retry_of = "";
  failure_code = "";
  created_at = 0;
  started_at = none;
  finished_at = none;
  object_path = "";
  digest = "";
  event_count = 0;
  error = "";
}

abbrev pub no_lease : ExportLease
no_lease = record {
  version = 0;
  job_id = "";
  tenant_id = "";
  owner = "";
  heartbeat_at = 0;
  expires_at = 0;
}

abbrev pub no_plan : ExportPlan
no_plan = record {
  version = 0;
  format_version = 0;
  job_id = "";
  tenant_id = "";
  binding = "";
  created_at = 0;
  members = [];
  chunks = [];
  signature = "";
}

abbrev pub no_checkpoint : ExportCheckpoint
no_checkpoint = record {
  version = 0;
  seal_version = 0;
  job_id = "";
  tenant_id = "";
  binding = "";
  object_path = "";
  sealed_digest = "";
  digest = "";
  event_count = 0;
  created_at = 0;
  signature = "";
}

-- domain.ExportSummary and SummarizeExport
pub record ExportSummary : Type 0 where
  pub id : String
  pub tenant_id : String
  pub requested_by : String
  pub status : Status
  pub retry_of : String
  pub failure_code : String
  pub created_at : ℕ
  pub started_at : Option ℕ
  pub finished_at : Option ℕ

abbrev public_failure_codes : List String
public_failure_codes =
    "" ∷ "execution_failed" ∷ "legal_hold" ∷ "lease_expired" ∷ "legacy_stuck" ∷ "cancelled"
    ∷ "unknown" ∷ []

unfoldable pub public_export_failure_code : String → String
public_export_failure_code code =
    if any (λ c. c == code) public_failure_codes then code else "unknown"

unfoldable pub summarize_export : ExportJob → ExportSummary
unfolding public_export_failure_code
summarize_export job = record {
  id = job.id;
  tenant_id = job.tenant_id;
  requested_by = job.requested_by;
  status = job.status;
  retry_of = job.retry_of;
  failure_code = public_export_failure_code job.failure_code;
  created_at = job.created_at;
  started_at = job.started_at;
  finished_at = job.finished_at;
}
