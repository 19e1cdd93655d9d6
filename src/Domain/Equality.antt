-- ===== src/Domain/Equality.antt =====
-- Equality of records as `reflect.DeepEqual` and Go's `==` decide it.
use snaplink_audit_governanc.Prelude.{Bool, true, false, ◌&&◌, ◌==◌, eqb, option_eq}
use snaplink_audit_governanc.Domain.Models.{
  Query, Status, pending, running, completed, failed, cancelled, other, ExportJob, ExportCheckpoint,
}

unfoldable pub query_eq : Query → Query → Bool
query_eq a b =
    eqb a.from_time b.from_time
    && eqb a.to_time b.to_time
    && a.event_type == b.event_type
    && a.source_system == b.source_system
    && a.actor_id == b.actor_id
    && a.target_id == b.target_id
    && a.aggregate_type == b.aggregate_type
    && a.aggregate_id == b.aggregate_id
    && a.operation_id == b.operation_id
    && a.causation_id == b.causation_id
    && a.correlation_id == b.correlation_id
    && a.trace_id == b.trace_id
    && a.outcome == b.outcome
    && a.payload_field == b.payload_field
    && a.payload_digest == b.payload_digest
    && a.stream_id == b.stream_id
    && a.cursor == b.cursor
    && eqb a.page_size b.page_size

abbrev pub status_eq : Status → Status → Bool
status_eq pending pending = true
status_eq running running = true
status_eq completed completed = true
status_eq failed failed = true
status_eq cancelled cancelled = true
status_eq (other s) (other t) = s == t
status_eq _ _ = false

unfoldable pub job_eq : ExportJob → ExportJob → Bool
job_eq a b =
    a.id == b.id
    && a.tenant_id == b.tenant_id
    && a.requested_by == b.requested_by
    && query_eq a.query b.query
    && status_eq a.status b.status
    && a.retry_of == b.retry_of
    && a.failure_code == b.failure_code
    && eqb a.created_at b.created_at
    && option_eq eqb a.started_at b.started_at
    && option_eq eqb a.finished_at b.finished_at
    && a.object_path == b.object_path
    && a.digest == b.digest
    && eqb a.event_count b.event_count
    && a.error == b.error

unfoldable pub checkpoint_eq : ExportCheckpoint → ExportCheckpoint → Bool
checkpoint_eq a b =
    eqb a.version b.version
    && eqb a.seal_version b.seal_version
    && a.job_id == b.job_id
    && a.tenant_id == b.tenant_id
    && a.binding == b.binding
    && a.object_path == b.object_path
    && a.sealed_digest == b.sealed_digest
    && a.digest == b.digest
    && eqb a.event_count b.event_count
    && eqb a.created_at b.created_at
    && a.signature == b.signature
