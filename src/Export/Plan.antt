-- ===== src/Export/Plan.antt =====
-- internal/service/export_plan.go and export_generation.go: the fixed member plan of an export and
-- its generated pages. An object path is compared as the list of its characters.
use snaplink_audit_governanc.Prelude.{
  ℕ, suc, ◌+◌, ◌-◌, ◌*◌, ◌/◌, ◌%◌, String, Bool, true, false, not, ◌&&◌, ◌||◌, Option, none, some,
  List, [], ◌∷◌, ◌++◌, min, str_lt, length, any, every, leb, ltb, eqb, ◌==◌, if◌then◌else◌,
}
use snaplink_audit_governanc.Prelude.Texts.{codes, cut_prefix, cut_suffix, is_lower_hex}
use snaplink_audit_governanc.Domain.Errors.{Result, ok, err}
use snaplink_audit_governanc.Domain.Identifiers.{valid_key_component}
use snaplink_audit_governanc.Domain.Models.{
  ExportJob, PlanMember, PlanChunk, ExportPlan, is_running, is_set, not_before,
}
use snaplink_audit_governanc.Service.{Service}

abbrev pub max_export_plan_events : ℕ
max_export_plan_events = 10000

abbrev pub max_export_plan_bytes : ℕ
max_export_plan_bytes = 4 * 1024 * 1024

abbrev pub page_events : ℕ
page_events = 100

-- `exportDigestPattern`, `^[0-9a-f]{64}$`
unfoldable pub is_digest : List ℕ → Bool
is_digest s = eqb (length s) 64 && every is_lower_hex s

abbrev is_ok : Result (Unit {0}) → Bool
is_ok (ok _) = true
is_ok (err e) = false

abbrev pub is_none {ℓ} : {A : Type ℓ} → Option A → Bool
is_none none = true
is_none (some a) = false

-- `exportCheckpointBinding` and `exportPlanBinding`
unfoldable pub export_checkpoint_binding : Service → ExportJob → String
export_checkpoint_binding s job = s.mac_scope "export.checkpoint.scope.v1" (record {
  id = job.id;
  tenant = job.tenant_id;
  requester = job.requested_by;
  retry_of = job.retry_of;
  created_at = job.created_at;
  started_at = job.started_at;
  query = job.query;
})

unfoldable pub export_plan_binding : Service → ExportJob → String
unfolding export_checkpoint_binding
export_plan_binding s job = s.mac_text "export.plan.scope.v1" (export_checkpoint_binding s job)

unfoldable pub sign_export_plan : Service → ExportPlan → String
sign_export_plan s plan = s.mac_plan "export.plan.members.v1" (record plan { signature = "" })

unfoldable pub export_generation_id : Service → ExportPlan → String
export_generation_id s plan =
    s.mac_plan "export.generation.plan.v1" (record plan { chunks = []; signature = "" })

unfoldable pub export_plan_member_before : PlanMember → PlanMember → Bool
export_plan_member_before a b =
    if not (eqb a.occurred_at b.occurred_at)
    then ltb a.occurred_at b.occurred_at
    else ltb a.sequence b.sequence || eqb a.sequence b.sequence && str_lt a.event_id b.event_id

abbrev follows : List PlanMember → PlanMember → Bool
unfolding export_plan_member_before
follows [] m = true
follows (e ∷ es) m = export_plan_member_before e m

-- The test on one member; `earlier` are the members before it, the nearest first.
unfoldable pub valid_member : List PlanMember → PlanMember → Bool
unfolding is_digest export_plan_member_before
valid_member earlier m =
    not (m.event_id == "")
    && not (m.stream_id == "")
    && ltb 0 m.sequence
    && not (eqb m.occurred_at 0)
    && is_digest (codes m.hash)
    && not (m.schema_id == "")
    && ltb 0 m.schema_version
    && is_digest (codes m.schema_digest)
    && not (any (λ e. e.event_id == m.event_id) earlier)
    && is_ok (valid_key_component (codes m.event_id))
    && is_ok (valid_key_component (codes m.stream_id))
    && follows earlier m

unfoldable pub valid_members : List PlanMember → List PlanMember → Bool
unfolding valid_member
valid_members earlier [] = true
valid_members earlier (m ∷ ms) = valid_member earlier m && valid_members (m ∷ earlier) ms

-- `fmt.Sprintf("%04d", i)` for i below 10000
unfoldable pub four_digits : ℕ → List ℕ
four_digits i =
    (b'0' + i / 1000) ∷ (b'0' + i / 100 % 10) ∷ (b'0' + i / 10 % 10) ∷ (b'0' + i % 10) ∷ []

-- What stands between the stem and ".bin": the attempt, 16 bytes in hexadecimal.
unfoldable pub valid_chunk_path : List ℕ → List ℕ → Bool
unfolding is_digest
valid_chunk_path stem path = elim (cut_prefix stem path) [
  | none ↦ false
  | some rest ↦ elim (cut_suffix (codes ".bin") rest) [
    | none ↦ false
    | some attempt ↦ eqb (length attempt) 32 && is_digest (attempt ++ attempt)
  ]
]

-- The test on the page with number `i`; `previous` is when the page before it was written.
unfoldable pub valid_chunk : List ℕ → ℕ → ℕ → ℕ → ℕ → PlanChunk → Bool
unfolding is_digest valid_chunk_path four_digits
valid_chunk prefix members now i previous chunk =
    eqb chunk.seal_version 2
    && eqb chunk.first (i * page_events)
    && eqb chunk.count (min page_events (members - i * page_events))
    && valid_chunk_path (prefix ++ (four_digits i ++ codes "-")) (codes chunk.object_path)
    && is_digest (codes chunk.sealed_digest)
    && is_digest (codes chunk.digest)
    && not (eqb chunk.created_at 0)
    && leb previous chunk.created_at
    && leb chunk.created_at now

unfoldable pub valid_chunks : List ℕ → ℕ → ℕ → ℕ → ℕ → List PlanChunk → Bool
unfolding valid_chunk
valid_chunks prefix members now i previous [] = true
valid_chunks prefix members now i previous (c ∷ cs) =
    valid_chunk prefix members now i previous c
    && valid_chunks prefix members now (suc i) c.created_at cs

unfoldable pub valid_export_generation : Service → ExportPlan → ℕ → Bool
unfolding valid_chunks export_generation_id
valid_export_generation s plan now =
    let members = length plan.members in
    let prefix = codes "export-chunks/" ++ (codes (export_generation_id s plan) ++ codes "/") in
    if eqb plan.version 1
    then eqb (length plan.chunks) 0
    else ltb page_events members
      && leb (length plan.chunks) ((members + page_events - 1) / page_events)
      && valid_chunks prefix members now 0 plan.created_at plan.chunks

unfoldable pub valid_export_plan : Service → ExportJob → ExportPlan → ℕ → Bool
unfolding valid_members valid_export_generation is_digest export_plan_binding sign_export_plan
valid_export_plan s job plan now =
    (eqb plan.version 1 || eqb plan.version 2)
    && eqb plan.format_version 1
    && not (job.id == "")
    && not (job.tenant_id == "")
    && plan.job_id == job.id
    && plan.tenant_id == job.tenant_id
    && is_running job.status
    && is_none job.finished_at
    && not (eqb job.created_at 0)
    && is_set job.started_at
    && job.object_path == ""
    && job.digest == ""
    && eqb job.event_count 0
    && not (eqb plan.created_at 0)
    && not_before plan.created_at job.started_at
    && leb plan.created_at now
    && leb (length plan.members) max_export_plan_events
    && is_digest (codes plan.binding)
    && is_digest (codes plan.signature)
    && plan.binding == export_plan_binding s job
    && valid_members [] plan.members
    && valid_export_generation s plan now
    && leb (s.json_size plan) max_export_plan_bytes
    && plan.signature == sign_export_plan s plan

-- `exportGeneratedMembers`: the members that the written pages cover.
unfoldable pub export_generated_members : List PlanChunk → ℕ
export_generated_members [] = 0
export_generated_members (c ∷ []) = c.first + c.count
export_generated_members (c ∷ d ∷ cs) = export_generated_members (d ∷ cs)
