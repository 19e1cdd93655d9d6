-- ===== src/Search.antt =====
-- internal/service/query_match.go: which events a query and a legal hold select, and the replay of
-- changes. The search digests of internal/security are arguments.
pub mod Holds
pub mod Replays
use snaplink_audit_governanc.Prelude.{
  ℕ, String, Bool, true, false, not, ◌&&◌, ◌||◌, Option, none, some, List, [], ◌∷◌, ◌++◌, ◌+++◌,
  Table, lookup, insert, delete, has, length, any, eqb, ltb, str_lt, ◌==◌, if◌then◌else◌,
}
use snaplink_audit_governanc.Domain.Models.{Query, LegalHold}

-- A value of the payload: a text, or another JSON value in its encoding.
pub data Value : Type 0 where
  text : String → Value
  json : String → Value

-- The fields of domain.Event that queries, holds and replays read. A change holds `After`, if any.
pub record SearchEvent : Type 0 where
  pub event_id : String
  pub tenant_id : String
  pub source_system : String
  pub event_type : String
  pub schema_key : String
  pub occurred_at : ℕ
  pub operation_id : String
  pub causation_id : String
  pub correlation_id : String
  pub trace_id : String
  pub actor_id : String
  pub target_ids : List String
  pub aggregate_type : String
  pub aggregate_id : String
  pub outcome : String
  pub changed_fields : Table (Option Value)
  pub payload : Table Value
  pub stream_id : String
  pub sequence : ℕ

-- SearchDigestSuffix, IsBoundSearchDigest, and the digests under the service's key: bound to a tenant
-- and a field, or unbound. `encrypted_fields` is EventSchema.EncryptedFields by the schema's key.
pub record Digests : Type 0 where
  pub suffix : String
  pub is_bound : String → Bool
  pub bound_digest : Value → String → String → Option String
  pub unbound_digest : Value → Option String
  pub encrypted_fields : Table (List String)

-- A filter that is set selects its value only.
abbrev pub selects : String → String → Bool
selects wanted found = wanted == "" || found == wanted

abbrev pub contains_string : List String → String → Bool
contains_string values wanted = any (λ value. value == wanted) values

unfoldable pub has_target : SearchEvent → String → Bool
has_target event target = any (λ id. id == target) event.target_ids

abbrev pub is_digest : String → Option String → Bool
is_digest wanted none = false
is_digest wanted (some derived) = derived == wanted

-- The digest in the query's format, from the stored plaintext.
unfoldable pub derived_matches : Digests → SearchEvent → Query → Bool
derived_matches d event query = elim (lookup event.schema_key d.encrypted_fields) [
  | none ↦ false
  | some encrypted ↦
      if contains_string encrypted query.payload_field
      then false
      else elim (lookup query.payload_field event.payload) [
        | none ↦ false
        | some value ↦ is_digest query.payload_digest (
            if d.is_bound query.payload_digest
            then d.bound_digest value event.tenant_id query.payload_field
            else d.unbound_digest value)
      ]
]

abbrev pub same_format : Bool → Bool → Bool
same_format true b = b
same_format false b = not b

unfoldable pub digest_matches : Digests → SearchEvent → Query → Bool
digest_matches d event query = elim (lookup (query.payload_field +++ d.suffix) event.payload) [
  | none ↦ false
  | some (json encoded) ↦ false
  | some (text stored) ↦
      if same_format (d.is_bound stored) (d.is_bound query.payload_digest)
      then stored == query.payload_digest
      else derived_matches d event query
]

unfoldable pub matches : Digests → SearchEvent → Query → Bool
matches d event query =
    not (ltb event.occurred_at query.from_time)
    && ltb event.occurred_at query.to_time
    && selects query.event_type event.event_type
    && selects query.source_system event.source_system
    && selects query.actor_id event.actor_id
    && (query.target_id == "" || has_target event query.target_id)
    && selects query.aggregate_type event.aggregate_type
    && selects query.aggregate_id event.aggregate_id
    && selects query.operation_id event.operation_id
    && selects query.causation_id event.causation_id
    && selects query.correlation_id event.correlation_id
    && selects query.trace_id event.trace_id
    && selects query.outcome event.outcome
    && (query.payload_field == "" || digest_matches d event query)
    && selects query.stream_id event.stream_id

unfoldable pub hold_matches_event : Digests → LegalHold → SearchEvent → Bool
hold_matches_event d hold event =
    if eqb hold.filter.from_time 0 && eqb hold.filter.to_time 0
    then true
    else if eqb hold.filter.from_time 0 || eqb hold.filter.to_time 0
    then false
    else matches d event hold.filter

unfoldable pub hold_can_select_any_selected : LegalHold → Query → Bool
hold_can_select_any_selected hold query =
    if eqb hold.filter.from_time 0 && eqb hold.filter.to_time 0
    then true
    else if eqb hold.filter.from_time 0 || eqb hold.filter.to_time 0
    then false
    else if eqb query.from_time 0 || eqb query.to_time 0 || not (ltb query.from_time query.to_time)
    then true
    else if not (ltb hold.filter.from_time hold.filter.to_time)
    then true
    else ltb hold.filter.from_time query.to_time && ltb query.from_time hold.filter.to_time

-- replay: the changes of the events in turn; a change without `After` removes the field.
unfoldable pub apply_changes : Table (Option Value) → Table Value → Table Value
apply_changes [] state = state
apply_changes ((field, none) ∷ rest) state = apply_changes rest (delete field state)
apply_changes ((field, some after) ∷ rest) state = apply_changes rest (insert field after state)

unfoldable pub replay_loop : List SearchEvent → Table Value → ℕ → Table Value × ℕ
replay_loop [] state last = (state, last)
replay_loop (event ∷ rest) state last =
    replay_loop rest (apply_changes event.changed_fields state) event.sequence

pub record ReplayResult : Type 0 where
  pub tenant_id : String
  pub operation_id : String
  pub aggregate_id : String
  pub event_count : ℕ
  pub state : Table Value
  pub last_sequence : ℕ

unfoldable pub replay : List SearchEvent → String → String → String → ReplayResult
replay events tenant operation aggregate = record {
  tenant_id = tenant;
  operation_id = operation;
  aggregate_id = aggregate;
  event_count = length events;
  state = (replay_loop events [] 0).0;
  last_sequence = (replay_loop events [] 0).1;
}

unfoldable pub compare_events : SearchEvent → SearchEvent → Bool
compare_events a b =
    if eqb a.occurred_at b.occurred_at
    then if eqb a.sequence b.sequence
      then str_lt a.event_id b.event_id
      else ltb a.sequence b.sequence
    else ltb a.occurred_at b.occurred_at
