-- ===== src/Examples/Requests.antt =====
-- The scope of requests and the responses to errors at concrete inputs.
use snaplink_audit_governanc.Prelude.{
  ◌≡◌, ◌==◌, ◌||◌, eqb, refl, String, true, false, List, [], ◌∷◌, none, some, Option, Table, All,
}
use snaplink_audit_governanc.Domain.Errors.Yields.{Yields}
use snaplink_audit_governanc.Http.Errors.{
  Failure, operation_deadline, deadline_exceeded, is, status_for_error, write_error, Counters,
  status_client_closed_request,
}
use snaplink_audit_governanc.Http.Errors.Responses.{write_error-deadline, write_error-hides}
use snaplink_audit_governanc.Http.Scope.{
  Claims, ScopePolicy, resolve_scope, resolve_body_scope, resolve_batch_body_scopes,
  resolve_query_body_scope,
}
use snaplink_audit_governanc.Http.Scope.Boundaries.{
  IsScopeOf, IsAccepted, AreScopesOf, resolve_scope-tenant_token, resolve_scope-IsAccepted,
  resolve_batch_body_scopes-singles,
}

abbrev timeout : Failure
timeout = record {
  sentinels = operation_deadline ∷ deadline_exceeded ∷ [];
  text = "store operation deadline exceeded: s3://evidence/acme";
  legal_hold_id = none;
}

abbrev counters : Counters
counters = record { error_count = 0; withdrawal_deadline_count = 0; withdrawal_cancel_count = 0 }

timeout_is : is timeout operation_deadline ≡ true
unfolding is
timeout_is = refl

write_error-deadline_example :
    let (_, after, status, body) = write_error (status_for_error timeout) timeout "r1" counters in
    (eqb status status_client_closed_request ≡ false)
    × ((body.code == "client_cancelled" || body.code == "client_deadline_exceeded") ≡ false)
    × (after.withdrawal_deadline_count ≡ 0)
    × (after.withdrawal_cancel_count ≡ 0)
write_error-deadline_example = write_error-deadline timeout "r1" counters timeout_is

write_error-hides_example :
    write_error 503 (record timeout { text = "lost" }) "r1" counters
    ≡ write_error 503 timeout "r1" counters
write_error-hides_example = write_error-hides 503 timeout "lost" "r1" counters refl

abbrev auditor : Claims
auditor = record {
  subject = "alice";
  client_id = "console";
  tenant_id = "acme";
  roles = "auditor" ∷ [];
  permissions = ("audit:event:read", true) ∷ [];
  platform = false;
  service = false;
  console_audit_read = false;
  cross_tenant_audit_read = false;
}

-- `?tenant_id=globex`
abbrev globex_query : Option (Table (List String))
globex_query = some (("tenant_id", "globex" ∷ []) ∷ [])

resolve_scope-tenant_token_example :
    ((policy : ScopePolicy) → Yields (IsScopeOf "acme") (resolve_scope globex_query auditor policy))
    × ((body : String) → Yields (IsScopeOf "acme") (resolve_body_scope globex_query auditor body))
    × ((bodies : List String)
        → Yields (All (IsScopeOf "acme")) (resolve_batch_body_scopes globex_query auditor bodies))
    × ((body : String)
        → Yields (IsScopeOf "acme") (resolve_query_body_scope globex_query auditor body))
resolve_scope-tenant_token_example = resolve_scope-tenant_token globex_query auditor refl refl refl

resolve_scope-IsAccepted_example :
    ((policy : ScopePolicy) → Yields IsAccepted (resolve_scope globex_query auditor policy))
    × ((body : String) → Yields IsAccepted (resolve_body_scope globex_query auditor body))
    × ((bodies : List String)
        → Yields (All IsAccepted) (resolve_batch_body_scopes globex_query auditor bodies))
    × ((body : String) → Yields IsAccepted (resolve_query_body_scope globex_query auditor body))
resolve_scope-IsAccepted_example = resolve_scope-IsAccepted globex_query auditor

resolve_batch_body_scopes-singles_example :
    Yields
      (AreScopesOf globex_query auditor ("acme" ∷ "" ∷ []))
      (resolve_batch_body_scopes globex_query auditor ("acme" ∷ "" ∷ []))
resolve_batch_body_scopes-singles_example =
    resolve_batch_body_scopes-singles globex_query auditor ("acme" ∷ "" ∷ [])
