-- ===== src/Http/Scope.antt =====
-- internal/httpapi/scope.go and authz.go: the permission check and the tenant scope of a request.
-- `url.ParseQuery` is an argument: it gives the values of each name, or refuses the query.
pub mod Boundaries
use snaplink_audit_governanc.Prelude.{
  ℕ, suc, ◌≡◌, String, Bool, true, false, not, ◌&&◌, ◌||◌, List, [], ◌∷◌, Option, none, some, Table,
  lookup, length, eqb, any, get_or, ltb, ◌==◌, if◌then◌else◌,
}
use snaplink_audit_governanc.Prelude.Texts.{codes}
use snaplink_audit_governanc.Domain.Errors.{Result, ok, err, ◌>>=◌, ◌>>◌}
use snaplink_audit_governanc.Domain.Errors as Domain
use snaplink_audit_governanc.Domain.Identifiers.{valid_tenant_id_component}

-- auth.Claims; the expiry is left out.
pub record Claims : Type 0 where
  pub subject : String
  pub client_id : String
  pub tenant_id : String
  pub roles : List String
  pub permissions : Table Bool
  pub platform : Bool
  pub service : Bool
  pub console_audit_read : Bool
  pub cross_tenant_audit_read : Bool

-- Claims.Allows
unfoldable pub allows : Claims → String → Bool
allows claims permission =
    get_or permission false claims.permissions
    || claims.platform
    || permission == "audit:event:read" && claims.console_audit_read

-- The refusals of requirePermissions.
pub data Denial : Type 0 where
  unauthenticated forbidden tenant_context_required : Denial

pub data Access : Type 0 where
  granted : Claims → Access
  denied : Denial → Access

abbrev pub is_ingest_only : List String → Bool
is_ingest_only (permission ∷ []) = permission == "audit:event:write"
is_ingest_only _ = false

-- requirePermissions; `authenticated` is the answer of the authenticator.
unfoldable pub require_permissions : Option Claims → List String → Bool → Access
unfolding allows
require_permissions none permissions tenantless = denied unauthenticated
require_permissions (some claims) permissions tenantless =
    if not (
      tenantless && claims.cross_tenant_audit_read
      || any (λ permission. allows claims permission) permissions)
    then denied forbidden
    else if not (is_ingest_only permissions)
        && claims.tenant_id == ""
        && not claims.platform
        && not (tenantless && claims.cross_tenant_audit_read)
    then denied tenant_context_required
    else granted claims

abbrev pub valid_tenant_id : String → Result (Unit {0})
valid_tenant_id tenant = valid_tenant_id_component (codes tenant)

-- The selector of the query, and whether it is present.
abbrev pub single_selector : List String → Result (String × Bool)
single_selector [] = ok ("", true)
single_selector (selector ∷ []) =
    if selector == "" then ok ("", true) else (valid_tenant_id selector >> ok (selector, true))
single_selector (selector ∷ second ∷ others) = err Domain.invalid

unfoldable pub query_tenant_selector : Option (Table (List String)) → Result (String × Bool)
query_tenant_selector none = err Domain.invalid
query_tenant_selector (some values) = elim (lookup "tenant_id" values) [
  | none ↦ ok ("", false)
  | some selectors ↦ single_selector selectors
]

abbrev pub claimed_tenant : Claims → String × Bool → Result String
claimed_tenant claims selected =
    if claims.platform || claims.cross_tenant_audit_read
    then ok selected.0
    else if claims.tenant_id == ""
    then ok claims.tenant_id
    else (valid_tenant_id claims.tenant_id >> ok claims.tenant_id)

-- tenantFor
unfoldable pub tenant_for : Option (Table (List String)) → Claims → Result String
tenant_for query claims = query_tenant_selector query >>= λ selected. claimed_tenant claims selected

pub data ScopePolicy : Type 0 where
  scoped_query scoped_body all_tenants : ScopePolicy

pub record TenantScope : Type 0 where
  pub tenant_id : String
  pub all_tenants : Bool

abbrev pub scope_of : ScopePolicy → String → Result TenantScope
scope_of all_tenants tenant = ok (record { tenant_id = tenant; all_tenants = tenant == "" })
scope_of scoped_body tenant = err Domain.invalid
scope_of scoped_query tenant =
    if tenant == ""
    then err Domain.invalid
    else ok (record { tenant_id = tenant; all_tenants = false })

unfoldable pub resolve_scope :
    Option (Table (List String)) → Claims → ScopePolicy → Result TenantScope
resolve_scope query claims policy = tenant_for query claims >>= λ tenant. scope_of policy tenant

abbrev pub of_tenant : String → TenantScope
of_tenant tenant = record { tenant_id = tenant; all_tenants = false }

abbrev pub checked_tenant : String → Result (Unit {0})
checked_tenant tenant = if tenant == "" then ok tt else valid_tenant_id tenant

unfoldable pub body_scope_from_tenant : Claims → String → Result TenantScope
body_scope_from_tenant claims body =
    checked_tenant body
    >> (if claims.platform
        then if body == "" then err Domain.invalid else ok (of_tenant body)
        else if not (claims.tenant_id == "")
        then (valid_tenant_id claims.tenant_id
            >> (if not (body == "") && not (body == claims.tenant_id)
                then err Domain.tenant_mismatch
                else ok (of_tenant claims.tenant_id)))
        else ok (of_tenant ""))

abbrev pub selector_conflicts : Claims → String × Bool → String → Bool
selector_conflicts claims selected body = claims.platform && selected.1 && not (selected.0 == body)

abbrev pub body_scope : Claims → String × Bool → String → Result TenantScope
body_scope claims selected body =
    if selector_conflicts claims selected body
    then err Domain.invalid
    else body_scope_from_tenant claims body

unfoldable pub resolve_body_scope :
    Option (Table (List String)) → Claims → String → Result TenantScope
resolve_body_scope query claims body =
    query_tenant_selector query >>= λ selected. body_scope claims selected body

-- The loop over the events of a batch, by their envelope tenants.
unfoldable pub batch_loop : Claims → String × Bool → List String → Result (List TenantScope)
batch_loop claims selected [] = ok []
batch_loop claims selected (body ∷ others) = do
  scope ← body_scope claims selected body
  scopes ← batch_loop claims selected others
  ok (scope ∷ scopes)

unfoldable pub resolve_batch_body_scopes :
    Option (Table (List String)) → Claims → List String → Result (List TenantScope)
resolve_batch_body_scopes query claims bodies =
    query_tenant_selector query >>= λ selected. batch_loop claims selected bodies

abbrev pub consistent_body : Claims → String → TenantScope → Result TenantScope
consistent_body claims body scope =
    if body == ""
    then ok scope
    else (valid_tenant_id body
        >> (if claims.platform && not (body == scope.tenant_id)
            then err Domain.invalid
            else ok scope))

unfoldable pub resolve_query_body_scope :
    Option (Table (List String)) → Claims → String → Result TenantScope
resolve_query_body_scope query claims body =
    resolve_scope query claims scoped_query >>= λ scope. consistent_body claims body scope
