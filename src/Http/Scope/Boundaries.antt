-- ===== src/Http/Scope/Boundaries.antt =====
-- Which tenant a caller can reach.
use snaplink_audit_governanc.Prelude.{
  ◌≡◌, refl, ap, sym, ◌∙◌, String, Bool, false, not, ◌&&◌, ◌||◌, List, [], ◌∷◌, Option, none, some,
  Table, lookup, ◌==◌, Bool-cases, inl, inr, All,
}
use snaplink_audit_governanc.Domain.Errors.{ok, ◌>>=◌}
use snaplink_audit_governanc.Domain.Errors.Yields.{
  Yields, Yields-ok, Yields-err, Yields-check, Yields-branch, Yields-then, Yields-self,
}
use snaplink_audit_governanc.Http.Scope.{
  Claims, valid_tenant_id, query_tenant_selector, single_selector, claimed_tenant, tenant_for,
  ScopePolicy, scoped_query, scoped_body, all_tenants, TenantScope, scope_of, resolve_scope,
  of_tenant, checked_tenant, body_scope_from_tenant, selector_conflicts, body_scope,
  resolve_body_scope, batch_loop, resolve_batch_body_scopes, consistent_body,
  resolve_query_body_scope,
}

abbrev pub IsScopeOf : String → TenantScope → Type 0
IsScopeOf tenant scope = scope ≡ of_tenant tenant

-- The loop resolves each event as `body_scope` does alone.
batch_loop-All :
    (P : TenantScope → Type 0) (claims : Claims) (selected : String × Bool)
    → ((body : String) → Yields P (body_scope claims selected body))
    → (bodies : List String) → Yields (All P) (batch_loop claims selected bodies)
unfolding batch_loop
batch_loop-All P claims selected each [] = Yields-ok tt
batch_loop-All P claims selected each (body ∷ others) =
    Yields-then (body_scope claims selected body) _ (each body) (λ scope own.
      Yields-then (batch_loop claims selected others) _
        (batch_loop-All P claims selected each others) (λ scopes rest. Yields-ok (own, rest)))

-- A tenant token: it is neither a platform token nor a cross-tenant console, and its tenant is signed.
module _ (query : Option (Table (List String))) (claims : Claims)
    (tenant_token : claims.platform ≡ false) (no_console : claims.cross_tenant_audit_read ≡ false)
    (signed : (claims.tenant_id == "") ≡ false) where
  claimed_tenant-signed :
      (selected : String × Bool)
      → Yields (λ t. t ≡ claims.tenant_id) (claimed_tenant claims selected)
  claimed_tenant-signed selected =
      rw (tenant_token, no_console, signed)
        (Yields-check (valid_tenant_id claims.tenant_id) (ok claims.tenant_id)
          (λ valid. Yields-ok refl))

  body_scope-signed :
      (selected : String × Bool) (body : String)
      → Yields (IsScopeOf claims.tenant_id) (body_scope claims selected body)
  unfolding body_scope_from_tenant
  body_scope-signed selected body =
      rw (tenant_token, signed)
        (Yields-check (checked_tenant body) _ (λ checked.
          Yields-check (valid_tenant_id claims.tenant_id) _ (λ valid.
            Yields-branch (not (body == "") && not (body == claims.tenant_id)) _ _
              (λ differs. Yields-err) (λ same. Yields-ok refl))))

  resolve_scope-signed :
      (policy : ScopePolicy)
      → Yields (IsScopeOf claims.tenant_id) (resolve_scope query claims policy)
  unfolding resolve_scope tenant_for
  resolve_scope-signed policy =
      Yields-then (query_tenant_selector query >>= λ selected. claimed_tenant claims selected) _
        (Yields-then (query_tenant_selector query) _ (Yields-self (query_tenant_selector query))
          (λ selected any_. claimed_tenant-signed selected))
        (λ tenant own. by_policy policy tenant own)
    where
      by_policy :
          (policy : ScopePolicy) (tenant : String)
          → tenant ≡ claims.tenant_id
          → Yields (IsScopeOf claims.tenant_id) (scope_of policy tenant)
      by_policy scoped_body tenant own = Yields-err
      by_policy scoped_query tenant own = rw (own, signed) (Yields-ok refl)
      by_policy all_tenants tenant own = rw (own, signed) (Yields-ok refl)

  -- Whatever the query, the envelope and the policy say, a scope that a tenant token is given is the
  -- scope of its signed tenant: in queries, in bodies, in every member of a batch, and in writes that a
  -- query selects.
  pub resolve_scope-tenant_token :
      ((policy : ScopePolicy)
        → Yields (IsScopeOf claims.tenant_id) (resolve_scope query claims policy))
      × ((body : String)
          → Yields (IsScopeOf claims.tenant_id) (resolve_body_scope query claims body))
      × ((bodies : List String)
          → Yields
              (All (IsScopeOf claims.tenant_id))
              (resolve_batch_body_scopes query claims bodies))
      × ((body : String)
          → Yields (IsScopeOf claims.tenant_id) (resolve_query_body_scope query claims body))
  unfolding resolve_body_scope resolve_batch_body_scopes resolve_query_body_scope
  resolve_scope-tenant_token = (
    resolve_scope-signed,
    (λ body.
        Yields-then (query_tenant_selector query) _ (Yields-self (query_tenant_selector query))
          (λ selected any_. body_scope-signed selected body)),
    (λ bodies.
        Yields-then (query_tenant_selector query) _ (Yields-self (query_tenant_selector query))
          (λ selected any_.
            batch_loop-All (IsScopeOf claims.tenant_id) claims selected (body_scope-signed selected)
              bodies)),
    (λ body.
        Yields-then (resolve_scope query claims scoped_query) _ (resolve_scope-signed scoped_query)
          (λ scope own. kept body scope own)),
  )
    where
      kept :
          (body : String) (scope : TenantScope)
          → IsScopeOf claims.tenant_id scope
          → Yields (IsScopeOf claims.tenant_id) (consistent_body claims body scope)
      kept body scope own =
          Yields-branch (body == "") _ _ (λ empty. Yields-ok own)
            (λ given. Yields-check (valid_tenant_id body) _ (λ valid.
              Yields-branch (claims.platform && not (body == scope.tenant_id)) _ _
                (λ differs. Yields-err) (λ same. Yields-ok own)))

abbrev pub IsAccepted : TenantScope → Type 0
IsAccepted scope = checked_tenant scope.tenant_id ≡ ok tt

abbrev IsChecked : String × Bool → Type 0
IsChecked selected = checked_tenant selected.0 ≡ ok tt

-- Every caller, platform tokens included.
module _ (query : Option (Table (List String))) (claims : Claims) where
  checked_valid : (tenant : String) → valid_tenant_id tenant ≡ ok tt → checked_tenant tenant ≡ ok tt
  checked_valid tenant valid = elim (Bool-cases (tenant == "")) [
    | inl empty ↦ rw empty refl
    | inr given ↦ rw given valid
  ]

  single_selector-IsChecked :
      (selectors : List String) → Yields IsChecked (single_selector selectors)
  single_selector-IsChecked [] = Yields-ok refl
  single_selector-IsChecked (selector ∷ []) =
      Yields-branch (selector == "") _ _ (λ empty. Yields-ok refl)
        (λ given.
          Yields-check (valid_tenant_id selector) _
            (λ valid. Yields-ok (checked_valid selector valid)))
  single_selector-IsChecked (selector ∷ second ∷ others) = Yields-err

  query_tenant_selector-IsChecked : Yields IsChecked (query_tenant_selector query)
  unfolding query_tenant_selector
  query_tenant_selector-IsChecked = present query
    where
      chosen :
          (found : Option (List String))
          → Yields IsChecked
              (elim found [ none ↦ ok ("", false) | some selectors ↦ single_selector selectors ])
      chosen none = Yields-ok refl
      chosen (some selectors) = single_selector-IsChecked selectors

      present :
          (values : Option (Table (List String))) → Yields IsChecked (query_tenant_selector values)
      present none = Yields-err
      present (some values) = chosen (lookup "tenant_id" values)

  claimed_tenant-checked :
      (selected : String × Bool)
      → checked_tenant selected.0 ≡ ok tt
      → Yields (λ t. checked_tenant t ≡ ok tt) (claimed_tenant claims selected)
  claimed_tenant-checked selected h =
      Yields-branch (claims.platform || claims.cross_tenant_audit_read) _ _ (λ free. Yields-ok h)
        (λ bound.
          Yields-branch (claims.tenant_id == "") _ _ (λ empty. Yields-ok (rw empty refl))
            (λ given.
              Yields-check (valid_tenant_id claims.tenant_id) _
                (λ valid. Yields-ok (checked_valid claims.tenant_id valid))))

  scope_of-IsAccepted :
      (policy : ScopePolicy) (tenant : String)
      → checked_tenant tenant ≡ ok tt
      → Yields IsAccepted (scope_of policy tenant)
  scope_of-IsAccepted scoped_body tenant h = Yields-err
  scope_of-IsAccepted all_tenants tenant h = Yields-ok h
  scope_of-IsAccepted scoped_query tenant h =
      Yields-branch (tenant == "") _ _ (λ empty. Yields-err) (λ given. Yields-ok h)

  each_policy-IsAccepted :
      (policy : ScopePolicy) → Yields IsAccepted (resolve_scope query claims policy)
  unfolding resolve_scope tenant_for
  each_policy-IsAccepted policy =
      Yields-then (query_tenant_selector query >>= λ selected. claimed_tenant claims selected) _
        (Yields-then (query_tenant_selector query) _ query_tenant_selector-IsChecked
          (λ selected h. claimed_tenant-checked selected h))
        (λ tenant h. scope_of-IsAccepted policy tenant h)

  body_scope-IsAccepted :
      (selected : String × Bool) (body : String)
      → Yields IsAccepted (body_scope claims selected body)
  unfolding body_scope_from_tenant
  body_scope-IsAccepted selected body =
      Yields-branch (selector_conflicts claims selected body) _ _ (λ conflicting. Yields-err)
        (λ fine. Yields-check (checked_tenant body) _ (λ checked.
          Yields-branch claims.platform _ _
            (λ platform.
              Yields-branch (body == "") _ _ (λ empty. Yields-err) (λ given. Yields-ok checked))
            (λ tenant_token.
              Yields-branch (not (claims.tenant_id == "")) _ _
                (λ signed. Yields-check (valid_tenant_id claims.tenant_id) _ (λ valid.
                  Yields-branch (not (body == "") && not (body == claims.tenant_id)) _ _
                    (λ differs. Yields-err)
                    (λ same. Yields-ok (checked_valid claims.tenant_id valid))))
                (λ open_. Yields-ok refl))))

  -- A tenant that any request is scoped to, of whatever caller, is empty or an accepted tenant
  -- identifier, so that the composite keys of two scopes never collide.
  pub resolve_scope-IsAccepted :
      ((policy : ScopePolicy) → Yields IsAccepted (resolve_scope query claims policy))
      × ((body : String) → Yields IsAccepted (resolve_body_scope query claims body))
      × ((bodies : List String)
          → Yields (All IsAccepted) (resolve_batch_body_scopes query claims bodies))
      × ((body : String) → Yields IsAccepted (resolve_query_body_scope query claims body))
  unfolding resolve_body_scope resolve_batch_body_scopes resolve_query_body_scope
  resolve_scope-IsAccepted = (
    each_policy-IsAccepted,
    (λ body.
        Yields-then (query_tenant_selector query) _ query_tenant_selector-IsChecked
          (λ selected h. body_scope-IsAccepted selected body)),
    (λ bodies.
        Yields-then (query_tenant_selector query) _ query_tenant_selector-IsChecked (λ selected h.
          batch_loop-All IsAccepted claims selected (body_scope-IsAccepted selected) bodies)),
    (λ body.
        Yields-then (resolve_scope query claims scoped_query) _
          (each_policy-IsAccepted scoped_query) (λ scope own. kept body scope own)),
  )
    where
      kept :
          (body : String) (scope : TenantScope)
          → IsAccepted scope
          → Yields IsAccepted (consistent_body claims body scope)
      kept body scope own =
          Yields-branch (body == "") _ _ (λ empty. Yields-ok own)
            (λ given. Yields-check (valid_tenant_id body) _ (λ valid.
              Yields-branch (claims.platform && not (body == scope.tenant_id)) _ _
                (λ differs. Yields-err) (λ same. Yields-ok own)))

-- Each member of the batch with the scope that it gets alone.
abbrev pub AreScopesOf :
    Option (Table (List String)) → Claims → List String → List TenantScope → Type 0
AreScopesOf query claims [] [] = Unit
AreScopesOf query claims (body ∷ bodies) (scope ∷ scopes) =
    (resolve_body_scope query claims body ≡ ok scope) × AreScopesOf query claims bodies scopes
AreScopesOf query claims _ _ = ⊥

module _ (query : Option (Table (List String))) (claims : Claims) (selected : String × Bool)
    (given : query_tenant_selector query ≡ ok selected) where
  resolve_body_scope-selected :
      (body : String) → body_scope claims selected body ≡ resolve_body_scope query claims body
  unfolding resolve_body_scope
  resolve_body_scope-selected body =
      ap (λ found. found >>= λ chosen. body_scope claims chosen body) (sym given)

  batch_loop-singles :
      (bodies : List String)
      → Yields (AreScopesOf query claims bodies) (batch_loop claims selected bodies)
  unfolding batch_loop
  batch_loop-singles [] = Yields-ok tt
  batch_loop-singles (body ∷ others) =
      Yields-then (body_scope claims selected body) _
        (Yields-self (body_scope claims selected body))
        (λ scope own.
          Yields-then (batch_loop claims selected others) _ (batch_loop-singles others)
            (λ scopes rest. Yields-ok (sym (resolve_body_scope-selected body) ∙ own, rest)))

-- A batch is accepted only with the scopes that its members get as single events, one for each member:
-- a batch is no way around the checks of the single ingest.
pub resolve_batch_body_scopes-singles :
    (query : Option (Table (List String))) (claims : Claims) (bodies : List String)
    → Yields (AreScopesOf query claims bodies) (resolve_batch_body_scopes query claims bodies)
unfolding resolve_batch_body_scopes
resolve_batch_body_scopes-singles query claims bodies =
    Yields-then (query_tenant_selector query) _ (Yields-self (query_tenant_selector query))
      (λ selected given. batch_loop-singles query claims selected given bodies)
