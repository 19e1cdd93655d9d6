-- ===== src/Domain/Identifiers/Framing.antt =====
-- The framing of composite keys (EventKey, SplitTenantKey) and of Event.Stream.
use snaplink_audit_governanc.Prelude.{
  ℕ, ◌≡◌, refl, sym, ap, ◌∙◌, Bool, false, ◌&&◌, Option, some, List, [], ◌∷◌, ◌++◌, any, eqb,
  Bool-cases, inl, inr, arith, if◌then◌else◌,
}
use snaplink_audit_governanc.Prelude.Texts.{codes}
use snaplink_audit_governanc.Domain.Errors.{ok}
use snaplink_audit_governanc.Domain.Identifiers.{
  is_bad_rune, valid_key_component, valid_tenant_id_component, valid_stream_component, has_colon,
  key_separator, event_key, cut, split_tenant_key, non_empty, stream,
}

abbrev has : ℕ → List ℕ → Bool
has c s = any (λ r. eqb r c) s

cut-append : (c : ℕ) (a b : List ℕ) → has c a ≡ false → cut c (a ++ c ∷ b) ≡ some (a, b)
unfolding cut
cut-append c [] b h = ground arith
cut-append c (r ∷ a) b h = ground (arith, cut-append c a b)

pair_of :
    {a a' b b' : List ℕ}
    → ◌≡◌ {A = Option (List ℕ × List ℕ)} (some (a, b)) (some (a', b'))
    → (a ≡ a') × (b ≡ b')
pair_of e = (cc, cc)

-- What stands before and after the first occurrence is determined.
split_unique :
    (c : ℕ) (a b a' b' : List ℕ)
    → has c a ≡ false
    → has c a' ≡ false
    → a ++ c ∷ b ≡ a' ++ c ∷ b'
    → (a ≡ a') × (b ≡ b')
split_unique c a b a' b' h h' e =
    pair_of (sym (cut-append c a b h) ∙ ap (cut c) e ∙ cut-append c a' b' h')

bad_separator : (r : ℕ) → is_bad_rune r ≡ false → eqb r key_separator ≡ false
unfolding is_bad_rune
bad_separator r h = ground arith

valid_has_no_separator : (s : List ℕ) → valid_key_component s ≡ ok tt → has key_separator s ≡ false
unfolding valid_key_component
valid_has_no_separator [] h = refl
valid_has_no_separator (r ∷ s) h = elim (Bool-cases (is_bad_rune r)) [
  | inl bad ↦ absurd (ground arith)
  | inr good ↦ rw (bad_separator r good) (valid_has_no_separator s (ground arith))
]

-- A key that is framed from accepted components is split into exactly those components.
pub split_tenant_key-event_key :
    (tenant id : List ℕ)
    → valid_key_component tenant ≡ ok tt
    → valid_key_component id ≡ ok tt
    → split_tenant_key (event_key tenant id) ≡ some (tenant, id)
unfolding split_tenant_key event_key
split_tenant_key-event_key tenant id ht hi = rw (
  cut-append key_separator tenant id (valid_has_no_separator tenant ht),
  valid_has_no_separator id hi,
  split_tenant_key,
)

-- Two keys are equal only for the same tenant and the same identifier, once the tenants are
-- accepted; the identifiers may hold any character.
pub event_key-injective :
    (t i t' i' : List ℕ)
    → valid_key_component t ≡ ok tt
    → valid_key_component t' ≡ ok tt
    → event_key t i ≡ event_key t' i'
    → (t ≡ t') × (i ≡ i')
unfolding event_key
event_key-injective t i t' i' h h' e =
    split_unique key_separator t i t' i' (valid_has_no_separator t h) (valid_has_no_separator t' h')
      e

tenant_has_no_colon : (t : List ℕ) → valid_tenant_id_component t ≡ ok tt → has_colon t ≡ false
unfolding valid_tenant_id_component
tenant_has_no_colon t h = ground arith

stream_component_has_no_colon :
    (s : List ℕ) → valid_stream_component s ≡ ok tt → has_colon s ≡ false
unfolding valid_stream_component
stream_component_has_no_colon s h = ground arith

-- What a derived stream name holds after the colon behind the tenant.
abbrev pub derived_tail : List ℕ → List ℕ → List ℕ → List ℕ → List ℕ
derived_tail type_ id operation source =
    if non_empty type_ && non_empty id
    then codes "aggregate:" ++ (type_ ++ b':' ∷ id)
    else if non_empty operation
    then codes "operation:" ++ operation
    else codes "source:" ++ source

stream-eq :
    (t type_ id operation source : List ℕ)
    → stream [] t type_ id operation source ≡ t ++ b':' ∷ derived_tail type_ id operation source
unfolding stream
stream-eq t type_ id operation source = elim (Bool-cases (non_empty type_ && non_empty id)) [
  | inl aggregate ↦ rw aggregate
  | inr other ↦ elim (Bool-cases (non_empty operation)) [
    | inl named ↦ rw (other, named)
    | inr unnamed ↦ rw (other, unnamed)
  ]
]

-- Two derived streams with one name belong to one tenant, where both tenants are valid, and agree in
-- what stands behind the tenant.
pub stream-tenant :
    (t ty id op src t' ty' id' op' src' : List ℕ)
    → valid_tenant_id_component t ≡ ok tt
    → valid_tenant_id_component t' ≡ ok tt
    → stream [] t ty id op src ≡ stream [] t' ty' id' op' src'
    → (t ≡ t') × (derived_tail ty id op src ≡ derived_tail ty' id' op' src')
stream-tenant t ty id op src t' ty' id' op' src' h h' e =
    split_unique b':' t _ t' _ (tenant_has_no_colon t h) (tenant_has_no_colon t' h')
      (sym (stream-eq t ty id op src) ∙ e ∙ stream-eq t' ty' id' op' src')

tail-aggregate :
    (c d : ℕ) (ty id op src : List ℕ)
    → derived_tail (c ∷ ty) (d ∷ id) op src ≡ codes "aggregate:" ++ (c ∷ ty ++ b':' ∷ d ∷ id)
tail-aggregate c d ty id op src = refl

cancel_word : (x y : List ℕ) → codes "aggregate:" ++ x ≡ codes "aggregate:" ++ y → x ≡ y
cancel_word x y e = cc

-- Two aggregates with one stream name are one aggregate of one tenant, where the tenants and the
-- aggregate types are valid: no event of one aggregate is chained into the stream of another.
pub stream-aggregate :
    (t t' : List ℕ) (c d c' d' : ℕ) (ty id op src ty' id' op' src' : List ℕ)
    → valid_tenant_id_component t ≡ ok tt
    → valid_tenant_id_component t' ≡ ok tt
    → valid_stream_component (c ∷ ty) ≡ ok tt
    → valid_stream_component (c' ∷ ty') ≡ ok tt
    → stream [] t (c ∷ ty) (d ∷ id) op src ≡ stream [] t' (c' ∷ ty') (d' ∷ id') op' src'
    → (t ≡ t') × (c ∷ ty ≡ c' ∷ ty') × (d ∷ id ≡ d' ∷ id')
stream-aggregate t t' c d c' d' ty id op src ty' id' op' src' h h' k k' e =
    let (same_tenant, tails) =
      stream-tenant t (c ∷ ty) (d ∷ id) op src t' (c' ∷ ty') (d' ∷ id') op' src' h h' e in
    let (types, ids) =
      split_unique b':' (c ∷ ty) (d ∷ id) (c' ∷ ty') (d' ∷ id')
        (stream_component_has_no_colon (c ∷ ty) k) (stream_component_has_no_colon (c' ∷ ty') k')
        (cancel_word (c ∷ (ty ++ b':' ∷ d ∷ id)) (c' ∷ (ty' ++ b':' ∷ d' ∷ id')) tails) in
    (same_tenant, types, ids)
