-- ===== src/Examples/Names.antt =====
-- Keys, stream names and archive components.
use snaplink_audit_governanc.Prelude.{ℕ, ◌≡◌, ◌≢◌, refl, some, List, [], ◌∷◌, All, arith}
use snaplink_audit_governanc.Prelude.Texts.{codes}
use snaplink_audit_governanc.Domain.Errors.{ok}
use snaplink_audit_governanc.Domain.Identifiers.{
  valid_key_component, valid_tenant_id_component, valid_stream_component, is_bad_rune, is_control,
  is_space, valid_archive_component_length, byte_len, rune_len, event_key, split_tenant_key, stream,
}
use snaplink_audit_governanc.Domain.Identifiers.Framing.{
  split_tenant_key-event_key, event_key-injective, derived_tail, stream-tenant, stream-aggregate,
}
use snaplink_audit_governanc.Archive.KeyComponent.{encode_key_component, decode_key_component}
use snaplink_audit_governanc.Archive.KeyComponent.RoundTrip.{
  IsByte, IsKeyByte, decode_key_component-encode_key_component, encode_key_component-injective,
  encode_key_component_contained,
}

acme-key : valid_key_component (codes "acme") ≡ ok tt
unfolding valid_key_component is_bad_rune is_control is_space
acme-key = refl

event-key : valid_key_component (codes "e1") ≡ ok tt
unfolding valid_key_component is_bad_rune is_control is_space
event-key = refl

split_tenant_key-event_key_example :
    split_tenant_key (event_key (codes "acme") (codes "e1")) ≡ some (codes "acme", codes "e1")
split_tenant_key-event_key_example =
    split_tenant_key-event_key (codes "acme") (codes "e1") acme-key event-key

event_key-injective_example : (codes "acme" ≡ codes "acme") × (codes "e1" ≡ codes "e1")
event_key-injective_example =
    event_key-injective (codes "acme") (codes "e1") (codes "acme") (codes "e1") acme-key acme-key
      refl

acme-tenant : valid_tenant_id_component (codes "acme") ≡ ok tt
unfolding valid_tenant_id_component valid_key_component is_bad_rune is_control is_space
    valid_archive_component_length byte_len rune_len
acme-tenant = refl

order-stream : valid_stream_component (codes "order") ≡ ok tt
unfolding valid_stream_component valid_key_component is_bad_rune is_control is_space
    valid_archive_component_length byte_len rune_len
order-stream = refl

one_stream :
    stream [] (codes "acme") [] [] (codes "op") (codes "s1")
    ≡ stream [] (codes "acme") [] [] (codes "op") (codes "s2")
unfolding stream
one_stream = refl

stream-tenant_example :
    (codes "acme" ≡ codes "acme")
    × (derived_tail [] [] (codes "op") (codes "s1") ≡ derived_tail [] [] (codes "op") (codes "s2"))
stream-tenant_example =
    stream-tenant (codes "acme") [] [] (codes "op") (codes "s1") (codes "acme") [] [] (codes "op")
      (codes "s2") acme-tenant acme-tenant one_stream

abbrev rder : List ℕ
rder = codes "rder"

order-aggregate :
    stream [] (codes "acme") (111 ∷ rder) (55 ∷ []) (codes "op") (codes "s1")
    ≡ stream [] (codes "acme") (111 ∷ rder) (55 ∷ []) (codes "op2") (codes "s2")
unfolding stream
order-aggregate = refl

stream-aggregate_example :
    (codes "acme" ≡ codes "acme")
    × ◌≡◌ {A = List ℕ} (111 ∷ rder) (111 ∷ rder)
    × ◌≡◌ {A = List ℕ} (55 ∷ []) (55 ∷ [])
stream-aggregate_example =
    stream-aggregate (codes "acme") (codes "acme") 111 55 111 55 rder [] (codes "op") (codes "s1")
      rder [] (codes "op2") (codes "s2") acme-tenant acme-tenant order-stream order-stream
      order-aggregate

abbrev dots : List ℕ
dots = codes "../"

dots-IsByte : All IsByte dots
dots-IsByte = (omega arith, (omega arith, (omega arith, tt)))

decode_key_component-encode_key_component_example :
    decode_key_component (encode_key_component dots) ≡ some dots
decode_key_component-encode_key_component_example =
    decode_key_component-encode_key_component dots dots-IsByte

encode_key_component-injective_example : dots ≡ dots
encode_key_component-injective_example =
    encode_key_component-injective dots dots dots-IsByte dots-IsByte refl

encode_key_component_contained_example :
    All IsKeyByte (encode_key_component dots)
    × (encode_key_component dots ≢ [])
    × (encode_key_component dots ≢ 46 ∷ [])
    × (encode_key_component dots ≢ 46 ∷ 46 ∷ [])
encode_key_component_contained_example = encode_key_component_contained dots dots-IsByte
