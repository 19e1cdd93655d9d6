-- ===== src/Ledger/Archiving/DeadLetters.antt =====
-- The keys of dead letters.
use snaplink_audit_governanc.Prelude.{◌≡◌, ◌≢◌, refl, ap, sym, ◌∙◌, String, ◌+++◌}
use snaplink_audit_governanc.Prelude.Texts.{codes}
use snaplink_audit_governanc.Domain.Errors.{ok, err, invalid}
use snaplink_audit_governanc.Domain.Identifiers.{
  require_tenant_scope, valid_key_component, is_bad_rune, is_control, is_space,
}
use snaplink_audit_governanc.Ledger.Models.{Segment, Evidence, framed_key, separator}
use snaplink_audit_governanc.Ledger.Keys.{framed_key-injective, codes-append}
use snaplink_audit_governanc.Ledger.Linked.Keeps.{key_of_scope}
use snaplink_audit_governanc.Ledger.Archiving.{segment_event_id, segment_dead_letter_key}

-- No accepted identifier looks like the synthetic one of a segment.
segment_event_id-refused :
    (rest : String) → valid_key_component (codes ("seg" +++ (separator +++ rest))) ≡ err invalid
unfolding valid_key_component is_bad_rune is_control is_space
segment_event_id-refused rest =
    rw (codes-append "seg" (separator +++ rest), codes-append separator rest) refl

-- The dead letter of a segment never stands under the key of an event: an event's identifier is an
-- accepted key component, and both tenants are accepted.
pub segment_dead_letter_key-apart :
    (v : Evidence) (segment : Segment) (tenant event_id : String)
    → require_tenant_scope (codes segment.tenant_id) ≡ ok tt
    → require_tenant_scope (codes tenant) ≡ ok tt
    → valid_key_component (codes event_id) ≡ ok tt
    → framed_key tenant event_id ≢ segment_dead_letter_key v segment
unfolding segment_dead_letter_key segment_event_id
segment_dead_letter_key-apart v segment tenant event_id own scope valid same =
    let (tenants, ids) =
      framed_key-injective tenant event_id segment.tenant_id (segment_event_id v segment)
        (key_of_scope tenant scope) (key_of_scope segment.tenant_id own) same in
    let clash : err invalid ≡ ok tt =
      sym (
        segment_event_id-refused (
          segment.stream_id
          +++ ":"
          +++ v.format_int segment.first_sequence
          +++ "-"
          +++ v.format_int segment.last_sequence))
      ∙ ap (λ id. valid_key_component (codes id)) (sym ids)
      ∙ valid in
    absurd cc
