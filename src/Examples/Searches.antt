-- ===== src/Examples/Searches.antt =====
-- Queries, legal holds and replays at concrete inputs.
use snaplink_audit_governanc.Prelude.{
  ◌≡◌, refl, true, false, [], ◌∷◌, none, some, lookup, insert, delete,
}
use snaplink_audit_governanc.Domain.Models.{Query, LegalHold}
use snaplink_audit_governanc.Search.{
  text, SearchEvent, Digests, matches, hold_matches_event, hold_can_select_any_selected, replay,
  replay_loop, apply_changes, has_target,
}
use snaplink_audit_governanc.Search.Holds.{hold_can_select_any_selected-hold_matches_event}
use snaplink_audit_governanc.Search.Replays.{changes_of, final_value, replay-final_value}

abbrev digests : Digests
digests = record {
  suffix = "__search_digest";
  is_bound = λ digest. false;
  bound_digest = λ value tenant field. none;
  unbound_digest = λ value. none;
  encrypted_fields = [];
}

abbrev march : Query
march = record {
  from_time = 10;
  to_time = 20;
  event_type = "order.created";
  source_system = "";
  actor_id = "";
  target_id = "t1";
  aggregate_type = "";
  aggregate_id = "";
  operation_id = "";
  causation_id = "";
  correlation_id = "";
  trace_id = "";
  outcome = "";
  payload_field = "";
  payload_digest = "";
  stream_id = "";
  cursor = "";
  page_size = 0;
}

abbrev lawsuit : LegalHold
lawsuit = record {
  id = "h1";
  tenant_id = "acme";
  name = "lawsuit";
  reason = "court";
  filter = record march { from_time = 15; to_time = 40; target_id = "" };
  created_by = "alice";
  created_at = 1;
  released_at = none;
  released_by = "";
}

abbrev order : SearchEvent
order = record {
  event_id = "e1";
  tenant_id = "acme";
  source_system = "erp";
  event_type = "order.created";
  schema_key = "k";
  occurred_at = 17;
  operation_id = "";
  causation_id = "";
  correlation_id = "";
  trace_id = "";
  actor_id = "bob";
  target_ids = "t0" ∷ "t1" ∷ [];
  aggregate_type = "";
  aggregate_id = "";
  outcome = "success";
  changed_fields = ("total", some (text "9")) ∷ ("note", some (text "new")) ∷ [];
  payload = [];
  stream_id = "s";
  sequence = 1;
}

abbrev correction : SearchEvent
correction = record order {
  event_id = "e2";
  sequence = 2;
  changed_fields = ("note", none) ∷ ("total", some (text "8")) ∷ [];
}

order_selected : matches digests order march ≡ true
unfolding matches has_target
order_selected = refl

order_held : hold_matches_event digests lawsuit order ≡ true
unfolding hold_matches_event matches has_target
order_held = refl

hold_can_select_any_selected-hold_matches_event_example :
    hold_can_select_any_selected lawsuit march ≡ true
hold_can_select_any_selected-hold_matches_event_example =
    hold_can_select_any_selected-hold_matches_event digests lawsuit march order order_selected
      order_held

replay-final_value_example :
    lookup "total" (replay (order ∷ correction ∷ []) "acme" "op" "").state
    ≡ final_value "total" (changes_of (order ∷ correction ∷ [])) none
replay-final_value_example = replay-final_value (order ∷ correction ∷ []) "acme" "op" "" "total"

-- The total is corrected, and the note is gone.
corrected_order :
    (lookup "total" (replay (order ∷ correction ∷ []) "acme" "op" "").state ≡ some (text "8"))
    × (lookup "note" (replay (order ∷ correction ∷ []) "acme" "op" "").state ≡ none)
unfolding replay replay_loop apply_changes insert delete lookup
corrected_order = (refl, refl)
