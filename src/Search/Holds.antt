-- ===== src/Search/Holds.antt =====
-- The filter that the export gate applies to legal holds before it reads any event.
use snaplink_audit_governanc.Prelude.{◌≡◌, true, not, ◌&&◌, ltb, arith}
use snaplink_audit_governanc.Domain.Models.{Query, LegalHold}
use snaplink_audit_governanc.Search.{
  Digests, SearchEvent, matches, hold_matches_event, hold_can_select_any_selected,
}

in_window :
    (d : Digests) (event : SearchEvent) (query : Query)
    → matches d event query ≡ true
    → (not (ltb event.occurred_at query.from_time) && ltb event.occurred_at query.to_time) ≡ true
unfolding matches
in_window d event query h = ground (arith, h)

-- A hold that matches an event which the export's query selects is never dropped before the events are
-- read, whatever the windows and the other filters of both are.
pub hold_can_select_any_selected-hold_matches_event :
    (d : Digests) (hold : LegalHold) (query : Query) (event : SearchEvent)
    → matches d event query ≡ true
    → hold_matches_event d hold event ≡ true
    → hold_can_select_any_selected hold query ≡ true
unfolding hold_matches_event hold_can_select_any_selected
hold_can_select_any_selected-hold_matches_event d hold query event selected held =
    ground (arith, held, in_window d event query selected, in_window d event hold.filter)
