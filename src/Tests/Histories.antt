-- ===== src/Tests/Histories.antt =====
-- Subscriptions and a compaction over a database with two events.
use bg_pls.Api.Filter.Meaning.{Among}
use bg_pls.Base.{
  true, Bool, suc, ◌-◌, ◌↔◌, ℕ, ◌+◌, ◌<◌, ◌≤◌, ◌≡◌, ◌⊎◌, refl, inl, inr, Text, text, Option, none,
  some, [], ◌∷◌, false, length, ltb, if◌then◌else◌, filter, Any, text_eq, text_lt, arith,
}
use bg_pls.Base.Dict.{lookup}
use bg_pls.Entities.{EntityKind}
use bg_pls.Store.Json.{Json, TopologyEvent}
use bg_pls.Store.Maps.{empty_maps}
use bg_pls.Store.State.{Store, ok, event_key}
use bg_pls.Store.Reads.{later_events, events, prefix_end, oldest_revision}
use bg_pls.Store.History.{subscribe, subscribed, stuck, compact_history}
use bg_pls.Store.History.Replay.{subscribe_lem}
use bg_pls.Store.History.Compaction.{compact_history-IsRecent}
use bg_pls.Api.Filter.{TopologyFilter, contains_string}
use bg_pls.Api.Page.{Page, page_bounds}
use bg_pls.Api.Peers.{reply}
use bg_pls.Api.History.{of_domains, changes_after, list_changes, diff_topology}
use bg_pls.Api.History.Changes.{diff_topology_lem, list_changes-ends}
use bg_pls.Tests.Memory.{memory, codec, scan, delete_range}

abbrev at : ℕ → TopologyEvent
at time = record {
  revision = time;
  observed_at = some time;
  entity_kind = EntityKind.node;
  entity_id = text "a";
  domain_id = if ltb time 10 then text "d" else text "e";
  operation = text "UPSERT";
  source_peer_id = [];
  before_json = [];
  after_json = [];
  reason = [];
}

-- The first byte of an event is its time.
abbrev dated : Json
dated = record codec { unmarshal_event = λ v. elim v [ [] ↦ none | b ∷ rest ↦ some (at b) ] }

abbrev first_event : Text
first_event = text "event/00000000000000000003"

abbrev second_event : Text
second_event = text "event/00000000000000000009"

abbrev two_events : Store memory dated
two_events = record {
  db = (first_event, 3 ∷ []) ∷ (second_event, 9 ∷ []) ∷ (text "node/a", text "{}") ∷ [];
  revision = 9;
  observed = none;
  maps = empty_maps;
  next_sub = 4;
  subs = [];
  closed = [];
}

events_found : events memory dated 0 0 10000 two_events ≡ ok (at 3 ∷ at 9 ∷ [])
unfolding events event_key prefix_end scan text_eq text_lt
events_found = refl

abbrev younger : Store memory dated
younger = record two_events { db = (second_event, 9 ∷ []) ∷ (text "node/a", text "{}") ∷ [] }

first_expired : compact_history memory dated (λ n. false) 5 0 two_events ≡ ok younger
unfolding compact_history prefix_end scan delete_range text_eq text_lt
first_expired = refl

second_held : memory.get two_events.db second_event ≡ some (9 ∷ [])
unfolding lookup text_eq
second_held = refl

compact_history-IsRecent_example : memory.get younger.db second_event ≡ some (9 ∷ [])
compact_history-IsRecent_example =
    compact_history-IsRecent memory dated (λ n. false) 5 0 two_events younger first_expired
      (inl refl) second_event (9 ∷ []) second_held (inr (at 9, refl, omega arith))

subscribe_lem_example :
    ((length (at 3 ∷ at 9 ∷ []) ≤ 256)
      × (subscribe memory dated 0 two_events
          ≡ subscribed 4 (record two_events {
            next_sub = 4 + 1;
            subs = record { id = 4; buffered = at 3 ∷ at 9 ∷ [] } ∷ [];
          })))
    ⊎ ((256 < length (at 3 ∷ at 9 ∷ [])) × (subscribe memory dated 0 two_events ≡ stuck))
subscribe_lem_example = subscribe_lem memory dated 0 two_events (at 3 ∷ at 9 ∷ []) events_found

abbrev third_event : Text
third_event = text "event/00000000000000000012"

abbrev three_events : Store memory dated
three_events = record two_events {
  db = (first_event, 3 ∷ []) ∷ (second_event, 9 ∷ []) ∷ (third_event, 12 ∷ []) ∷ [];
  revision = 12;
}

-- Only the third event is of this domain.
abbrev of_e : TopologyFilter
of_e = record {
  domain_ids = text "e" ∷ [];
  protocols = [];
  multi_topology_ids = [];
  freshness = [];
  source_peer_ids = [];
  conflicts_only = false;
  query = [];
}

abbrev one_each : Option Page
one_each = some (record { page_size = 1; page_token = [] })

first_page : events memory dated 0 0 2 three_events ≡ ok (at 3 ∷ at 9 ∷ [])
unfolding events event_key prefix_end scan text_eq text_lt
first_page = refl

other_domain : Any (λ e. of_domains of_e e ≡ false) (at 3 ∷ at 9 ∷ [])
unfolding of_domains contains_string text_eq
other_domain = inl refl

first_read :
    events memory dated (changes_after 0 one_each) 0 ((page_bounds one_each).0 + 1) three_events
    ≡ ok (at 3 ∷ at 9 ∷ [])
unfolding changes_after page_bounds events event_key prefix_end scan text_eq text_lt
first_read = refl

list_changes-ends_example :
    list_changes memory dated 0 0 one_each (some of_e) three_events
    ≡ reply (record {
      events = filter (of_domains of_e) (at 3 ∷ at 9 ∷ []);
      next_page_token = [];
      revision = 12;
      oldest_available_revision = oldest_revision memory dated three_events;
    })
list_changes-ends_example =
    list_changes-ends memory dated 0 0 one_each of_e three_events (at 3 ∷ at 9 ∷ []) first_read
      other_domain

-- The event that the list never shows is among the differences.
third_found : diff_topology memory dated 0 12 (some of_e) three_events ≡ reply (at 12 ∷ [])
unfolding diff_topology contains_string events event_key prefix_end scan text_eq text_lt
third_found = refl

all_read :
    later_events memory dated (suc (12 - 0)) 0 12 [] three_events ≡ ok (at 3 ∷ at 9 ∷ at 12 ∷ [])
unfolding later_events events event_key prefix_end scan text_eq text_lt
all_read = refl

diff_topology_lem_example :
    (asked : TopologyEvent → Bool) × ((e : TopologyEvent)
      → (asked e ≡ true) ↔ Among e.domain_id of_e.domain_ids)
    × (diff_topology memory dated 0 12 (some of_e) three_events
        ≡ reply (filter asked (at 3 ∷ at 9 ∷ at 12 ∷ [])))
diff_topology_lem_example =
    diff_topology_lem memory dated 0 12 of_e three_events (at 3 ∷ at 9 ∷ at 12 ∷ []) (omega arith)
      all_read
