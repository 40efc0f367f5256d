-- ===== src/Store/Reads/Run.antt =====
-- A history: several mutations one after the other, and the undoing of all their events.
use bg_pls.Base.{
  ℕ, ◌≡◌, List, [], ◌∷◌, text_eq, is_empty, ◌||◌, Bool-cases, inl, inr, Bool, Text, text,
  Option-cases,
}
use bg_pls.Base.Dict.{lookup, insert-agree, erase-agree}
use bg_pls.Entities.{
  EntityKind, Message, node_message, link_message, prefix_message, peer_message, domain_message,
}
use bg_pls.Store.Pebble.{Pebble}
use bg_pls.Store.Json.{Json, TopologyEvent}
use bg_pls.Store.Maps.{
  Maps, Mutation, delete_entity, upsert_entity, decode_entity, undo_with, undo_entity,
}
use bg_pls.Store.Maps.Undo.{SameMaps, SameMaps-refl, SameMaps-trans, OfKind}
use bg_pls.Store.State.{Store, Applied, ok, apply}
use bg_pls.Store.State.Journal.{IsReadable, undo-apply}
use bg_pls.Store.Reads.{undo_all}

same_maps :
    {s t : Maps}
    → ((k : Text) → lookup k s.nodes ≡ lookup k t.nodes)
    → ((k : Text) → lookup k s.links ≡ lookup k t.links)
    → ((k : Text) → lookup k s.prefixes ≡ lookup k t.prefixes)
    → ((k : Text) → lookup k s.peers ≡ lookup k t.peers)
    → ((k : Text) → lookup k s.domains ≡ lookup k t.domains)
    → SameMaps s t
same_maps nodes links prefixes peers domains = record {
  nodes = nodes;
  links = links;
  prefixes = prefixes;
  peers = peers;
  domains = domains;
}

upsert-SameMaps :
    (id : Text) (v : Message) {s t : Maps}
    → SameMaps s t
    → SameMaps (upsert_entity id v s) (upsert_entity id v t)
unfolding upsert_entity
upsert-SameMaps id (node_message v) h =
    same_maps (insert-agree id v _ _ h.nodes) h.links h.prefixes h.peers h.domains
upsert-SameMaps id (link_message v) h =
    same_maps h.nodes (insert-agree id v _ _ h.links) h.prefixes h.peers h.domains
upsert-SameMaps id (prefix_message v) h =
    same_maps h.nodes h.links (insert-agree id v _ _ h.prefixes) h.peers h.domains
upsert-SameMaps id (peer_message v) h =
    same_maps h.nodes h.links h.prefixes (insert-agree id v _ _ h.peers) h.domains
upsert-SameMaps id (domain_message v) h =
    same_maps h.nodes h.links h.prefixes h.peers (insert-agree id v _ _ h.domains)

delete-SameMaps :
    (kind : EntityKind) (id : Text) {s t : Maps}
    → SameMaps s t
    → SameMaps (delete_entity kind id s) (delete_entity kind id t)
unfolding delete_entity
delete-SameMaps EntityKind.node id h =
    same_maps (erase-agree id _ _ h.nodes) h.links h.prefixes h.peers h.domains
delete-SameMaps EntityKind.link id h =
    same_maps h.nodes (erase-agree id _ _ h.links) h.prefixes h.peers h.domains
delete-SameMaps EntityKind.prefix id h =
    same_maps h.nodes h.links (erase-agree id _ _ h.prefixes) h.peers h.domains
delete-SameMaps EntityKind.peer id h =
    same_maps h.nodes h.links h.prefixes (erase-agree id _ _ h.peers) h.domains
delete-SameMaps EntityKind.unspecified id h =
    same_maps h.nodes h.links h.prefixes h.peers (erase-agree id _ _ h.domains)
delete-SameMaps (EntityKind.other n) id h =
    same_maps h.nodes h.links h.prefixes h.peers (erase-agree id _ _ h.domains)

module _ (pebble : Pebble) (json : Json) where
  undo-SameMaps :
      (e : TopologyEvent) {s t : Maps}
      → SameMaps s t
      → SameMaps (undo_entity json e s) (undo_entity json e t)
  unfolding undo_entity undo_with
  undo-SameMaps e {s} {t} h =
      elim (Bool-cases (is_empty e.before_json || text_eq e.before_json (text "null"))) [
        | inl gone ↦ rw gone (delete-SameMaps e.entity_kind e.entity_id h)
        | inr there ↦ elim (Option-cases (decode_entity json e.entity_kind e.before_json)) [
          | inl bad ↦ rw (there, bad) h
          | inr (v, good) ↦ rw (there, good) (upsert-SameMaps e.entity_id v h)
        ]
      ]

  undo_all-SameMaps :
      (es : List TopologyEvent) {s t : Maps}
      → SameMaps s t
      → SameMaps (undo_all pebble json es s) (undo_all pebble json es t)
  unfolding undo_all
  undo_all-SameMaps [] h = h
  undo_all-SameMaps (e ∷ es) h = undo-SameMaps e (undo_all-SameMaps es h)

  -- Successful mutations one after the other, with their events in order. Each value is of its
  -- mutation's kind, and what each replaces or deletes can be written and read back.
  pub data Run : Store pebble json → List TopologyEvent → Store pebble json → Type 0 where
    stay : {s : Store pebble json} → Run s [] s
    step :
        {s : Store pebble json} (c : Bool) (now : ℕ) (m : Mutation) (r : Applied pebble json)
        {es : List TopologyEvent} {t : Store pebble json}
        → apply pebble json c now m s ≡ ok r
        → OfKind json m.kind m.value
        → IsReadable pebble json s.maps m.kind m.id
        → Run r.store es t
        → Run s (r.event ∷ es) t

  -- After any run of successful mutations, undoing its events from the last to the first gives the
  -- maps from before the run, key for key, where each value is of its mutation's kind and what each
  -- mutation replaces or deletes can be written and read back.
  pub undo_all-Run :
      {s t : Store pebble json} {es : List TopologyEvent}
      → Run s es t
      → SameMaps (undo_all pebble json es t.maps) s.maps
  unfolding undo_all
  undo_all-Run {s} Run.stay = SameMaps-refl s.maps
  undo_all-Run {s} (Run.step c now m r e kind readable rest) =
      SameMaps-trans (undo-SameMaps r.event (undo_all-Run rest))
        (undo-apply pebble json c now m s r e kind readable)
