-- ===== src/Store/Maps.antt =====
-- The current entities in memory, and the functions that read and change them: `lookupLocked`,
-- `setRevision`, `ensureMeta`, `applyMemoryLocked` and `undoEntity`.
pub mod Undo
use bg_pls.Base.{
  ℕ, Text, text, Option, none, some, List, [], ◌∷◌, Bool, true, false, ◌&&◌, ◌||◌, ◌==◌, text_eq,
  is_empty, if◌then◌else◌,
}
use bg_pls.Base.Dict.{Dict, lookup, insert, erase}
use bg_pls.Entities.{
  EntityKind, freshness_unspecified, freshness_active, EntityMeta, empty_meta, get_meta, Node, Link,
  Prefix, Peer, Domain, Message, node_message, link_message, prefix_message, peer_message,
  domain_message,
}
use bg_pls.Store.Json.{Json, TopologyEvent}

pub record Maps : Type 0 where
  pub nodes : Dict Node
  pub links : Dict Link
  pub prefixes : Dict Prefix
  pub peers : Dict Peer
  pub domains : Dict Domain

abbrev pub empty_maps : Maps
empty_maps = record { nodes = []; links = []; prefixes = []; peers = []; domains = [] }

pub record Mutation : Type 0 where
  pub kind : EntityKind
  pub id : Text
  pub domain_id : Text
  pub peer_id : Text
  pub reason : Text
  pub delete : Bool
  pub value : Option Message

-- The three results of `lookupLocked`: a key prefix with the entity or with `ErrNotFound`, or
-- the error for a kind without a map.
pub data Lookup : Type 0 where
  hit : Text → Message → Lookup
  miss : Text → Lookup
  unsupported : Lookup

found : {A : Type 0} → Text → (A → Message) → Option A → Lookup
found prefix wrap none = miss prefix
found prefix wrap (some v) = hit prefix (wrap v)

unfoldable pub lookup_locked : Maps → EntityKind → Text → Lookup
unfolding found
lookup_locked s EntityKind.node id = found (text "node/") node_message (lookup id s.nodes)
lookup_locked s EntityKind.link id = found (text "link/") link_message (lookup id s.links)
lookup_locked s EntityKind.prefix id = found (text "prefix/") prefix_message (lookup id s.prefixes)
lookup_locked s EntityKind.peer id = found (text "peer/") peer_message (lookup id s.peers)
lookup_locked s EntityKind.unspecified id =
    found (text "domain/") domain_message (lookup id s.domains)
lookup_locked s (EntityKind.other n) id = unsupported

ensure_meta : Option EntityMeta → ℕ → ℕ → EntityMeta
ensure_meta meta rev now =
    let m = get_meta meta in
    record m {
      revision = rev;
      last_seen = some now;
      first_seen = elim m.first_seen [ none ↦ some now | some t ↦ some t ];
      freshness = if m.freshness == freshness_unspecified then freshness_active else m.freshness;
    }

unfoldable pub set_revision : Message → ℕ → ℕ → Message
unfolding ensure_meta
set_revision (node_message x) rev now =
    node_message (record x { meta = some (ensure_meta x.meta rev now) })
set_revision (link_message x) rev now =
    link_message (record x { meta = some (ensure_meta x.meta rev now) })
set_revision (prefix_message x) rev now =
    prefix_message (record x { meta = some (ensure_meta x.meta rev now) })
set_revision (peer_message x) rev now = peer_message (record x { resource_version = rev })
set_revision (domain_message x) rev now = domain_message (record x { revision = rev })

unfoldable pub delete_entity : EntityKind → Text → Maps → Maps
delete_entity EntityKind.node id s = record s { nodes = erase id s.nodes }
delete_entity EntityKind.link id s = record s { links = erase id s.links }
delete_entity EntityKind.prefix id s = record s { prefixes = erase id s.prefixes }
delete_entity EntityKind.peer id s = record s { peers = erase id s.peers }
delete_entity EntityKind.unspecified id s = record s { domains = erase id s.domains }
delete_entity (EntityKind.other n) id s = record s { domains = erase id s.domains }

unfoldable pub upsert_entity : Text → Message → Maps → Maps
upsert_entity id (node_message v) s = record s { nodes = insert id v s.nodes }
upsert_entity id (link_message v) s = record s { links = insert id v s.links }
upsert_entity id (prefix_message v) s = record s { prefixes = insert id v s.prefixes }
upsert_entity id (peer_message v) s = record s { peers = insert id v s.peers }
upsert_entity id (domain_message v) s = record s { domains = insert id v s.domains }

-- `applyMemoryLocked`: a deletion goes by the kind, an upsert by the type of the value.
unfoldable pub apply_memory_locked : Mutation → Option Message → Maps → Maps
unfolding delete_entity upsert_entity
apply_memory_locked m value s =
    if m.delete
    then delete_entity m.kind m.id s
    else elim value [ none ↦ s | some v ↦ upsert_entity m.id v s ]

module _ (json : Json) where
  -- The entity of the event's kind that the bytes decode to.
  unfoldable pub decode_entity : EntityKind → Text → Option Message
  decode_entity EntityKind.node b = elim (json.unmarshal_node b) [
    | none ↦ none
    | some v ↦ some (node_message v)
  ]
  decode_entity EntityKind.link b = elim (json.unmarshal_link b) [
    | none ↦ none
    | some v ↦ some (link_message v)
  ]
  decode_entity EntityKind.prefix b = elim (json.unmarshal_prefix b) [
    | none ↦ none
    | some v ↦ some (prefix_message v)
  ]
  decode_entity EntityKind.peer b = elim (json.unmarshal_peer b) [
    | none ↦ none
    | some v ↦ some (peer_message v)
  ]
  decode_entity EntityKind.unspecified b = elim (json.unmarshal_domain b) [
    | none ↦ none
    | some v ↦ some (domain_message v)
  ]
  decode_entity (EntityKind.other n) b = elim (json.unmarshal_domain b) [
    | none ↦ none
    | some v ↦ some (domain_message v)
  ]

  -- `undoEntity`: an event without a before-image created the entity; otherwise the before-image
  -- is put back, and one that cannot be decoded is passed over.
  unfoldable pub undo_with : EntityKind → Text → Text → Maps → Maps
  unfolding decode_entity delete_entity upsert_entity
  undo_with kind id before s =
      if is_empty before || text_eq before (text "null")
      then delete_entity kind id s
      else elim (decode_entity kind before) [ none ↦ s | some v ↦ upsert_entity id v s ]

  unfoldable pub undo_entity : TopologyEvent → Maps → Maps
  undo_entity event s = undo_with event.entity_kind event.entity_id event.before_json s
