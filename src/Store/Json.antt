-- ===== src/Store/Json.antt =====
-- `TopologyEvent`, and what the store relies on of `encoding/json` applied to the generated
-- message types: a message whose strings are valid UTF-8 (`IsPlain`) is read back as it was.
use bg_pls.Base.{Text, text, Option, some, [], ◌≡◌, ◌≢◌, ℕ}
use bg_pls.Entities.{
  EntityKind, Node, Link, Prefix, Peer, Domain, Message, node_message, link_message, prefix_message,
  peer_message, domain_message,
}

pub record TopologyEvent : Type 0 where
  pub revision : ℕ
  pub observed_at : Option ℕ
  pub entity_kind : EntityKind
  pub entity_id : Text
  pub domain_id : Text
  pub operation : Text
  pub source_peer_id : Text
  pub before_json : Text
  pub after_json : Text
  pub reason : Text

pub record Json : Type 1 where
  -- `none` is a marshalling error.
  pub marshal : Message → Option Text
  pub unmarshal_node : Text → Option Node
  pub unmarshal_link : Text → Option Link
  pub unmarshal_prefix : Text → Option Prefix
  pub unmarshal_peer : Text → Option Peer
  pub unmarshal_domain : Text → Option Domain
  pub marshal_event : TopologyEvent → Option Text
  pub unmarshal_event : Text → Option TopologyEvent
  pub IsPlain : Message → Type 0
  pub unmarshal_node-marshal :
      (v : Node) (b : Text)
      → IsPlain (node_message v)
      → marshal (node_message v) ≡ some b
      → unmarshal_node b ≡ some v
  pub unmarshal_link-marshal :
      (v : Link) (b : Text)
      → IsPlain (link_message v)
      → marshal (link_message v) ≡ some b
      → unmarshal_link b ≡ some v
  pub unmarshal_prefix-marshal :
      (v : Prefix) (b : Text)
      → IsPlain (prefix_message v)
      → marshal (prefix_message v) ≡ some b
      → unmarshal_prefix b ≡ some v
  pub unmarshal_peer-marshal :
      (v : Peer) (b : Text)
      → IsPlain (peer_message v)
      → marshal (peer_message v) ≡ some b
      → unmarshal_peer b ≡ some v
  pub unmarshal_domain-marshal :
      (v : Domain) (b : Text)
      → IsPlain (domain_message v)
      → marshal (domain_message v) ≡ some b
      → unmarshal_domain b ≡ some v
  -- A message is written as an object: not as nothing and not as `null`.
  pub marshal-ne-nil : (v : Message) → marshal v ≢ some []
  pub marshal-ne-null : (v : Message) → marshal v ≢ some (text "null")
