-- ===== src/Entities.antt =====
-- The messages of gen/bgpls/v1/types.pb.go and the parts of topology.pb.go that the program
-- computes with. A string is a list of bytes, an enum is its number where the code only compares
-- it, a time is a number of nanoseconds and a nil pointer is `none`. A bandwidth (`float64`) is
-- the bit pattern of a non-negative finite value: the order of these patterns is the order of the
-- values, and 0 is the pattern of 0.0. Internal protobuf bookkeeping fields are left out.
use bg_pls.Base.{ℕ, Text, Option, none, some, List, [], Bool}

-- `Freshness`, an int32: the constants are those that the code names.
abbrev pub Freshness : Type 0
Freshness = ℕ

abbrev pub freshness_unspecified : Freshness
freshness_unspecified = 0

abbrev pub freshness_active : Freshness
freshness_active = 1

abbrev pub freshness_stale_source_lost : Freshness
freshness_stale_source_lost = 2

-- `EntityKind`: the enum is open, `other` stands for every number that has no name.
pub data EntityKind : Type 0 where
  unspecified node link prefix peer : EntityKind
  other : ℕ → EntityKind

-- `PeerSessionState`.
pub data PeerSessionState : Type 0 where
  unspecified disabled idle connect active open_sent open_confirm established : PeerSessionState

pub record RawTlv : Type 0 where
  pub tlv_type : ℕ
  pub value : Text
  pub registry : Text
  pub enterprise_number : ℕ

pub record Attribute : Type 0 where
  pub name : Text
  pub value : Text
  pub source_peer_id : Text

pub record Conflict : Type 0 where
  pub field : Text
  pub selected_value : Text
  pub selected_peer_id : Text
  pub rejected_value : Text
  pub rejected_peer_id : Text

pub record EntityMeta : Type 0 where
  pub id : Text
  pub domain_id : Text
  pub revision : ℕ
  pub first_seen : Option ℕ
  pub last_seen : Option ℕ
  pub freshness : Freshness
  pub source_peer_ids : List Text
  pub conflicts : List Conflict
  pub decoded_tlvs : List RawTlv

-- `&EntityMeta{}`.
abbrev pub empty_meta : EntityMeta
empty_meta = record {
  id = [];
  domain_id = [];
  revision = 0;
  first_seen = none;
  last_seen = none;
  freshness = freshness_unspecified;
  source_peer_ids = [];
  conflicts = [];
  decoded_tlvs = [];
}

-- The getters read a nil `Meta` as the empty one.
abbrev pub get_meta : Option EntityMeta → EntityMeta
get_meta none = empty_meta
get_meta (some m) = m

pub record Domain : Type 0 where
  pub id : Text
  pub name : Text
  pub description : Text
  pub revision : ℕ

pub record Node : Type 0 where
  pub meta : Option EntityMeta
  pub protocol : ℕ
  pub autonomous_system : ℕ
  pub area_id : Text
  pub igp_router_id : Text
  pub bgp_router_id : Text
  pub name : Text
  pub pseudonode : Bool
  pub multi_topology_ids : List ℕ
  pub algorithms : List ℕ
  pub segment_routing_global_blocks : List ℕ
  pub attributes : List Attribute
  pub ipv4_router_id : Text
  pub ipv6_router_id : Text

pub record Link : Type 0 where
  pub meta : Option EntityMeta
  pub local_node_id : Text
  pub remote_node_id : Text
  pub local_address : Text
  pub remote_address : Text
  pub local_link_id : ℕ
  pub remote_link_id : ℕ
  pub multi_topology_id : ℕ
  pub igp_metric : ℕ
  pub te_metric : ℕ
  pub delay_microseconds : ℕ
  pub max_bandwidth_bytes_per_second : ℕ
  pub reservable_bandwidth_bytes_per_second : ℕ
  pub unreserved_bandwidth_bytes_per_second : List ℕ
  pub admin_groups : List ℕ
  pub srlgs : List ℕ
  pub adjacency_sids : List ℕ
  pub attributes : List Attribute
  pub local_ipv4_address : Text
  pub remote_ipv4_address : Text
  pub local_ipv6_address : Text
  pub remote_ipv6_address : Text

pub record Prefix : Type 0 where
  pub meta : Option EntityMeta
  pub prefix : Text
  pub origin_node_id : Text
  pub multi_topology_id : ℕ
  pub metric : ℕ
  pub route_tags : List ℕ
  pub forwarding_address : Text
  pub prefix_sid : ℕ
  pub attributes : List Attribute

pub record Peer : Type 0 where
  pub id : Text
  pub domain_id : Text
  pub name : Text
  pub remote_address : Text
  pub local_address : Text
  pub local_as : ℕ
  pub remote_as : ℕ
  pub source_preference : ℕ
  pub enabled : Bool
  pub passive : Bool
  pub ebgp_multihop : Bool
  pub multihop_ttl : ℕ
  pub gtsm : Bool
  pub tcp_md5_secret : Text
  pub session_state : PeerSessionState
  pub router_id : Text
  pub established_at : Option ℕ
  pub last_state_change : Option ℕ
  pub last_error : Text
  pub received_updates : ℕ
  pub rejected_updates : ℕ
  pub resource_version : ℕ
  pub capabilities : List Text

-- A non-nil `proto.Message` that the store can hold.
pub data Message : Type 0 where
  node_message : Node → Message
  link_message : Link → Message
  prefix_message : Prefix → Message
  peer_message : Peer → Message
  domain_message : Domain → Message
