-- ===== src/Tests/Graphs.antt =====
-- The reconciler and the path constraints at concrete advertisements and links.
use mathlib.Core.List.Permᴰ
use bg_pls.Base.{ℕ, ◌≡◌, ◌↔◌, refl, Text, text, none, some, [], ◌∷◌, true, false, text_eq}
use bg_pls.Base.Dict.{values}
use bg_pls.Entities.{EntityKind, Node, Link, Message, node_message, empty_meta, freshness_active}
use bg_pls.Topology.Reconcile.{Advertisement, Sources, ordered, canonical}
use bg_pls.Topology.Reconcile.Order.{IsDistinct, canonical_order}
use bg_pls.Topology.Graph.{PathConstraints, eligible}
use bg_pls.Topology.Graph.Constraints.{Admits, eligible_iff}

abbrev pub router : Text → Text → Node
router id name = record {
  meta = some (record empty_meta { id = id; freshness = freshness_active });
  protocol = 2;
  autonomous_system = 64512;
  area_id = [];
  igp_router_id = text "0000.0000.0001";
  bgp_router_id = [];
  name = name;
  pseudonode = false;
  multi_topology_ids = [];
  algorithms = [];
  segment_routing_global_blocks = [];
  attributes = [];
  ipv4_router_id = [];
  ipv6_router_id = [];
}

abbrev pub node_a : Node
node_a = router (text "a") (text "east")

abbrev pub node_b : Node
node_b = router (text "b") (text "west")

abbrev node_named : Text → Message
node_named name = node_message (router (text "n") name)

abbrev sent_by : Text → ℕ → Advertisement
sent_by peer preference = record {
  kind = EntityKind.node;
  id = text "n";
  domain_id = text "d";
  peer_id = peer;
  preference = preference;
  withdraw = false;
  value = some (node_named peer);
}

abbrev east : Advertisement
east = sent_by (text "east") 10

abbrev west : Advertisement
west = sent_by (text "west") 20

abbrev east_first : Sources
east_first = (text "east", east) ∷ (text "west", west) ∷ []

abbrev west_first : Sources
west_first = (text "west", west) ∷ (text "east", east) ∷ []

both-IsDistinct : IsDistinct (values east_first)
unfolding text_eq
both-IsDistinct = ((refl, tt), (tt, tt))

canonical_order_example : canonical (ordered east_first) ≡ canonical (ordered west_first)
canonical_order_example =
    canonical_order east_first west_first (Permᴰ.swap refl refl) both-IsDistinct

abbrev pub red_link : Link
red_link = record {
  meta = none;
  local_node_id = text "a";
  remote_node_id = text "b";
  local_address = [];
  remote_address = [];
  local_link_id = 0;
  remote_link_id = 0;
  multi_topology_id = 2;
  igp_metric = 0;
  te_metric = 7;
  delay_microseconds = 0;
  max_bandwidth_bytes_per_second = 1000;
  reservable_bandwidth_bytes_per_second = 500;
  unreserved_bandwidth_bytes_per_second = [];
  admin_groups = 3 ∷ [];
  srlgs = [];
  adjacency_sids = [];
  attributes = [];
  local_ipv4_address = [];
  remote_ipv4_address = [];
  local_ipv6_address = [];
  remote_ipv6_address = [];
}

abbrev red_only : PathConstraints
red_only = record {
  multi_topology_id = 2;
  minimum_reservable_bandwidth_bytes_per_second = 100;
  require_admin_groups = 3 ∷ [];
  exclude_admin_groups = 4 ∷ [];
  include_node_ids = [];
  avoid_node_ids = text "c" ∷ [];
  avoid_link_ids = [];
}

red_eligible : eligible red_link (some red_only) ≡ true
unfolding eligible text_eq
red_eligible = refl

eligible_iff_example : (eligible red_link (some red_only) ≡ true) ↔ Admits red_only red_link
eligible_iff_example = eligible_iff red_link red_only

abbrev one : ℕ
one = 1
