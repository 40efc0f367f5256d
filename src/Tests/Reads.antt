-- ===== src/Tests/Reads.antt =====
-- The topology service over a store with two nodes and a link.
use bg_pls.Base.{
  arith, true, ◌↔◌, ◌≡◌, refl, ◌⊎◌, text, none, some, [], ◌∷◌, false, filter, All, Any,
}
use bg_pls.Entities.{empty_meta, get_meta, freshness_active, Node, Link}
use bg_pls.Store.Maps.{empty_maps}
use bg_pls.Store.State.{Store, ok}
use bg_pls.Base.Dict.{lookup}
use bg_pls.Store.Reads.{Snapshot, snapshot, snapshot_at, sorted_maps, index_maps}
use bg_pls.Store.Reads.Expired.{IsForgotten, snapshot_at-forgotten}
use bg_pls.Base.Ascii.{lower_byte, contains}
use bg_pls.Api.Filter.{
  TopologyFilter, contains_string, contains_freshness, sources_match, node_match,
}
use bg_pls.Api.Filter.Meaning.{NodeAdmits, node_match_iff}
use bg_pls.Api.Peers.{reply, refuse, Code}
use bg_pls.Api.Topology.{Neighbors, get_node, get_neighbors}
use bg_pls.Api.Topology.Found.{Answers, touches, get_node_lem, get_neighbors-links}
use bg_pls.Tests.Memory.{memory, codec}
use bg_pls.Tests.Graphs.{node_a, node_b, red_link}

abbrev active_link : Link
active_link = record red_link {
  meta = some (record empty_meta { id = text "l"; freshness = freshness_active });
}

abbrev two_nodes : Store memory codec
two_nodes = record {
  db = [];
  revision = 5;
  observed = none;
  maps = record empty_maps {
    nodes = (text "b", node_b) ∷ (text "a", node_a) ∷ [];
    links = (text "l", active_link) ∷ [];
  };
  next_sub = 0;
  subs = [];
  closed = [];
}

abbrev pub current : Snapshot
current = snapshot memory codec two_nodes

current_snapshot : snapshot_at memory codec 0 two_nodes ≡ ok current
unfolding snapshot_at
current_snapshot = refl

get_node_lem_example :
    ((v : Node) × (get_node memory codec 0 (text "a") false two_nodes ≡ reply (v, current.revision))
      × Any (λ w. w ≡ v) current.nodes
      × Answers (λ n. get_meta n.meta) (text "a") false v)
    ⊎ ((get_node memory codec 0 (text "a") false two_nodes ≡ refuse Code.not_found)
        × All (λ v. ¬ Answers (λ n. get_meta n.meta) (text "a") false v) current.nodes)
get_node_lem_example =
    get_node_lem memory codec 0 (text "a") false two_nodes current current_snapshot

get_neighbors-links_example :
    (out : Neighbors) × (get_neighbors memory codec 0 (text "a") none two_nodes
      ≡ reply (out, current.revision))
    × (out.links ≡ filter (touches (text "a") none) current.links)
get_neighbors-links_example =
    get_neighbors-links memory codec 0 (text "a") none two_nodes current current_snapshot

-- The database of this store holds no event.
two_nodes-IsForgotten : IsForgotten memory codec two_nodes
unfolding lookup
two_nodes-IsForgotten k above below = refl

snapshot_at-forgotten_example :
    snapshot_at memory codec 3 two_nodes ≡ ok (sorted_maps 3 none (index_maps current))
snapshot_at-forgotten_example =
    snapshot_at-forgotten memory codec 3 two_nodes two_nodes-IsForgotten (omega arith) (omega arith)

abbrev east_only : TopologyFilter
east_only = record {
  domain_ids = [];
  protocols = 2 ∷ [];
  multi_topology_ids = [];
  freshness = [];
  source_peer_ids = [];
  conflicts_only = false;
  query = text "EAST";
}

east_found : node_match node_a (some east_only) ≡ true
unfolding node_match contains_string contains_freshness sources_match contains lower_byte
east_found = refl

node_match_iff_example : (node_match node_a (some east_only) ≡ true) ↔ NodeAdmits east_only node_a
node_match_iff_example = node_match_iff node_a east_only
