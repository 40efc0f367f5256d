-- ===== src/Topology/Graph.antt =====
-- internal/topology/graph.go: the graph of the active entities, link metrics and constraints.
-- `map[uint32]bool` is the list of its true keys.
pub mod Constraints
pub mod Rooted
pub mod Compute
pub mod Impact
pub mod Search
use bg_pls.Base.{
  ℕ, Text, Option, none, some, List, [], ◌∷◌, ◌++◌, Bool, true, false, not, ◌&&◌, ◌||◌, ◌==◌, ltb,
  map, any, text_eq, text_lt, sort, if◌then◌else◌,
}
use bg_pls.Base.Dict.{Dict, lookup, insert}
use bg_pls.Entities.{freshness_active, get_meta, Node, Link}

pub record Graph : Type 0 where
  pub revision : ℕ
  pub nodes : Dict Node
  pub links : Dict Link
  pub adj : Dict (List Link)

abbrev pub link_id : Link → Text
link_id l = (get_meta l.meta).id

abbrev pub node_id : Node → Text
node_id n = (get_meta n.meta).id

unfoldable pub add_nodes : List Node → Dict Node → Dict Node
add_nodes [] nodes = nodes
add_nodes (n ∷ ns) nodes =
    add_nodes ns (
      if (get_meta n.meta).freshness == freshness_active then insert (node_id n) n nodes else nodes)

abbrev pub has_key {ℓ} : {V : Type ℓ} → Text → Dict V → Bool
has_key k m = elim (lookup k m) [ none ↦ false | some _ ↦ true ]

-- `g.adj[id]`; a missing key reads as the empty slice.
unfoldable pub adjacent : Dict (List Link) → Text → List Link
adjacent adj id = elim (lookup id adj) [ none ↦ [] | some ls ↦ ls ]

unfoldable pub is_usable : Dict Node → Link → Bool
is_usable nodes l =
    (get_meta l.meta).freshness == freshness_active
    && has_key l.local_node_id nodes
    && has_key l.remote_node_id nodes

unfoldable pub add_links :
    Dict Node → List Link → Dict Link × Dict (List Link) → Dict Link × Dict (List Link)
unfolding is_usable adjacent
add_links nodes [] (links, adj) = (links, adj)
add_links nodes (l ∷ ls) (links, adj) = add_links nodes ls (
    if is_usable nodes l
    then (
      insert (link_id l) l links,
      insert l.local_node_id (adjacent adj l.local_node_id ++ l ∷ []) adj,
    )
    else (links, adj))

unfoldable pub by_link_id : Link → Link → Bool
by_link_id a b = text_lt (link_id a) (link_id b)

unfoldable pub sort_adjacent : Dict (List Link) → Dict (List Link)
unfolding by_link_id
sort_adjacent = map (λ e. (e.0, sort by_link_id e.1))

unfoldable pub new_graph : ℕ → List Node → List Link → Graph
unfolding add_nodes add_links sort_adjacent
new_graph revision nodes links =
    let active = add_nodes nodes [] in
    let (kept, adj) = add_links active links ([], []) in
    record { revision = revision; nodes = active; links = kept; adj = sort_adjacent adj }

-- `igp` stands for every value that is neither TE nor delay.
pub data PathMetric : Type 0 where
  igp te delay : PathMetric

-- The weight of a link; `none` makes the link unusable for the metric. `PATH_METRIC_UNSPECIFIED`
-- and unknown numbers take the default branch, as `igp` does.
unfoldable pub metric : Link → PathMetric → Option ℕ
metric l te = if l.te_metric == 0 then none else some l.te_metric
metric l delay = if l.delay_microseconds == 0 then none else some l.delay_microseconds
metric l igp = if l.igp_metric == 0 then some 1 else some l.igp_metric

pub record PathConstraints : Type 0 where
  pub multi_topology_id : ℕ
  pub minimum_reservable_bandwidth_bytes_per_second : ℕ
  pub require_admin_groups : List ℕ
  pub exclude_admin_groups : List ℕ
  pub include_node_ids : List Text
  pub avoid_node_ids : List Text
  pub avoid_link_ids : List Text

abbrev pub in_group : List ℕ → ℕ → Bool
in_group groups v = any (λ g. g == v) groups

unfoldable pub eligible : Link → Option PathConstraints → Bool
eligible l none = true
eligible l (some c) =
    if not (c.multi_topology_id == 0) && not (l.multi_topology_id == c.multi_topology_id)
    then false
    else if ltb 0 c.minimum_reservable_bandwidth_bytes_per_second
        && ltb l.reservable_bandwidth_bytes_per_second
            c.minimum_reservable_bandwidth_bytes_per_second
    then false
    else if any (λ id. text_eq id (link_id l)) c.avoid_link_ids
    then false
    else if any (λ id. text_eq id l.local_node_id || text_eq id l.remote_node_id) c.avoid_node_ids
    then false
    else if any (λ v. not (in_group l.admin_groups v)) c.require_admin_groups
    then false
    else if any (λ v. in_group l.admin_groups v) c.exclude_admin_groups
    then false
    else true
