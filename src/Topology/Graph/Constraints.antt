-- ===== src/Topology/Graph/Constraints.antt =====
-- The links that the constraints admit.
use bg_pls.Base.{
  ℕ, ◌≤◌, ◌≡◌, ◌≢◌, ◌↔◌, ◌⊎◌, Text, some, List, true, false, not, ◌||◌, any, All, Any, text_eq,
  text_eq_iff, arith,
}
use bg_pls.Base.Anys.{any-true, any-false}
use bg_pls.Entities.{Link}
use bg_pls.Topology.Graph.{PathConstraints, link_id, in_group, eligible}

-- What the constraints ask of a link, in words of the request.
pub record Admits (c : PathConstraints) (l : Link) : Type 0 where
  pub topology : (c.multi_topology_id ≡ 0) ⊎ (l.multi_topology_id ≡ c.multi_topology_id)
  pub bandwidth :
      c.minimum_reservable_bandwidth_bytes_per_second ≤ l.reservable_bandwidth_bytes_per_second
  pub avoided_links : All (λ id. id ≢ link_id l) c.avoid_link_ids
  pub avoided_nodes : All (λ id. (id ≢ l.local_node_id) × (id ≢ l.remote_node_id)) c.avoid_node_ids
  pub required : All (λ v. Any (λ g. g ≡ v) l.admin_groups) c.require_admin_groups
  pub excluded : All (λ v. All (λ g. g ≢ v) l.admin_groups) c.exclude_admin_groups

avoided_links_lem :
    (l : Link) (ids : List Text)
    → (any (λ id. text_eq id (link_id l)) ids ≡ false) ↔ All (λ id. id ≢ link_id l) ids
avoided_links_lem l = any-false _ _ (λ id. ground (arith, text_eq_iff id (link_id l)))

avoided_nodes_lem :
    (l : Link) (ids : List Text)
    → (any (λ id. text_eq id l.local_node_id || text_eq id l.remote_node_id) ids ≡ false)
      ↔ All (λ id. (id ≢ l.local_node_id) × (id ≢ l.remote_node_id)) ids
avoided_nodes_lem l =
    any-false _ _
      (λ id. ground (arith, text_eq_iff id l.local_node_id, text_eq_iff id l.remote_node_id))

in_group-true : (gs : List ℕ) (v : ℕ) → (in_group gs v ≡ true) ↔ Any (λ g. g ≡ v) gs
in_group-true gs v = any-true _ _ (λ g. ground arith) gs

in_group-false : (gs : List ℕ) (v : ℕ) → (in_group gs v ≡ false) ↔ All (λ g. g ≢ v) gs
in_group-false gs v = any-false _ _ (λ g. ground arith) gs

required_lem :
    (l : Link) (vs : List ℕ)
    → (any (λ v. not (in_group l.admin_groups v)) vs ≡ false)
      ↔ All (λ v. Any (λ g. g ≡ v) l.admin_groups) vs
required_lem l = any-false _ _ (λ v. ground (arith, in_group-true l.admin_groups v))

excluded_lem :
    (l : Link) (vs : List ℕ)
    → (any (λ v. in_group l.admin_groups v) vs ≡ false)
      ↔ All (λ v. All (λ g. g ≢ v) l.admin_groups) vs
excluded_lem l = any-false _ _ (λ v. in_group-false l.admin_groups v)

-- A link is eligible exactly if it meets every constraint of the request.
pub eligible_iff : (l : Link) (c : PathConstraints) → (eligible l (some c) ≡ true) ↔ Admits c l
unfolding eligible
eligible_iff l c = (
  λ h. record {
    topology = ground arith;
    bandwidth = ground arith;
    avoided_links = (avoided_links_lem l c.avoid_link_ids).0 (ground arith);
    avoided_nodes = (avoided_nodes_lem l c.avoid_node_ids).0 (ground arith);
    required = (required_lem l c.require_admin_groups).0 (ground arith);
    excluded = (excluded_lem l c.exclude_admin_groups).0 (ground arith);
  },
  λ h. ground (
    arith,
    avoided_links_lem l c.avoid_link_ids,
    avoided_nodes_lem l c.avoid_node_ids,
    required_lem l c.require_admin_groups,
    excluded_lem l c.exclude_admin_groups,
  ),
)
