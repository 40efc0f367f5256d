-- ===== src/Tests/Summaries.antt =====
-- The summary of a snapshot, and an address that two prefixes contain.
use bg_pls.Base.{
  ℕ, ◌+◌, ◌≤◌, ◌≡◌, ◌⊎◌, refl, Text, text, none, some, [], ◌∷◌, Bool, ◌&&◌, length, find?, filter,
  take, All, Any, text_eq, text_lt,
}
use bg_pls.Base.Ascii.{to_lower, starts_with}
use bg_pls.Entities.{EntityMeta, empty_meta, get_meta, freshness_active, Prefix}
use bg_pls.Store.Reads.{Snapshot, snapshot}
use bg_pls.Api.Filter.{node_match, link_match, prefix_match}
use bg_pls.Api.Summary.{
  summary, is_stale, has_conflicts, is_named, resolve_node_id, resolve, resolve_limit, in_domain,
  node_hit, link_hit, prefix_hit,
}
use bg_pls.Api.Summary.Counted.{number, summary_lem, resolve_lem}
use bg_pls.Api.Summary.Longest.{Contains, resolve_node_id_lem}
use bg_pls.Tests.Reads.{current}

abbrev in_d : EntityMeta
in_d = record empty_meta { domain_id = text "d"; freshness = freshness_active }

abbrev route : Text → Text → Prefix
route to from = record {
  meta = some in_d;
  prefix = to;
  origin_node_id = from;
  multi_topology_id = 0;
  metric = 0;
  route_tags = [];
  forwarding_address = [];
  prefix_sid = 0;
  attributes = [];
}

abbrev two_routes : Snapshot
two_routes = record current {
  prefixes = route (text "10.") (text "a") ∷ route (text "10.0.") (text "b") ∷ [];
}

summary_lem_example :
    ((summary none two_routes).node_count
      ≡ length (filter (λ v. node_match v none) two_routes.nodes))
    × ((summary none two_routes).link_count
        ≡ length (filter (λ v. link_match v none) two_routes.links))
    × ((summary none two_routes).prefix_count
        ≡ length (filter (λ v. prefix_match v none) two_routes.prefixes))
    × ((summary none two_routes).conflict_count
        ≡ number (λ v. node_match v none) (λ v. has_conflicts (get_meta v.meta)) two_routes.nodes
          + number (λ v. link_match v none) (λ v. has_conflicts (get_meta v.meta)) two_routes.links
          + number
              (λ v. prefix_match v none)
              (λ v. has_conflicts (get_meta v.meta))
              two_routes.prefixes)
    × ((summary none two_routes).stale_count
        ≡ number (λ v. node_match v none) (λ v. is_stale (get_meta v.meta)) two_routes.nodes
          + number (λ v. link_match v none) (λ v. is_stale (get_meta v.meta)) two_routes.links
          + number (λ v. prefix_match v none) (λ v. is_stale (get_meta v.meta)) two_routes.prefixes)
summary_lem_example = summary_lem none two_routes

resolve_lem_example :
    ((resolve [] (text "EAST") 1 two_routes).nodes
      ≡ take (resolve_limit 1) (
          filter
            (λ v. in_domain [] (get_meta v.meta) && node_hit (to_lower (text "EAST")) v)
            two_routes.nodes))
    × ((resolve [] (text "EAST") 1 two_routes).links
        ≡ take (resolve_limit 1) (
            filter
              (λ v.
                in_domain [] (get_meta v.meta) && link_hit (text "EAST") (to_lower (text "EAST")) v)
              two_routes.links))
    × ((resolve [] (text "EAST") 1 two_routes).prefixes
        ≡ take (resolve_limit 1) (
            filter
              (λ v. in_domain [] (get_meta v.meta) && prefix_hit (to_lower (text "EAST")) v)
              two_routes.prefixes))
resolve_lem_example = resolve_lem [] (text "EAST") 1 two_routes

abbrev covers : Text → Text → Bool
covers prefix addr = starts_with addr prefix

abbrev size_of : Text → ℕ
size_of prefix = length prefix

abbrev address : Text
address = text "10.0.0.1"

nothing_named : find? (is_named (text "d") address) two_routes.nodes ≡ none
unfolding is_named text_eq snapshot text_lt
nothing_named = refl

longer_wins : resolve_node_id some some covers size_of two_routes (text "d") address ≡ text "b"
unfolding resolve_node_id text_eq starts_with snapshot text_lt
longer_wins = refl

resolve_node_id_lem_example :
    (Any
      (λ p.
        (n : ℕ) × Contains some some covers size_of (text "d") address p n
        × (resolve_node_id some some covers size_of two_routes (text "d") address
            ≡ p.origin_node_id)
        × All
            (λ r. (m : ℕ) → Contains some some covers size_of (text "d") address r m → m ≤ n)
            two_routes.prefixes)
      two_routes.prefixes)
    ⊎ ((resolve_node_id some some covers size_of two_routes (text "d") address ≡ [])
        × All
            (λ r. (m : ℕ) → ¬ Contains some some covers size_of (text "d") address r m)
            two_routes.prefixes)
resolve_node_id_lem_example =
    resolve_node_id_lem some some covers size_of (text "d") address two_routes address nothing_named
      refl
