-- ===== src/Api/Paths.antt =====
-- internal/api/topology.go: `ComputePaths` and `AnalyzeImpact`. The text of an explanation is its error.
use bg_pls.Base.{ℕ, Text, Option, none, some, List, [], Bool, ◌||◌, is_empty, if◌then◌else◌}
use bg_pls.Base.Fallible.{ok, err}
use bg_pls.Store.Pebble.{Pebble}
use bg_pls.Store.Json.{Json}
use bg_pls.Store.State.{Store}
use bg_pls.Store.Reads.{Snapshot}
use bg_pls.Topology.Graph.{PathMetric, PathConstraints, new_graph}
use bg_pls.Topology.Graph.Search.{SearchError, Result}
use bg_pls.Topology.Graph.Compute.{ComputedPath, compute_many}
use bg_pls.Topology.Graph.Impact.{AnalyzeImpactResponse, analyze}
use bg_pls.Api.Peers.{Reply, reply, refuse, Code}
use bg_pls.Api.Topology.{
  filter_domain_nodes, filter_domain_links, filter_domain_prefixes, with_snapshot,
}
use bg_pls.Api.Summary.{resolve_node_id}

pub record ComputePathsResponse : Type 0 where
  pub paths : List ComputedPath
  pub revision : ℕ
  pub explanation : Option SearchError

-- The answer of the search.
unfoldable pub explained : ℕ → Result (List ComputedPath) → ComputePathsResponse
explained revision (err e) = record { paths = []; revision = revision; explanation = some e }
explained revision (ok paths) = record { paths = paths; revision = revision; explanation = none }

module _ {Addr IpPrefix : Type 0} (parse_addr : Text → Option Addr)
    (parse_prefix : Text → Option IpPrefix) (covers : IpPrefix → Addr → Bool)
    (bits : IpPrefix → ℕ) where
  unfoldable pub paths_in :
      Text
      → Text
      → Text
      → PathMetric
      → Option PathConstraints
      → ℕ
      → Snapshot
      → Reply ComputePathsResponse
  unfolding explained filter_domain_nodes filter_domain_links
  paths_in domain from to t c max_paths snap =
      let source = resolve_node_id parse_addr parse_prefix covers bits snap domain from in
      let destination = resolve_node_id parse_addr parse_prefix covers bits snap domain to in
      let graph =
        new_graph snap.revision (filter_domain_nodes snap.nodes domain)
          (filter_domain_links snap.links domain) in
      if is_empty source || is_empty destination
      then refuse Code.not_found
      else reply (explained snap.revision (compute_many graph t source destination c max_paths))

  unfoldable pub compute_paths :
      (pebble : Pebble) (json : Json)
      → ℕ
      → Text
      → Text
      → Text
      → PathMetric
      → Option PathConstraints
      → ℕ
      → Store pebble json
      → Reply ComputePathsResponse
  unfolding paths_in
  compute_paths pebble json revision domain from to t c max_paths s =
      with_snapshot pebble json revision s (paths_in domain from to t c max_paths)

-- The answer of `AnalyzeImpact`; `none` is out of fuel.
unfoldable pub analyze_impact :
    (pebble : Pebble) (json : Json)
    → ℕ
    → Text
    → List Text
    → List Text
    → Store pebble json
    → Reply (Option AnalyzeImpactResponse)
unfolding with_snapshot filter_domain_nodes filter_domain_links filter_domain_prefixes analyze
analyze_impact pebble json revision domain failed_nodes failed_links s =
    with_snapshot pebble json revision s (λ snap.
      let graph =
        new_graph snap.revision (filter_domain_nodes snap.nodes domain)
          (filter_domain_links snap.links domain) in
      reply (analyze graph failed_nodes failed_links (filter_domain_prefixes snap.prefixes domain)))
