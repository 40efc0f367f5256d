-- ===== src/Topology/Graph/Compute.antt =====
-- internal/topology/graph.go: `Compute`, `ComputeMany` and `pathKey`. A bandwidth, and so the
-- bottleneck, is the bit pattern of a `float64` that is not negative, `math.MaxFloat64` too: they compare
-- like the numbers.
pub mod Sound
pub mod Alternatives
use bg_pls.Base.{
  ℕ, suc, ◌+◌, ◌-◌, ◌%◌, ◌^◌, Text, text, Option, none, some, List, [], ◌∷◌, ◌++◌, Bool, true,
  false, not, ◌||◌, ◌==◌, ltb, leb, length, any, map, text_eq, if◌then◌else◌,
}
use bg_pls.Base.Ascii.{join}
use bg_pls.Base.Dict.{lookup}
use bg_pls.Base.Fallible.{err, ok, ◌>>=◌}
use bg_pls.Entities.{get_meta, Node, Link}
use bg_pls.Topology.Graph.{Graph, PathMetric, PathConstraints, link_id, node_id}
use bg_pls.Topology.Graph.Search.{uint64_mod, Result, shortest}

pub record PathHop : Type 0 where
  pub index : ℕ
  -- `none` is a nil node.
  pub node : Option Node
  pub outgoing_link : Option Link

pub record ComputedPath : Type 0 where
  pub hops : List PathHop
  pub total_metric : ℕ
  pub total_delay_microseconds : ℕ
  pub bottleneck_bandwidth_bytes_per_second : ℕ

abbrev pub uint32_mod : ℕ
uint32_mod = 2 ^ 32

abbrev pub max_float64 : ℕ
max_float64 = 2 ^ 63 - 2 ^ 52 - 1

unfoldable pub waypoints : Text → Text → Option PathConstraints → List Text
waypoints source destination none = source ∷ destination ∷ []
waypoints source destination (some c) = source ∷ (c.include_node_ids ++ destination ∷ [])

-- The loop over the links.
unfoldable pub add_hops : Graph → ℕ → Text → List Link → ComputedPath → ComputedPath
add_hops g i current [] path = record path {
  hops =
      path.hops
      ++ record { index = i % uint32_mod; node = lookup current g.nodes; outgoing_link = none }
        ∷ [];
}
add_hops g i current (l ∷ ls) path = add_hops g (suc i) l.remote_node_id ls (record path {
  hops =
      path.hops
      ++ record { index = i % uint32_mod; node = lookup current g.nodes; outgoing_link = some l }
        ∷ [];
  total_delay_microseconds = (path.total_delay_microseconds + l.delay_microseconds) % uint64_mod;
  bottleneck_bandwidth_bytes_per_second =
      if ltb l.reservable_bandwidth_bytes_per_second path.bottleneck_bandwidth_bytes_per_second
      then l.reservable_bandwidth_bytes_per_second
      else path.bottleneck_bandwidth_bytes_per_second;
})

unfoldable pub without_links : List Link → Bool
without_links [] = true
without_links (_ ∷ _) = false

-- The two tests after the loop, which set the bottleneck to zero.
unfoldable pub reset_bottleneck : Bool → ComputedPath → ComputedPath
reset_bottleneck true path = record path { bottleneck_bandwidth_bytes_per_second = 0 }
reset_bottleneck false path = path

abbrev pub no_path_yet : ℕ → ComputedPath
no_path_yet total = record {
  hops = [];
  total_metric = total;
  total_delay_microseconds = 0;
  bottleneck_bandwidth_bytes_per_second = max_float64;
}

unfoldable pub path_of : Graph → Text → List Link → ℕ → ComputedPath
unfolding add_hops without_links reset_bottleneck
path_of g source links total =
    let path = add_hops g 0 source links (no_path_yet total) in
    reset_bottleneck
      (without_links links || path.bottleneck_bandwidth_bytes_per_second == max_float64) path

module _ (g : Graph) (t : PathMetric) where
  -- The loop over the waypoints.
  unfoldable pub join_segments :
      Option PathConstraints → List Text → List Link → ℕ → Result (List Link × ℕ)
  unfolding shortest
  join_segments c [] links total = ok (links, total)
  join_segments c (a ∷ []) links total = ok (links, total)
  join_segments c (a ∷ b ∷ rest) links total = do
    (segment, cost) ← shortest g a b t c
    join_segments c (b ∷ rest) (links ++ segment) ((total + cost) % uint64_mod)

  unfoldable pub compute : Text → Text → Option PathConstraints → Result ComputedPath
  unfolding waypoints join_segments path_of
  compute source destination c = do
    (links, total) ← join_segments c (waypoints source destination c) [] 0
    ok (path_of g source links total)

-- The id of a node, through the getters of a nil node.
unfoldable pub path_key : ComputedPath → Text
path_key path =
    join (text "/") (map (λ h. elim h.node [ none ↦ [] | some n ↦ node_id n ]) path.hops)

unfoldable pub avoiding : Option PathConstraints → Link → PathConstraints
avoiding none l = record {
  multi_topology_id = 0;
  minimum_reservable_bandwidth_bytes_per_second = 0;
  require_admin_groups = [];
  exclude_admin_groups = [];
  include_node_ids = [];
  avoid_node_ids = [];
  avoid_link_ids = link_id l ∷ [];
}
avoiding (some c) l = record c { avoid_link_ids = c.avoid_link_ids ++ link_id l ∷ [] }

-- `seen[key]`
abbrev pub is_seen : Text → List Text → Bool
is_seen key seen = any (λ k. text_eq k key) seen

unfoldable pub clamp : ℕ → ℕ
clamp limit = let least = if limit == 0 then 1 else limit in if ltb 16 least then 16 else least

module _ (g : Graph) (t : PathMetric) (source destination : Text) (c : Option PathConstraints) where
  -- What an alternative adds, if it is of equal cost and new.
  unfoldable pub add_candidate :
      ComputedPath
      → Result ComputedPath
      → List Text × List ComputedPath
      → List Text × List ComputedPath
  unfolding path_key
  add_candidate first (err e) (seen, out) = (seen, out)
  add_candidate first (ok candidate) (seen, out) =
      if not (candidate.total_metric == first.total_metric) || is_seen (path_key candidate) seen
      then (seen, out)
      else (path_key candidate ∷ seen, out ++ candidate ∷ [])

  -- The loop over the hops of the first path.
  unfoldable pub alternatives :
      ℕ → ComputedPath → List PathHop → List Text × List ComputedPath → List ComputedPath
  unfolding add_candidate avoiding compute
  alternatives limit first [] (seen, out) = out
  alternatives limit first (h ∷ hs) (seen, out) =
      let next : List ComputedPath = elim h.outgoing_link [
        | none ↦ out
        | some l ↦
            alternatives limit first hs (
              add_candidate first (compute g t source destination (some (avoiding c l)))
                (seen, out))
      ] in
      if leb limit (length out) then out else next

  unfoldable pub compute_many : ℕ → Result (List ComputedPath)
  unfolding alternatives compute clamp path_key
  compute_many limit = do
    first ← compute g t source destination c
    ok (alternatives (clamp limit) first first.hops (path_key first ∷ [], first ∷ []))
