-- ===== src/Topology/Graph/Impact.antt =====
-- internal/topology/graph.go: `Analyze`, the components that are left when nodes and links fail. A set
-- is the list of its true keys.
pub mod Marks
pub mod Components
pub mod Survivors
pub mod Connected
pub mod Unreachable
use bg_pls.Base.{
  ℕ, zero, suc, ◌+◌, Text, Option, none, some, List, [], ◌∷◌, ◌++◌, Bool, true, false, not, ◌||◌,
  ◌==◌, ltb, length, any, sort, text_eq, text_lt, if◌then◌else◌,
}
use bg_pls.Base.Dict.{Dict, lookup, insert}
use bg_pls.Entities.{get_meta, Node, Link, Prefix}
use bg_pls.Topology.Graph.{Graph}

abbrev pub is_in : Text → List Text → Bool
is_in id ids = any (λ x. text_eq x id) ids

-- `undirected[id]`
unfoldable pub neighbors : Dict (List Text) → Text → List Text
neighbors adj id = elim (lookup id adj) [ none ↦ [] | some ids ↦ ids ]

unfoldable pub add_edge : Dict (List Text) → Text → Text → Dict (List Text)
unfolding neighbors
add_edge adj from to = insert from (neighbors adj from ++ to ∷ []) adj

-- The loop over the links.
unfoldable pub undirected : List Text → List Text → Dict Link → Dict (List Text) → Dict (List Text)
unfolding add_edge
undirected failed_nodes failed_links [] adj = adj
undirected failed_nodes failed_links ((id, l) ∷ links) adj =
    undirected failed_nodes failed_links links (
      if is_in id failed_links
        || is_in l.local_node_id failed_nodes
        || is_in l.remote_node_id failed_nodes
      then adj
      else add_edge (add_edge adj l.local_node_id l.remote_node_id) l.remote_node_id
          l.local_node_id)

-- The loop over the neighbors of a node: it marks those that are new and queues them.
unfoldable pub mark : List Text → List Text × List Text → List Text × List Text
mark [] (seen, queue) = (seen, queue)
mark (next ∷ rest) (seen, queue) =
    mark rest (if is_in next seen then (seen, queue) else (next ∷ seen, queue ++ next ∷ []))

-- The loop over the queue, from a set of seen nodes to that set and the nodes of the component; `none`
-- is out of fuel.
unfoldable pub visit :
    Dict (List Text) → ℕ → List Text × List Text → List Text → Option (List Text × List Text)
unfolding mark neighbors
visit adj zero (seen, queue) nodes = none
visit adj (suc fuel) (seen, []) nodes = some (seen, nodes)
visit adj (suc fuel) (seen, n ∷ queue) nodes =
    visit adj fuel (mark (neighbors adj n) (seen, queue)) (nodes ++ n ∷ [])

-- Fuel for the queue: every entry of the lists can be queued once.
abbrev pub targets : Dict (List Text) → List Text
targets [] = []
targets (e ∷ adj) = e.1 ++ targets adj

-- The loop over the nodes of the graph.
unfoldable pub components :
    Dict (List Text)
    → List Text
    → Dict Node
    → List Text
    → List (List Text)
    → Option (List (List Text))
unfolding visit
components adj failed_nodes [] seen comps = some comps
components adj failed_nodes ((id, n) ∷ nodes) seen comps =
    let skipped = components adj failed_nodes nodes seen comps in
    let visited : Option (List (List Text)) =
      elim (visit adj (suc (suc (length (targets adj)))) (id ∷ seen, id ∷ []) []) [
        | none ↦ none
        | some found ↦
            components adj failed_nodes nodes found.0 (comps ++ sort text_lt found.1 ∷ [])
      ] in
    if is_in id failed_nodes || is_in id seen then skipped else visited

abbrev pub first_id : List Text → Text
first_id [] = []
first_id (id ∷ ids) = id

unfoldable pub larger : List Text → List Text → Bool
larger a b =
    if length a == length b then text_lt (first_id a) (first_id b) else ltb (length b) (length a)

abbrev pub all_ids : List (List Text) → List Text
all_ids [] = []
all_ids (ids ∷ comps) = ids ++ all_ids comps

-- The nodes of every component but the largest.
unfoldable pub cut_off : List (List Text) → List Text
cut_off [] = []
cut_off (comp ∷ comps) = all_ids comps

unfoldable pub unreachable_prefixes : List Text → List Text → List Prefix → List Text
unreachable_prefixes failed_nodes unreachable [] = []
unreachable_prefixes failed_nodes unreachable (p ∷ ps) =
    let rest = unreachable_prefixes failed_nodes unreachable ps in
    if is_in p.origin_node_id failed_nodes || is_in p.origin_node_id unreachable
    then (get_meta p.meta).id ∷ rest
    else rest

pub record AnalyzeImpactResponse : Type 0 where
  pub revision : ℕ
  pub unreachable_node_ids : List Text
  pub unreachable_prefix_ids : List Text
  pub disconnected_components : List (List Text)

unfoldable pub impact_of : ℕ → List Text → List Prefix → List (List Text) → AnalyzeImpactResponse
unfolding cut_off unreachable_prefixes
impact_of revision failed_nodes prefixes comps =
    let unreachable = cut_off comps in
    record {
      revision = revision;
      unreachable_node_ids = sort text_lt unreachable;
      unreachable_prefix_ids =
          sort text_lt (unreachable_prefixes failed_nodes unreachable prefixes);
      disconnected_components = if ltb 1 (length comps) then comps else [];
    }

unfoldable pub analyze : Graph → List Text → List Text → List Prefix → Option AnalyzeImpactResponse
unfolding undirected components impact_of larger
analyze g failed_nodes failed_links prefixes =
    elim (components (undirected failed_nodes failed_links g.links []) failed_nodes g.nodes [] []) [
      | none ↦ none
      | some comps ↦ some (impact_of g.revision failed_nodes prefixes (sort larger comps))
    ]
