-- ===== src/Topology/Graph/Search/Answer.antt =====
-- What the search answers on a graph that `NewGraph` builds.
use bg_pls.Base.{ℕ, ◌<◌, ◌≤◌, ◌≡◌, ◌⊎◌, Text, Option, List, true}
use bg_pls.Base.Fallible.{ok, err}
use bg_pls.Entities.{Node, Link}
use bg_pls.Topology.Graph.{Graph, PathMetric, PathConstraints, has_key, new_graph}
use bg_pls.Topology.Graph.Rooted.{new_graph-IsRooted}
use bg_pls.Topology.Graph.Search.{uint64_mod, shortest, no_path}
use bg_pls.Topology.Graph.Search.Paths.{Route, path_cost}
use bg_pls.Topology.Graph.Search.Optimal.{found-Route, least_found}

module _ (revision : ℕ) (nodes : List Node) (links : List Link) where
  abbrev g : Graph
  g = new_graph revision nodes links

  -- Between two nodes of a graph that is built from entities, the search ends. Its answer is a path
  -- from one to the other over links of the graph that the constraints admit and that have a weight,
  -- with a cost that is the exact sum of their weights and a uint64; or that there is no path.
  pub shortest-Route :
      (source destination : Text) (t : PathMetric) (c : Option PathConstraints)
      → has_key source g.nodes ≡ true
      → has_key destination g.nodes ≡ true
      → ((path : List Link) × (total : ℕ) × (shortest g source destination t c ≡ ok (path, total))
          × Route t c g source path destination
          × (path_cost t path ≡ total)
          × (total < uint64_mod))
        ⊎ (shortest g source destination t c ≡ err no_path)
  shortest-Route source destination t c =
      found-Route t c g source destination (new_graph-IsRooted revision nodes links)

  -- When the weights of a path between two nodes of a graph that is built from entities, over links of
  -- the graph that the constraints admit and that have a weight, add up to a uint64, the search
  -- answers with a path, and the cost that it reports is not above that sum.
  pub shortest_least :
      (source destination : Text) (t : PathMetric) (c : Option PathConstraints)
      → has_key source g.nodes ≡ true
      → has_key destination g.nodes ≡ true
      → (q : List Link) → Route t c g source q destination
      → path_cost t q < uint64_mod
      → (path : List Link) × (total : ℕ) × (shortest g source destination t c ≡ ok (path, total))
        × (path_cost t path ≡ total)
        × (total ≤ path_cost t q)
  shortest_least source destination t c =
      least_found t c g source destination (new_graph-IsRooted revision nodes links)
