-- ===== src/Tests/Paths.antt =====
-- Two paths of equal cost between two nodes.
use bg_pls.Base.{
  ℕ, ◌≤◌, ◌≡◌, ◌⊎◌, ◌%◌, refl, text, none, some, List, [], ◌∷◌, text_eq, text_lt, length, All,
}
use bg_pls.Base.Ascii.{join}
use bg_pls.Base.Dict.{lookup, insert}
use bg_pls.Base.Fallible.{ok}
use bg_pls.Entities.{Link}
use bg_pls.Topology.Graph.{Graph, igp, PathConstraints, new_graph, metric, eligible}
use bg_pls.Topology.Graph.Search.{uint64_mod, shortest, search_fuel}
use bg_pls.Topology.Graph.Search.Paths.{Route, path_cost}
use bg_pls.Topology.Graph.Compute.{ComputedPath, path_of, compute, compute_many, avoiding}
use bg_pls.Topology.Graph.Compute.Sound.{hop_links, Visits, included, compute-Route}
use bg_pls.Topology.Graph.Compute.Alternatives.{IsDistinct, compute_many-IsDistinct}
use bg_pls.Tests.Search.{hop, detour, arrival, three_nodes}

abbrev equal_hop : Link
equal_hop = hop (text "ab") (text "a") (text "b") 3

abbrev even_links : List Link
even_links = equal_hop ∷ arrival ∷ detour ∷ []

abbrev even : Graph
even = new_graph 7 three_nodes even_links

abbrev over_c : PathConstraints
over_c = record (avoiding none equal_hop) { include_node_ids = text "c" ∷ []; avoid_link_ids = [] }

abbrev short : ComputedPath
short = path_of even (text "a") (equal_hop ∷ []) 3

abbrev long : ComputedPath
long = path_of even (text "a") (detour ∷ arrival ∷ []) 3

short_first : compute even igp (text "a") (text "b") none ≡ ok short
unfolding compute shortest new_graph text_eq text_lt lookup insert metric eligible search_fuel
short_first = refl

through_c : compute even igp (text "a") (text "b") (some over_c) ≡ ok long
unfolding compute shortest new_graph text_eq text_lt lookup insert metric eligible search_fuel
    avoiding
through_c = refl

both_found : compute_many even igp (text "a") (text "b") none 4 ≡ ok (short ∷ long ∷ [])
unfolding compute_many shortest new_graph text_eq text_lt lookup insert metric eligible search_fuel
    join
both_found = refl

compute-Route_example :
    Route igp (some over_c) even (text "a") (hop_links long.hops) (text "b")
    × (long.total_metric ≡ path_cost igp (hop_links long.hops) % uint64_mod)
    × All
        (Visits 7 three_nodes even_links igp (text "a") (hop_links long.hops))
        (included (some over_c))
compute-Route_example =
    compute-Route 7 three_nodes even_links igp (some over_c) (text "a") (text "b") long through_c

compute_many-IsDistinct_example :
    (1 ≤ length (short ∷ long ∷ []))
    × ((length (short ∷ long ∷ []) ≤ 4) ⊎ ((◌≡◌ {A = ℕ} 4 0) × (length (short ∷ long ∷ []) ≡ 1)))
    × (length (short ∷ long ∷ []) ≤ 16)
    × All (λ p. p.total_metric ≡ short.total_metric) (short ∷ long ∷ [])
    × IsDistinct (short ∷ long ∷ [])
compute_many-IsDistinct_example =
    compute_many-IsDistinct even igp (text "a") (text "b") none 4 short (short ∷ long ∷ [])
      short_first both_found
