-- ===== src/Tests/Search.antt =====
-- The search on a graph where the direct link costs more than a detour.
use bg_pls.Base.{
  ℕ, ◌<◌, ◌≤◌, ◌≡◌, ◌⊎◌, refl, inl, inr, Text, text, none, some, List, [], ◌∷◌, true, text_eq,
  text_lt, arith,
}
use bg_pls.Base.Dict.{lookup, insert}
use bg_pls.Base.Fallible.{ok, err}
use bg_pls.Entities.{Node, Link, empty_meta, freshness_active}
use bg_pls.Topology.Graph.{Graph, igp, new_graph, metric, eligible, has_key}
use bg_pls.Topology.Graph.Search.{
  uint64_mod, SearchState, shortest, run, search_fuel, start_state, no_path,
}
use bg_pls.Topology.Graph.Search.Paths.{Route, path_cost}
use bg_pls.Topology.Graph.Search.Termination.{search_finishes}
use bg_pls.Topology.Graph.Search.Answer.{shortest-Route, shortest_least}
use bg_pls.Tests.Graphs.{router, red_link}

abbrev pub hop : Text → Text → Text → ℕ → Link
hop id from to cost = record red_link {
  meta = some (record empty_meta { id = id; freshness = freshness_active });
  local_node_id = from;
  remote_node_id = to;
  igp_metric = cost;
}

abbrev direct : Link
direct = hop (text "ab") (text "a") (text "b") 5

abbrev pub detour : Link
detour = hop (text "ac") (text "a") (text "c") 0

abbrev pub arrival : Link
arrival = hop (text "cb") (text "c") (text "b") 2

abbrev pub three_nodes : List Node
three_nodes =
    router (text "a") (text "east")
    ∷ router (text "b") (text "west")
    ∷ router (text "c") (text "hub")
    ∷ []

abbrev three_links : List Link
three_links = direct ∷ arrival ∷ detour ∷ []

abbrev pub triangle : Graph
triangle = new_graph 7 three_nodes three_links

detour_found : shortest triangle (text "a") (text "b") igp none ≡ ok (detour ∷ arrival ∷ [], 3)
unfolding shortest new_graph text_eq text_lt lookup insert metric eligible search_fuel
detour_found = refl

nothing_back : shortest triangle (text "b") (text "a") igp none ≡ err no_path
unfolding shortest new_graph text_eq text_lt lookup insert metric eligible search_fuel
nothing_back = refl

a_known : has_key (text "a") triangle.nodes ≡ true
unfolding new_graph text_eq lookup insert
a_known = refl

b_known : has_key (text "b") triangle.nodes ≡ true
unfolding new_graph text_eq lookup insert
b_known = refl

detour-Route : Route igp none triangle (text "a") (detour ∷ arrival ∷ []) (text "b")
unfolding new_graph text_eq text_lt lookup insert metric eligible search_fuel
detour-Route = (
  (refl, (refl, refl)),
  (
    (1, record { listed = inr (inl refl); admitted = refl; weighed = refl }),
    ((2, record { listed = inl refl; admitted = refl; weighed = refl }), tt),
  ),
)

detour_fits : path_cost igp (detour ∷ arrival ∷ []) < uint64_mod
unfolding metric
detour_fits = omega arith

shortest-Route_example :
    ((path : List Link) × (total : ℕ) × (shortest triangle (text "a") (text "b") igp none
        ≡ ok (path, total))
      × Route igp none triangle (text "a") path (text "b")
      × (path_cost igp path ≡ total)
      × (total < uint64_mod))
    ⊎ (shortest triangle (text "a") (text "b") igp none ≡ err no_path)
shortest-Route_example =
    shortest-Route 7 three_nodes three_links (text "a") (text "b") igp none a_known b_known

shortest_least_example :
    (path : List Link) × (total : ℕ) × (shortest triangle (text "a") (text "b") igp none
      ≡ ok (path, total))
    × (path_cost igp path ≡ total)
    × (total ≤ path_cost igp (detour ∷ arrival ∷ []))
shortest_least_example =
    shortest_least 7 three_nodes three_links (text "a") (text "b") igp none a_known b_known
      (detour ∷ arrival ∷ []) detour-Route detour_fits

search_finishes_example :
    (s : SearchState) × (run igp none triangle
        (text "b")
        (search_fuel triangle)
        (start_state (text "a"))
      ≡ some s)
search_finishes_example = search_finishes igp none triangle (text "b") (text "a")
