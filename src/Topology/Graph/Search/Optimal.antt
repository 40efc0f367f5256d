-- ===== src/Topology/Graph/Search/Optimal.antt =====
-- The answer of the search is a path of least cost.
use bg_pls.Base.{
  ℕ, zero, suc, ◌+◌, ◌<◌, ◌≤◌, ◌≡◌, refl, sym, ap, ◌∙◌, subst, inl, inr, ◌⊎◌, Text, Option, none,
  some, List, [], ◌∷◌, true, All, text_eq, text_eq_refl, eq_of_text_eq, arith, Option-cases,
  Bool-cases,
}
use bg_pls.Base.Dict.{lookup}
use bg_pls.Base.Fallible.{ok, err}
use bg_pls.Entities.{Link}
use bg_pls.Topology.Graph.{Graph, PathMetric, PathConstraints, has_key, metric}
use bg_pls.Topology.Graph.Rooted.{IsRooted}
use bg_pls.Topology.Graph.Search.{
  uint64_mod, SearchState, run, start_state, walk_back, search_fuel, shortest, no_path,
}
use bg_pls.Topology.Graph.Search.Termination.{search_finishes}
use bg_pls.Topology.Graph.Search.Paths.{IsPath, Usable, Route, weight_of, path_cost, metric_pos}
use bg_pls.Topology.Graph.Search.Invariant.{Reached}
use bg_pls.Topology.Graph.Search.Finish.{Done, finished-Done}

module _ (t : PathMetric) (c : Option PathConstraints) (g : Graph) (source destination : Text) where
  weight_of_edge : (l : Link) (w : ℕ) → metric l t ≡ some w → weight_of t l ≡ w
  weight_of_edge l w h = ground (arith, h)

  -- The distance of the destination is at most the cost of any path.
  no_shorter :
      (s : SearchState) (done : Done t c g source destination s) (q : List Link) (u : Text)
      (d b : ℕ)
      → lookup u s.dist ≡ some d
      → d ≤ b
      → IsPath u q destination
      → All (Usable t c g) q
      → b + path_cost t q < uint64_mod
      → Reached s.dist destination (b + path_cost t q)
  no_shorter s done [] u d b h le path usable fits =
      (d, ap (λ x. lookup x s.dist) (sym path) ∙ h, omega arith)
  no_shorter s done (l ∷ q) u d b h le path usable fits =
      let (w, edge) = usable.0 in
      let cost = weight_of_edge l w edge.weighed in
      elim (done.complete u d h) [
        | inl tried ↦
            let (e, there, low) = tried l w path.0 edge (omega arith) in
            let (x, found, least) =
              no_shorter s done q l.remote_node_id e (b + w) there (omega arith) path.1 usable.1
                (omega arith) in
            (x, found, omega arith)
        | inr (x, found, least) ↦ (x, found, omega arith)
      ]

  -- The walk back finds a path whose cost is the distance.
  walk_back-Route :
      (s : SearchState) (done : Done t c g source destination s) (fuel : ℕ) (current : Text) (d : ℕ)
      (path : List Link)
      → lookup current s.dist ≡ some d
      → d < fuel
      → Route t c g current path destination
      → (p : List Link) × (walk_back fuel s.prev source current path ≡ ok p)
        × Route t c g source p destination
        × (path_cost t p ≡ d + path_cost t path)
  unfolding walk_back
  walk_back-Route s done zero current d path h lt route = absurd (omega arith)
  walk_back-Route s done (suc fuel) current d path h lt route =
      elim (Bool-cases (text_eq current source)) [
        | inl arrived ↦
            let e = eq_of_text_eq current source arrived in
            let first : d ≡ 0 = cc (h, done.start, ap (λ x. lookup x s.dist) e) in
            (path, ground arith, subst (λ x. Route t c g x path destination) e route, omega arith)
        | inr away ↦ elim (done.recorded current d h) [
          | inl same ↦
              let q = ap (text_eq current) same in absurd (ground (arith, text_eq_refl current))
          | inr r ↦
              let positive = metric_pos r.link t r.edge.weighed in
              let cost = weight_of_edge r.link r.weight r.edge.weighed in
              let onward = subst (λ x. IsPath x path destination) (sym r.ends) route.0 in
              let (p, walked, whole, sum) =
                walk_back-Route s done fuel r.link.local_node_id r.origin (r.link ∷ path) r.starts
                  (omega (arith, r.sums)) ((refl, onward), ((r.weight, r.edge), route.1)) in
              (p, ground (arith, r.last), whole, omega (arith, r.sums))
        ]
      ]

  shortest-some :
      (s : SearchState) (total : ℕ) (p : List Link)
      → has_key source g.nodes ≡ true
      → has_key destination g.nodes ≡ true
      → run t c g destination (search_fuel g) (start_state source) ≡ some s
      → lookup destination s.dist ≡ some total
      → walk_back (suc total) s.prev source destination [] ≡ ok p
      → shortest g source destination t c ≡ ok (p, total)
  unfolding shortest
  shortest-some s total p known_source known_destination ran reached walked = ground arith

  shortest-none :
      (s : SearchState)
      → has_key source g.nodes ≡ true
      → has_key destination g.nodes ≡ true
      → run t c g destination (search_fuel g) (start_state source) ≡ some s
      → lookup destination s.dist ≡ none
      → shortest g source destination t c ≡ err no_path
  unfolding shortest
  shortest-none s known_source known_destination ran unreached = ground arith

  -- Between two nodes of the graph the search answers with a path from one to the other, over links
  -- of the graph that the constraints admit and that have a weight; the cost that it reports is the
  -- sum of their weights and a uint64. Otherwise it answers that there is no path.
  pub found-Route :
      IsRooted g.adj
      → has_key source g.nodes ≡ true
      → has_key destination g.nodes ≡ true
      → ((path : List Link) × (total : ℕ) × (shortest g source destination t c ≡ ok (path, total))
          × Route t c g source path destination
          × (path_cost t path ≡ total)
          × (total < uint64_mod))
        ⊎ (shortest g source destination t c ≡ err no_path)
  found-Route rooted known_source known_destination =
      let (s, ran) = search_finishes t c g destination source in
      let done = finished-Done t c g source destination rooted (search_fuel g) s ran in
      elim (Option-cases (lookup destination s.dist)) [
        | inl unreached ↦ inr (shortest-none s known_source known_destination ran unreached)
        | inr (total, reached) ↦
            let (p, walked, route, cost) =
              walk_back-Route s done (suc total) destination total [] reached (omega arith)
                ((refl, tt)) in
            inl (
              p,
              total,
              shortest-some s total p known_source known_destination ran reached walked,
              route,
              omega arith,
              done.small destination total reached,
            )
      ]

  -- When the weights of some usable path between two nodes of the graph add up to a uint64, the
  -- search answers with a path, and the cost that it reports is not above that sum.
  pub least_found :
      IsRooted g.adj
      → has_key source g.nodes ≡ true
      → has_key destination g.nodes ≡ true
      → (q : List Link) → Route t c g source q destination
      → path_cost t q < uint64_mod
      → (path : List Link) × (total : ℕ) × (shortest g source destination t c ≡ ok (path, total))
        × (path_cost t path ≡ total)
        × (total ≤ path_cost t q)
  least_found rooted known_source known_destination q route fits =
      let (s, ran) = search_finishes t c g destination source in
      let done = finished-Done t c g source destination rooted (search_fuel g) s ran in
      let (total, reached, least) =
        no_shorter s done q source 0 0 done.start (omega arith) route.0 route.1 (omega arith) in
      let (p, walked, back, cost) =
        walk_back-Route s done (suc total) destination total [] reached (omega arith)
          ((refl, tt)) in
      (
        p,
        total,
        shortest-some s total p known_source known_destination ran reached walked,
        omega arith,
        omega (arith, least),
      )
