-- ===== src/Topology/Graph/Search/Termination.antt =====
-- The loop over the queue ends within the fuel of the search.
use bg_pls.Base.{
  ℕ, zero, suc, ◌<◌, ◌≡◌, ap, subst, inl, inr, Text, Option, none, some, List, [], ◌∷◌, ◌==◌,
  length, Any, Any-left, Any-right, text_eq, arith, Bool-cases, List-cases,
}
use bg_pls.Base.Dict.{Dict, lookup}
use bg_pls.Entities.{Link}
use bg_pls.Topology.Graph.{Graph, PathMetric, PathConstraints, adjacent}
use bg_pls.Topology.Graph.Rooted.{adjacent_here, adjacent_there}
use bg_pls.Topology.Graph.Search.{
  pop_least, SearchState, relax_all, run, all_links, start_state, search_fuel,
}
use bg_pls.Topology.Graph.Search.Potential.{
  length-pop_least, weight, relax_all-weight, potential_queue, potential_start,
}

adjacent-links :
    (adj : Dict (List Link)) (k : Text) (l : Link)
    → Any (λ m. m ≡ l) (adjacent adj k)
    → Any (λ m. m ≡ l) (all_links adj)
unfolding adjacent lookup
adjacent-links [] k l h = h
adjacent-links ((j, ls) ∷ adj) k l h = elim (Bool-cases (text_eq j k)) [
  | inl same ↦
      Any-left _ ls (all_links adj) (subst (Any (λ m. m ≡ l)) (adjacent_here j k ls adj same) h)
  | inr other ↦
      Any-right _ ls (all_links adj)
        (adjacent-links adj k l (subst (Any (λ m. m ≡ l)) (adjacent_there j k ls adj other) h))
]

module _ (t : PathMetric) (c : Option PathConstraints) (g : Graph) (destination : Text) where
  run_finishes :
      (fuel : ℕ) (s : SearchState)
      → weight g t c s < fuel
      → (s' : SearchState) × (run t c g destination fuel s ≡ some s')
  unfolding run
  run_finishes zero s lt = absurd (omega arith)
  run_finishes (suc fuel) s lt = elim (List-cases s.queue) [
    | inl drained ↦ (s, ground arith)
    | inr (i, rest, queued) ↦
        let item = (pop_least i rest).0 in
        let popped : SearchState = record s { queue = (pop_least i rest).1 } in
        let known : ℕ = elim (lookup item.id s.dist) [ none ↦ 0 | some d ↦ d ] in
        let ls = adjacent g.adj item.id in
        let shorter : weight g t c popped < weight g t c s = omega (
          arith,
          length-pop_least i rest,
          potential_queue g s (pop_least i rest).1,
          ap (λ q. length q) queued,
        ) in
        elim (Bool-cases (item.cost == known)) [
          | inr outdated ↦
              let (s', ran) = run_finishes fuel popped (omega arith) in (s', ground arith)
          | inl current ↦ elim (Bool-cases (text_eq item.id destination)) [
            | inl arrived ↦ (popped, ground arith)
            | inr away ↦
                let relaxed = relax_all t c item.cost popped ls in
                let lighter =
                  relax_all-weight g t c item.cost popped ls
                    (λ l h. adjacent-links g.adj item.id l h) in
                let (s', ran) = run_finishes fuel relaxed (omega arith) in (s', ground arith)
          ]
        ]
  ]

  -- The search from a source ends within its fuel.
  pub search_finishes :
      (source : Text)
      → (s : SearchState) × (run t c g destination (search_fuel g) (start_state source) ≡ some s)
  unfolding search_fuel
  search_finishes source =
      run_finishes _ (start_state source) (omega (arith, potential_start g source))
