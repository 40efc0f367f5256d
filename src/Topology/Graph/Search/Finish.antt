-- ===== src/Topology/Graph/Search/Finish.antt =====
-- The state in which the loop over the queue ends.
use bg_pls.Base.{
  ℕ, zero, suc, ◌<◌, ◌≤◌, ◌≡◌, refl, sym, ap, ◌∙◌, subst, inl, inr, ◌⊎◌, Text, Option, none, some,
  List, [], ◌∷◌, ◌==◌, All, text_eq, text_eq_refl, eq_of_text_eq, arith, Bool-cases, List-cases,
}
use bg_pls.Base.Dict.{Dict, lookup}
use bg_pls.Topology.Graph.{Graph, PathMetric, PathConstraints, adjacent}
use bg_pls.Topology.Graph.Rooted.{IsRooted}
use bg_pls.Topology.Graph.Search.{uint64_mod, QueueItem, SearchState, relax_all, run, start_state}
use bg_pls.Topology.Graph.Search.Invariant.{Reached, InQueue, Relaxed, Recorded, Inv}
use bg_pls.Topology.Graph.Search.Relaxing.{relax_all-AllRelaxed}
use bg_pls.Topology.Graph.Search.Rounds.{
  item, popped, known, item_here, dropped-Inv, current-Inv, settle,
}

module _ (t : PathMetric) (c : Option PathConstraints) (g : Graph) (source destination : Text) where
  -- The distances are a fixed point of relaxation, up to the distance of the destination.
  pub record Done (s : SearchState) : Type 0 where
    pub level : ℕ
    pub start : lookup source s.dist ≡ some 0
    pub small : (k : Text) (d : ℕ) → lookup k s.dist ≡ some d → d < uint64_mod
    pub recorded :
        (k : Text) (d : ℕ)
        → lookup k s.dist ≡ some d
        → (k ≡ source) ⊎ Recorded t c g source level s k d
    pub complete :
        (k : Text) (d : ℕ)
        → lookup k s.dist ≡ some d
        → Relaxed t c g source s.dist k d ⊎ Reached s.dist destination d

  -- Nothing in the queue lies below the level.
  above :
      (m : ℕ) (k : Text) (d : ℕ) (dist : Dict ℕ) (q : List QueueItem)
      → All (λ i. (m ≤ i.cost) × Reached dist i.id i.cost) q
      → InQueue k d q
      → m ≤ d
  above m k d dist [] h w = absurd w
  above m k d dist (i ∷ q) h (inl (same, cost)) = omega (arith, h.0.0)
  above m k d dist (i ∷ q) h (inr w) = above m k d dist q h.1 w

  drained-Done : (m : ℕ) (s : SearchState) → s.queue ≡ [] → Inv t c g source m none s → Done s
  drained-Done m s empty inv = record {
    level = m;
    start = inv.start;
    small = inv.small;
    recorded = inv.recorded;
    complete = λ k d h. elim (inv.settled k d h) [
      | inl waiting ↦ absurd (subst (InQueue k d) empty waiting)
      | inr (inl tried) ↦ inl tried
      | inr (inr now) ↦ absurd (cc)
    ];
  }

  arrived-Done :
      (m : ℕ) (s : SearchState)
      → lookup destination s.dist ≡ some m
      → Inv t c g source m (some destination) s
      → Done s
  arrived-Done m s here inv = record {
    level = m;
    start = inv.start;
    small = inv.small;
    recorded = inv.recorded;
    complete = λ k d h. elim (inv.settled k d h) [
      | inl waiting ↦ inr (m, here, above m k d s.dist s.queue inv.queued waiting)
      | inr (inl tried) ↦ inl tried
      | inr (inr now) ↦
          let same : destination ≡ k = cc in
          let level : m ≡ d = cc (here, h, ap (λ x. lookup x s.dist) same) in
          inr (m, here, omega (arith, level))
    ];
  }

  pub run-Done :
      IsRooted g.adj
      → (fuel m : ℕ) (s s' : SearchState) → Inv t c g source m none s
      → run t c g destination fuel s ≡ some s'
      → Done s'
  unfolding run
  run-Done rooted zero m s s' inv h = absurd (cc)
  run-Done rooted (suc fuel) m s s' inv h = elim (List-cases s.queue) [
    | inl drained ↦
        let q : s ≡ s' = ground (arith, h, drained) in subst Done q (drained-Done m s drained inv)
    | inr (i, rest, queued) ↦
        let it = item t c g source m s i rest inv queued in
        let rest_of = popped t c g source m s i rest inv queued in
        let d : ℕ = known t c g source m s i rest inv queued in
        elim (Bool-cases (it.cost == d)) [
          | inr outdated ↦
              run-Done rooted fuel m rest_of s'
                (dropped-Inv t c g source m s i rest inv queued outdated) (ground arith)
          | inl current ↦
              let here = item_here t c g source m s i rest inv queued current in
              let next = current-Inv t c g source m s i rest inv queued current in
              elim (Bool-cases (text_eq it.id destination)) [
                | inl arrived ↦
                    let e = eq_of_text_eq it.id destination arrived in
                    let q : rest_of ≡ s' = ground arith in
                    subst Done q (
                      arrived-Done it.cost rest_of (ap (λ x. lookup x s.dist) (sym e) ∙ here)
                        (subst (λ x. Inv t c g source it.cost (some x) rest_of) e next))
                | inr away ↦
                    let ls = adjacent g.adj it.id in
                    let all =
                      relax_all-AllRelaxed t c g source it.cost it.id rest_of ls next here
                        (λ l x. x) (rooted it.id) in
                    run-Done rooted fuel it.cost (relax_all t c it.cost rest_of ls) s'
                      (settle t c g source it.cost it.id rest_of (relax_all t c it.cost rest_of ls)
                        all)
                      (ground arith)
              ]
        ]
  ]

  at_source :
      (k : Text) (d : ℕ) → lookup k (start_state source).dist ≡ some d → (source ≡ k) × (0 ≡ d)
  unfolding lookup
  at_source k d h = elim (Bool-cases (text_eq source k)) [
    | inl same ↦ (eq_of_text_eq source k same, ground arith)
    | inr other ↦ absurd (ground arith)
  ]

  source_dist : lookup source (start_state source).dist ≡ some 0
  unfolding lookup
  source_dist = rw (text_eq_refl source) refl

  start-Inv : Inv t c g source 0 none (start_state source)
  start-Inv = record {
    start = source_dist;
    small = λ k d h. let e = (at_source k d h).1 in omega arith;
    queued = ((omega arith, (0, source_dist, omega arith)), tt);
    settled = λ k d h. inl (inl (at_source k d h));
    recorded = λ k d h. inl (sym (at_source k d h).0);
  }

  -- A search that ends has found the distances, up to the destination's.
  pub finished-Done :
      IsRooted g.adj
      → (fuel : ℕ) (s : SearchState) → run t c g destination fuel (start_state source) ≡ some s
      → Done s
  finished-Done rooted fuel s h = run-Done rooted fuel 0 (start_state source) s start-Inv h
