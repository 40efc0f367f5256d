-- ===== src/Topology/Graph/Search/Relaxing.antt =====
-- Relaxing the links of one node keeps the invariant and tries every edge.
use bg_pls.Base.{
  ℕ, ◌+◌, ◌-◌, ◌<◌, ◌≤◌, ◌≡◌, refl, sym, subst, inl, inr, ◌⊎◌, Text, Option, none, some, List, [],
  ◌∷◌, true, false, ltb, Any, text_eq_refl, arith, Option-cases, Bool-cases,
}
use bg_pls.Base.Dict.{Dict, lookup}
use bg_pls.Entities.{Link}
use bg_pls.Topology.Graph.{Graph, PathMetric, PathConstraints, adjacent, metric, eligible}
use bg_pls.Topology.Graph.Search.{uint64_mod, SearchState, step_cost, improves, relax, relax_all}
use bg_pls.Topology.Graph.Search.Paths.{Edge}
use bg_pls.Topology.Graph.Search.Invariant.{
  Reached, Inv, improved, improved-Inv, lowered, kept, dist_here,
}

module _ (t : PathMetric) (c : Option PathConstraints) (g : Graph) (source : Text) where
  -- What relaxing a link does: the invariant stays, distances only fall, the current node keeps its
  -- own, and the edge of the link is tried.
  pub record Relaxing (m : ℕ) (cur : Text) (s s' : SearchState) (l : Link) : Type 0 where
    pub inv : Inv t c g source m (some cur) s'
    pub falls : (k : Text) (b : ℕ) → Reached s.dist k b → Reached s'.dist k b
    pub here : lookup cur s'.dist ≡ some m
    pub tried :
        (w : ℕ) → Edge t c g l w → m + w < uint64_mod → Reached s'.dist l.remote_node_id (m + w)

  -- The three outcomes of `relax`.
  step_cost_cases :
      (cost : ℕ) (l : Link)
      → ((step_cost t c cost l ≡ none) × ((w : ℕ) → Edge t c g l w → ¬ (cost + w < uint64_mod)))
        ⊎ ((w : ℕ) × (step_cost t c cost l ≡ some (cost + w))
            × (eligible l c ≡ true)
            × (metric l t ≡ some w)
            × (cost + w < uint64_mod))
  unfolding step_cost
  step_cost_cases cost l = elim (Option-cases (metric l t)) [
    | inl absent ↦ inl (ground arith, (λ w e fits. ground (arith, e.weighed)))
    | inr (w, e) ↦ elim (Bool-cases (eligible l c)) [
      | inr barred ↦ inl (ground arith, (λ v x fits. ground (arith, x.admitted)))
      | inl admitted ↦ elim (Bool-cases (ltb (uint64_mod - 1) (cost + w))) [
        | inl over ↦ inl (ground arith, (λ v x fits. ground (arith, x.weighed)))
        | inr fits ↦ inr (w, ground arith, admitted, e, ground arith)
      ]
    ]
  ]

  same_weight :
      (m : ℕ) (l : Link) (w v : ℕ) (dist : Dict ℕ)
      → metric l t ≡ some w
      → metric l t ≡ some v
      → Reached dist l.remote_node_id (m + w)
      → Reached dist l.remote_node_id (m + v)
  same_weight m l w v dist hw hv r =
      let e : w ≡ v = cc in subst (λ x. Reached dist l.remote_node_id (m + x)) e r

  improves_cases :
      (s : SearchState) (l : Link) (next : ℕ)
      → ((improves t c s l next ≡ true)
          × ((d : ℕ) → lookup l.remote_node_id s.dist ≡ some d → next ≤ d))
        ⊎ ((improves t c s l next ≡ false) × Reached s.dist l.remote_node_id next)
  unfolding improves
  improves_cases s l next = elim (Option-cases (lookup l.remote_node_id s.dist)) [
    | inl unseen ↦ inl (ground arith, (λ d h. absurd (cc)))
    | inr (old, seen) ↦ elim (Bool-cases (improves t c s l next)) [
      | inl better ↦ inl (better, (λ d h. ground arith))
      | inr worse ↦ inr (worse, (old, seen, ground arith))
    ]
  ]

  relax-Relaxing :
      (m : ℕ) (cur : Text) (s : SearchState) (l : Link)
      → Inv t c g source m (some cur) s
      → lookup cur s.dist ≡ some m
      → l.local_node_id ≡ cur
      → Any (λ x. x ≡ l) (adjacent g.adj cur)
      → Relaxing m cur s (relax t c m s l) l
  unfolding relax
  relax-Relaxing m cur s l inv here from listed = elim (step_cost_cases m l) [
    | inl (refused, unfit) ↦
        let same : s ≡ relax t c m s l = ground arith in
        subst (λ x. Relaxing m cur s x l) same
          (record {
            inv = inv;
            falls = λ k b r. r;
            here = here;
            tried = λ w e fits. absurd (unfit w e fits);
          })
    | inr (w, cost, admitted, weighed, fits) ↦
        let edge : Edge t c g l w = record {
          listed = subst (λ k. Any (λ x. x ≡ l) (adjacent g.adj k)) (sym from) listed;
          admitted = admitted;
          weighed = weighed;
        } in
        elim (improves_cases s l (m + w)) [
          | inr (worse, reached) ↦
              let same : s ≡ relax t c m s l = ground arith in
              subst (λ x. Relaxing m cur s x l) same
                (record {
                  inv = inv;
                  falls = λ k b r. r;
                  here = here;
                  tried = λ v e v_fits. same_weight m l w v _ weighed e.weighed reached;
                })
          | inl (better, least) ↦
              let same : improved t c g source m cur s l w inv here from edge fits least
                  ≡ relax t c m s l =
                ground arith in
              subst (λ x. Relaxing m cur s x l) same
                (record {
                  inv = improved-Inv t c g source m cur s l w inv here from edge fits least;
                  falls = lowered t c g source m cur s l w inv here from edge fits least;
                  here =
                      kept t c g source m cur s l w inv here from edge fits least cur m here
                        (omega arith);
                  tried = λ v e v_fits. same_weight m l w v _ weighed e.weighed (
                    m + w,
                    dist_here t c g source m cur s l w inv here from edge fits least
                        l.remote_node_id (text_eq_refl l.remote_node_id),
                    omega arith,
                  );
                })
        ]
  ]

  tried_here :
      (m : ℕ) (cur : Text) (s : SearchState) (l : Link)
      → Relaxing m cur s (relax t c m s l) l
      → (x : Link) → l ≡ x
      → (w : ℕ) → Edge t c g x w
      → m + w < uint64_mod
      → Reached (relax t c m s l).dist x.remote_node_id (m + w)
  tried_here m cur s l one x same w e fits =
      subst (λ y. Reached (relax t c m s l).dist y.remote_node_id (m + w)) same
        (one.tried w (subst (λ y. Edge t c g y w) (sym same) e) fits)

  -- What relaxing all links of the current node does.
  pub record AllRelaxed (m : ℕ) (cur : Text) (s s' : SearchState) (ls : List Link) : Type 0 where
    pub inv : Inv t c g source m (some cur) s'
    pub falls : (k : Text) (b : ℕ) → Reached s.dist k b → Reached s'.dist k b
    pub here : lookup cur s'.dist ≡ some m
    pub tried :
        (l : Link)
        → Any (λ x. x ≡ l) ls
        → (w : ℕ) → Edge t c g l w
        → m + w < uint64_mod
        → Reached s'.dist l.remote_node_id (m + w)

  pub relax_all-AllRelaxed :
      (m : ℕ) (cur : Text) (s : SearchState) (ls : List Link)
      → Inv t c g source m (some cur) s
      → lookup cur s.dist ≡ some m
      → ((l : Link) → Any (λ x. x ≡ l) ls → Any (λ x. x ≡ l) (adjacent g.adj cur))
      → ((l : Link) → Any (λ x. x ≡ l) (adjacent g.adj cur) → l.local_node_id ≡ cur)
      → AllRelaxed m cur s (relax_all t c m s ls) ls
  unfolding relax_all
  relax_all-AllRelaxed m cur s [] inv here within rooted = record {
    inv = inv;
    falls = λ k b r. r;
    here = here;
    tried = λ l h. absurd h;
  }
  relax_all-AllRelaxed m cur s (l ∷ ls) inv here within rooted =
      let listed = within l (inl refl) in
      let one = relax-Relaxing m cur s l inv here (rooted l listed) listed in
      let rest =
        relax_all-AllRelaxed m cur (relax t c m s l) ls one.inv one.here (λ x h. within x (inr h))
          rooted in
      record {
        inv = rest.inv;
        falls = λ k b r. rest.falls k b (one.falls k b r);
        here = rest.here;
        tried = λ x h w e fits. elim h [
          | inl same ↦
              rest.falls x.remote_node_id (m + w) (tried_here m cur s l one x same w e fits)
          | inr later ↦ rest.tried x later w e fits
        ];
      }
