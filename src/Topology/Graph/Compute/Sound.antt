-- ===== src/Topology/Graph/Compute/Sound.antt =====
-- What a computed path is.
use bg_pls.Base.{
  ℕ, suc, ◌+◌, ◌%◌, ◌≡◌, refl, sym, ap, ◌∙◌, subst, inl, inr, Text, Option, none, some, List, [],
  ◌∷◌, ◌++◌, Bool, true, false, All, append_assoc, append-nil, arith, Bool-cases,
}
use bg_pls.Base.Fallible.{ok, passed, ok-injective}
use bg_pls.Entities.{Node, Link}
use bg_pls.Topology.Graph.{Graph, PathMetric, PathConstraints, has_key, new_graph}
use bg_pls.Topology.Graph.Search.{uint64_mod, shortest}
use bg_pls.Topology.Graph.Search.Paths.{IsPath, Usable, Route, path_cost}
use bg_pls.Topology.Graph.Search.Answer.{shortest-Route}
use bg_pls.Topology.Graph.Compute.{
  PathHop, ComputedPath, waypoints, add_hops, reset_bottleneck, no_path_yet, path_of, join_segments,
  compute,
}

-- The links that the hops of a path leave by.
abbrev pub hop_links : List PathHop → List Link
hop_links [] = []
hop_links (h ∷ hs) = elim h.outgoing_link [ none ↦ hop_links hs | some l ↦ l ∷ hop_links hs ]

hop_links-append : (xs ys : List PathHop) → hop_links (xs ++ ys) ≡ hop_links xs ++ hop_links ys
hop_links-append [] ys = refl
hop_links-append (h ∷ xs) ys = leaving h.outgoing_link (hop_links-append xs ys)
  where
    leaving :
        (o : Option Link)
        → hop_links (xs ++ ys) ≡ hop_links xs ++ hop_links ys
        → ◌≡◌ {A = List Link}
            (elim o [ none ↦ hop_links (xs ++ ys) | some l ↦ l ∷ hop_links (xs ++ ys) ])
            ((elim o [ none ↦ hop_links xs | some l ↦ l ∷ hop_links xs ]) ++ hop_links ys)
    leaving none rest = rest
    leaving (some l) rest = ap (λ zs. l ∷ zs) rest

reset-keeps :
    (b : Bool) (path : ComputedPath)
    → ((reset_bottleneck b path).hops ≡ path.hops)
      × ((reset_bottleneck b path).total_metric ≡ path.total_metric)
unfolding reset_bottleneck
reset-keeps true path = (refl, refl)
reset-keeps false path = (refl, refl)

add_hops-hop_links :
    (g : Graph) (i : ℕ) (current : Text) (ls : List Link) (path : ComputedPath)
    → hop_links (add_hops g i current ls path).hops ≡ hop_links path.hops ++ ls
unfolding add_hops
add_hops-hop_links g i current [] path = hop_links-append path.hops _
add_hops-hop_links g i current (l ∷ ls) path =
    add_hops-hop_links g (suc i) l.remote_node_id ls _
    ∙ (ap (λ zs. zs ++ ls) (hop_links-append path.hops _)
        ∙ append_assoc (hop_links path.hops) (l ∷ []) ls)

add_hops-total :
    (g : Graph) (i : ℕ) (current : Text) (ls : List Link) (path : ComputedPath)
    → (add_hops g i current ls path).total_metric ≡ path.total_metric
unfolding add_hops
add_hops-total g i current [] path = refl
add_hops-total g i current (l ∷ ls) path = add_hops-total g (suc i) l.remote_node_id ls _

add_mod : (s w b x : ℕ) → s ≡ b % uint64_mod → x ≡ b + w → (s + w) % uint64_mod ≡ x % uint64_mod
add_mod s w b x h k = omega arith

-- The nodes that a path has to include.
abbrev pub included : Option PathConstraints → List Text
included none = []
included (some c) = c.include_node_ids

waypoints_lem :
    (c : Option PathConstraints) (source destination : Text)
    → waypoints source destination c ≡ source ∷ (included c ++ destination ∷ [])
unfolding waypoints
waypoints_lem none source destination = refl
waypoints_lem (some c) source destination = refl

module _ (revision : ℕ) (nodes : List Node) (links : List Link) (t : PathMetric) where
  abbrev g : Graph
  g = new_graph revision nodes links

  path_of-hop_links :
      (source : Text) (ls : List Link) (total : ℕ) → hop_links (path_of g source ls total).hops ≡ ls
  unfolding path_of
  path_of-hop_links source ls total =
      ap hop_links (reset-keeps _ (add_hops g 0 source ls (no_path_yet total))).0
      ∙ add_hops-hop_links g 0 source ls (no_path_yet total)

  path_of-total :
      (source : Text) (ls : List Link) (total : ℕ)
      → (path_of g source ls total).total_metric ≡ total
  unfolding path_of
  path_of-total source ls total =
      (reset-keeps _ (add_hops g 0 source ls (no_path_yet total))).1
      ∙ add_hops-total g 0 source ls (no_path_yet total)

  -- A path passes through a node.
  abbrev pub Visits : Text → List Link → Text → Type 0
  Visits source out n = (xs ys : List Link) × (xs ++ ys ≡ out) × IsPath source xs n

  module _ (c : Option PathConstraints) where
    IsPath-append :
        (a b d : Text) (xs ys : List Link) → IsPath a xs b → IsPath b ys d → IsPath a (xs ++ ys) d
    IsPath-append a b d [] ys p q = subst (λ x. IsPath x ys d) (sym p) q
    IsPath-append a b d (x ∷ xs) ys p q = (p.0, IsPath-append x.remote_node_id b d xs ys p.1 q)

    All-append :
        {A : Type 0} (P : A → Type 0) (xs ys : List A) → All P xs → All P ys → All P (xs ++ ys)
    All-append P [] ys p q = q
    All-append P (x ∷ xs) ys p q = (p.0, All-append P xs ys p.1 q)

    path_cost-append :
        (xs ys : List Link) → path_cost t (xs ++ ys) ≡ path_cost t xs + path_cost t ys
    path_cost-append [] ys = omega arith
    path_cost-append (x ∷ xs) ys = omega (arith, path_cost-append xs ys)

    guarded :
        (a b : Text) (p : List Link) (cost : ℕ)
        → shortest g a b t c ≡ ok (p, cost)
        → (has_key a g.nodes ≡ true) × (has_key b g.nodes ≡ true)
    unfolding shortest
    guarded a b p cost h = elim (Bool-cases (has_key a g.nodes)) [
      | inl one ↦ elim (Bool-cases (has_key b g.nodes)) [
        | inl two ↦ (one, two)
        | inr no_two ↦ absurd (ground arith)
      ]
      | inr no_one ↦ absurd (ground arith)
    ]

    segment-Route :
        (a b : Text) (p : List Link) (cost : ℕ)
        → shortest g a b t c ≡ ok (p, cost)
        → Route t c g a p b × (path_cost t p ≡ cost)
    segment-Route a b p cost h =
        let (one, two) = guarded a b p cost h in
        elim (shortest-Route revision nodes links a b t c one two) [
          | inl (path, total, found, route, sum, small) ↦
              let same = ok-injective (sym found ∙ h) in
              (
                subst (λ x. Route t c g a x b) (ap (λ x. x.0) same) route,
                ap (λ x. path_cost t x) (sym (ap (λ x. x.0) same)) ∙ (sum ∙ ap (λ x. x.1) same),
              )
          | inr lost ↦ absurd (cc)
        ]

    -- The end of a chain of waypoints.
    abbrev last_of : Text → List Text → Text
    last_of a [] = a
    last_of a (b ∷ rest) = last_of b rest

    -- What the loop over the waypoints has made of the links before.
    abbrev Joined : Text → Text → List Text → List Link → List Link → ℕ → Type 0
    Joined source a rest before out total =
        ((more : List Link) × (before ++ more ≡ out))
        × Route t c g source out (last_of a rest)
        × (total ≡ path_cost t out % uint64_mod)
        × All (Visits source out) rest

    join_segments-Joined :
        (source a : Text) (rest : List Text) (before out : List Link) (sum total : ℕ)
        → Route t c g source before a
        → sum ≡ path_cost t before % uint64_mod
        → join_segments g t c (a ∷ rest) before sum ≡ ok (out, total)
        → Joined source a rest before out total
    unfolding join_segments
    join_segments-Joined source a [] before out sum total route cost h =
        let same = ok-injective h in
        let links_same : before ≡ out = ap (λ x. x.0) same in
        (
          ([], append-nil before ∙ links_same),
          subst (λ x. Route t c g source x a) links_same route,
          sym (ap (λ x. x.1) same) ∙ (cost ∙ ap (λ x. path_cost t x % uint64_mod) links_same),
          tt,
        )
    join_segments-Joined source a (b ∷ rest) before out sum total route cost h =
        let ((segment, weight), found, next) =
          passed (shortest g a b t c)
            (λ r. join_segments g t c (b ∷ rest) (before ++ r.0) ((sum + r.1) % uint64_mod)) h in
        let (leg, leg_cost) = segment-Route a b segment weight found in
        let route' : Route t c g source (before ++ segment) b = (
          IsPath-append source a b before segment route.0 leg.0,
          All-append (Usable t c g) before segment route.1 leg.1,
        ) in
        let sum' : (sum + weight) % uint64_mod ≡ path_cost t (before ++ segment) % uint64_mod =
          add_mod sum weight (path_cost t before) (path_cost t (before ++ segment)) cost
            (path_cost-append before segment ∙ ap (λ (w : ℕ). path_cost t before + w) leg_cost) in
        let ((more, extended), whole, all, visits) =
          join_segments-Joined source b rest (before ++ segment) out _ total route' sum' next in
        (
          (segment ++ more, sym (append_assoc before segment more) ∙ extended),
          whole,
          all,
          ((before ++ segment, more, extended, route'.0), visits),
        )

    last_of-append : (a z : Text) (xs : List Text) → last_of a (xs ++ z ∷ []) ≡ z
    last_of-append a z [] = refl
    last_of-append a z (x ∷ xs) = last_of-append x z xs

    All-left : {A : Type 0} (P : A → Type 0) (xs ys : List A) → All P (xs ++ ys) → All P xs
    All-left P [] ys h = tt
    All-left P (x ∷ xs) ys h = (h.0, All-left P xs ys h.1)

    -- A path that is computed on a graph that is built from entities leads from the source to the
    -- destination over links of the graph that the constraints admit and that have a weight. It passes
    -- through every node that it has to include, and its metric is the sum of the weights modulo 2 ^ 64.
    pub compute-Route :
        (source destination : Text) (p : ComputedPath)
        → compute g t source destination c ≡ ok p
        → Route t c g source (hop_links p.hops) destination
          × (p.total_metric ≡ path_cost t (hop_links p.hops) % uint64_mod)
          × All (Visits source (hop_links p.hops)) (included c)
    unfolding compute
    compute-Route source destination p h =
        let ((out, total), joined, made) =
          passed (join_segments g t c (waypoints source destination c) [] 0)
            (λ r. ok (path_of g source r.0 r.1)) h in
        let whole =
          join_segments-Joined source source (included c ++ destination ∷ []) [] out 0 total
            (refl, tt) refl
            (subst (λ ws. join_segments g t c ws [] 0 ≡ ok (out, total))
              (waypoints_lem c source destination) joined) in
        let (begun, route, sum, visits) = whole in
        let same = ok-injective made in
        let links_same : out ≡ hop_links p.hops =
          sym (path_of-hop_links source out total) ∙ ap (λ x. hop_links x.hops) same in
        (
          subst (λ x. Route t c g source x destination) links_same
              (subst (λ x. Route t c g source out x)
                (last_of-append source destination (included c)) route),
          sym (ap (λ x. x.total_metric) same)
              ∙ (path_of-total source out total
                  ∙ (sum ∙ ap (λ x. path_cost t x % uint64_mod) links_same)),
          subst (λ x. All (Visits source x) (included c)) links_same
              (All-left _ (included c) _ visits),
        )
