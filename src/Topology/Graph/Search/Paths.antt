-- ===== src/Topology/Graph/Search/Paths.antt =====
-- Paths of the graph: the edges that a search may use, and what they cost.
use bg_pls.Base.{ℕ, ◌+◌, ◌<◌, ◌≡◌, Text, Option, none, some, List, [], ◌∷◌, true, Any, All, arith}
use bg_pls.Entities.{Link}
use bg_pls.Topology.Graph.{
  Graph, PathMetric, igp, te, delay, PathConstraints, adjacent, metric, eligible,
}

-- The links lead from one node to another.
abbrev pub IsPath : Text → List Link → Text → Type 0
IsPath a [] b = a ≡ b
IsPath a (l ∷ ls) b = (l.local_node_id ≡ a) × IsPath l.remote_node_id ls b

-- The weights of a path, added without bound.
abbrev pub weight_of : PathMetric → Link → ℕ
weight_of t l = elim (metric l t) [ none ↦ 0 | some w ↦ w ]

abbrev pub path_cost : PathMetric → List Link → ℕ
path_cost t [] = 0
path_cost t (l ∷ ls) = weight_of t l + path_cost t ls

pub metric_pos : (l : Link) (t : PathMetric) {w : ℕ} → metric l t ≡ some w → 0 < w
unfolding metric
metric_pos l igp h = ground arith
metric_pos l te h = ground arith
metric_pos l delay h = ground arith

module _ (t : PathMetric) (c : Option PathConstraints) (g : Graph) where
  -- A link of the graph that the constraints admit, with its weight.
  pub record Edge (l : Link) (w : ℕ) : Type 0 where
    pub listed : Any (λ m. m ≡ l) (adjacent g.adj l.local_node_id)
    pub admitted : eligible l c ≡ true
    pub weighed : metric l t ≡ some w

  abbrev pub Usable : Link → Type 0
  Usable l = (w : ℕ) × Edge l w

  -- A path from one node to another over usable links.
  abbrev pub Route : Text → List Link → Text → Type 0
  Route a ls b = IsPath a ls b × All Usable ls
