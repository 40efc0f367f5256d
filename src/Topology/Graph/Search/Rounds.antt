-- ===== src/Topology/Graph/Search/Rounds.antt =====
-- The rounds of the search, from the start to the state in which it ends.
use bg_pls.Base.{
  All-map, ℕ, ◌+◌, ◌≤◌, ◌≡◌, sym, ap, ◌∙◌, subst, inl, inr, ◌⊎◌, Text, Option, none, some, List, [],
  ◌∷◌, true, false, ◌==◌, ==_iff, Any, All, arith,
}
use bg_pls.Base.Dict.{lookup}
use bg_pls.Topology.Graph.{Graph, PathMetric, PathConstraints, adjacent}
use bg_pls.Topology.Graph.Search.{QueueItem, pop_least, SearchState}
use bg_pls.Topology.Graph.Search.Queue.{All-pop_least, Any-pop_least, pop_least_min}
use bg_pls.Topology.Graph.Search.Invariant.{Reached, InQueue, Recorded, Inv}
use bg_pls.Topology.Graph.Search.Relaxing.{AllRelaxed}

All-zip :
    {A : Type 0} (P Q : A → Type 0) (xs : List A) → All P xs → All Q xs → All (λ x. P x × Q x) xs
All-zip P Q [] h k = tt
All-zip P Q (x ∷ xs) h k = ((h.0, k.0), All-zip P Q xs h.1 k.1)

module _ (t : PathMetric) (c : Option PathConstraints) (g : Graph) (source : Text) where
  -- The record of a node stays when the level rises and the queue changes.
  raise :
      (m n : ℕ) (s : SearchState) (q : List QueueItem) (k : Text) (d : ℕ)
      → m ≤ n
      → Recorded t c g source m s k d
      → Recorded t c g source n (record s { queue = q }) k d
  raise m n s q k d le r = record {
    link = r.link;
    weight = r.weight;
    origin = r.origin;
    last = r.last;
    ends = r.ends;
    edge = r.edge;
    starts = r.starts;
    sums = r.sums;
    low = omega (arith, r.low);
  }

  -- One round: the least item of a queue that is not empty.
  module _ (m : ℕ) (s : SearchState) (i : QueueItem) (rest : List QueueItem)
      (inv : Inv t c g source m none s) (queue : s.queue ≡ i ∷ rest) where
    abbrev pub item : QueueItem
    item = (pop_least i rest).0

    abbrev pub popped : SearchState
    popped = record s { queue = (pop_least i rest).1 }

    abbrev Late : QueueItem → Type 0
    Late j = (m ≤ j.cost) × Reached s.dist j.id j.cost

    waiting-Late : Late item × All Late popped.queue
    waiting-Late = let h = subst (All Late) queue inv.queued in All-pop_least Late i rest h.0 h.1

    -- A node that waited in the queue is the popped one or waits still.
    waited :
        (k : Text) (d : ℕ)
        → InQueue k d s.queue
        → ((item.id ≡ k) × (item.cost ≡ d)) ⊎ InQueue k d popped.queue
    waited k d h =
        Any-pop_least (λ j. (j.id ≡ k) × (j.cost ≡ d)) i rest (subst (InQueue k d) queue h)

    abbrev pub known : ℕ
    known = elim (lookup item.id s.dist) [ none ↦ 0 | some d ↦ d ]

    known_lem : (d : ℕ) → lookup item.id s.dist ≡ some d → known ≡ d
    known_lem d h = ground (arith, h)

    -- The item is out of date: it is dropped.
    pub dropped-Inv : item.cost == known ≡ false → Inv t c g source m none popped
    dropped-Inv outdated = record {
      start = inv.start;
      small = inv.small;
      queued = waiting-Late.1;
      settled = λ k d h. elim (inv.settled k d h) [
        | inl waiting ↦ elim (waited k d waiting) [
          | inl (same, cost) ↦
              let e = known_lem d (ap (λ x. lookup x s.dist) same ∙ h) in absurd (ground arith)
          | inr still ↦ inl still
        ]
        | inr tried ↦ inr tried
      ];
      recorded = λ k d h. elim (inv.recorded k d h) [
        | inl first ↦ inl first
        | inr r ↦ inr (raise m m s popped.queue k d (omega arith) r)
      ];
    }

    pub item_here : item.cost == known ≡ true → lookup item.id s.dist ≡ some item.cost
    item_here current =
        let (e, h, le) = waiting-Late.0.1 in
        let q = known_lem e h in h ∙ ap some (omega (arith, (==_iff item.cost known).0 current))

    -- The item is the node's distance: the node becomes the current one.
    pub current-Inv : item.cost == known ≡ true → Inv t c g source item.cost (some item.id) popped
    current-Inv current = record {
      start = inv.start;
      small = inv.small;
      queued =
          All-zip (λ j. item.cost ≤ j.cost) (λ j. Reached s.dist j.id j.cost) popped.queue
            (pop_least_min i rest).1
            (All-map Late (λ j. Reached s.dist j.id j.cost) popped.queue (λ j h. h.1)
              waiting-Late.1);
      settled = λ k d h. elim (inv.settled k d h) [
        | inl waiting ↦ elim (waited k d waiting) [
          | inl (same, cost) ↦ inr (inr (ap some same))
          | inr still ↦ inl still
        ]
        | inr (inl tried) ↦ inr (inl tried)
        | inr (inr none_now) ↦ absurd (cc)
      ];
      recorded = λ k d h. elim (inv.recorded k d h) [
        | inl first ↦ inl first
        | inr r ↦ inr (raise m item.cost s popped.queue k d waiting-Late.0.0 r)
      ];
    }

  -- All links of the current node have been relaxed: it is settled.
  pub settle :
      (m : ℕ) (cur : Text) (s s' : SearchState)
      → AllRelaxed t c g source m cur s s' (adjacent g.adj cur)
      → Inv t c g source m none s'
  settle m cur s s' r = record {
    start = r.inv.start;
    small = r.inv.small;
    queued = r.inv.queued;
    settled = λ k d h. elim (r.inv.settled k d h) [
      | inl waiting ↦ inl waiting
      | inr (inl tried) ↦ inr (inl tried)
      | inr (inr now) ↦
          let same : cur ≡ k = cc in
          let level : m ≡ d = cc (r.here, h, ap (λ x. lookup x s'.dist) same) in
          inr (
            inl (λ l w from e fits.
              subst (λ x. Reached s'.dist l.remote_node_id (x + w)) level
                (r.tried l
                  (subst (λ x. Any (λ y. y ≡ l) (adjacent g.adj x)) (from ∙ sym same) e.listed) w e
                  (omega arith))))
    ];
    recorded = r.inv.recorded;
  }
