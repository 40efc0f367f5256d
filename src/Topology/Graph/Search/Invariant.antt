-- ===== src/Topology/Graph/Search/Invariant.antt =====
-- What holds between the rounds of the search, and while the links of one node are relaxed.
use bg_pls.Base.{
  ℕ, ◌+◌, ◌<◌, ◌≤◌, ◌≡◌, refl, sym, ap, ◌∙◌, subst, inl, inr, ◌⊎◌, Text, Option, some, List, [],
  ◌∷◌, ◌++◌, true, false, Any, All, text_eq, eq_of_text_eq, text_eq_refl, arith, Bool-cases,
}
use bg_pls.Base.Dict.{Dict, lookup, insert, lookup-insert}
use bg_pls.Entities.{Link}
use bg_pls.Topology.Graph.{Graph, PathMetric, PathConstraints}
use bg_pls.Topology.Graph.Search.{uint64_mod, QueueItem, SearchState}
use bg_pls.Topology.Graph.Search.Paths.{Edge, metric_pos}

-- A node has a distance of at most a bound.
abbrev pub Reached : Dict ℕ → Text → ℕ → Type 0
Reached dist k b = (e : ℕ) × (lookup k dist ≡ some e) × (e ≤ b)

abbrev pub InQueue : Text → ℕ → List QueueItem → Type 0
InQueue k d q = Any (λ i. (i.id ≡ k) × (i.cost ≡ d)) q

module _ (t : PathMetric) (c : Option PathConstraints) (g : Graph) (source : Text) where
  -- Every edge that leaves a node at a distance has been tried.
  abbrev pub Relaxed : Dict ℕ → Text → ℕ → Type 0
  Relaxed dist k d =
      (l : Link) (w : ℕ)
      → l.local_node_id ≡ k
      → Edge t c g l w
      → d + w < uint64_mod
      → Reached dist l.remote_node_id (d + w)

  -- The link by which a node was reached, from a node whose distance is at most a level.
  pub record Recorded (m : ℕ) (s : SearchState) (k : Text) (d : ℕ) : Type 0 where
    pub link : Link
    pub weight : ℕ
    pub origin : ℕ
    pub last : lookup k s.prev ≡ some link
    pub ends : link.remote_node_id ≡ k
    pub edge : Edge t c g link weight
    pub starts : lookup link.local_node_id s.dist ≡ some origin
    pub sums : origin + weight ≡ d
    pub low : origin ≤ m

  -- The level is the distance of the node that was popped last: the queue holds nothing below it, so
  -- distances up to it are final. A node at its distance waits in the queue, or its edges have been
  -- tried, or it is the node whose links are being relaxed.
  pub record Inv (m : ℕ) (cur : Option Text) (s : SearchState) : Type 0 where
    pub start : lookup source s.dist ≡ some 0
    pub small : (k : Text) (d : ℕ) → lookup k s.dist ≡ some d → d < uint64_mod
    pub queued : All (λ i. (m ≤ i.cost) × Reached s.dist i.id i.cost) s.queue
    pub settled :
        (k : Text) (d : ℕ)
        → lookup k s.dist ≡ some d
        → InQueue k d s.queue ⊎ (Relaxed s.dist k d ⊎ (cur ≡ some k))
    pub recorded : (k : Text) (d : ℕ) → lookup k s.dist ≡ some d → (k ≡ source) ⊎ Recorded m s k d

  -- An improvement of the node at the end of a link of the current node.
  module _ (m : ℕ) (cur : Text) (s : SearchState) (l : Link) (w : ℕ) (inv : Inv m (some cur) s)
      (here : lookup cur s.dist ≡ some m) (from : l.local_node_id ≡ cur) (edge : Edge t c g l w)
      (bound : m + w < uint64_mod)
      (better : (d : ℕ) → lookup l.remote_node_id s.dist ≡ some d → m + w ≤ d) where
    abbrev pub dist' : Dict ℕ
    dist' = insert l.remote_node_id (m + w) s.dist

    abbrev pub improved : SearchState
    improved = record {
      dist = dist';
      prev = insert l.remote_node_id l s.prev;
      queue = s.queue ++ record { id = l.remote_node_id; cost = m + w } ∷ [];
    }

    pub dist_here : (k : Text) → text_eq l.remote_node_id k ≡ true → lookup k dist' ≡ some (m + w)
    dist_here k same = lookup-insert l.remote_node_id k (m + w) s.dist ∙ rw same refl

    dist_there : (k : Text) → text_eq l.remote_node_id k ≡ false → lookup k dist' ≡ lookup k s.dist
    dist_there k other = lookup-insert l.remote_node_id k (m + w) s.dist ∙ rw other refl

    -- Distances up to the level stay.
    pub kept : (k : Text) (d : ℕ) → lookup k s.dist ≡ some d → d ≤ m → lookup k dist' ≡ some d
    kept k d h low = elim (Bool-cases (text_eq l.remote_node_id k)) [
      | inl same ↦
          let e = eq_of_text_eq l.remote_node_id k same in
          let worse = better d (ap (λ x. lookup x s.dist) e ∙ h) in
          absurd (omega (arith, metric_pos l t edge.weighed))
      | inr other ↦ dist_there k other ∙ h
    ]

    pub lowered : (k : Text) (b : ℕ) → Reached s.dist k b → Reached dist' k b
    lowered k b (e, h, le) = elim (Bool-cases (text_eq l.remote_node_id k)) [
      | inl same ↦
          let q = eq_of_text_eq l.remote_node_id k same in
          let less = better e (ap (λ x. lookup x s.dist) q ∙ h) in
          (m + w, dist_here k same, omega arith)
      | inr other ↦ (e, dist_there k other ∙ h, le)
    ]

    All-lowered :
        (q : List QueueItem)
        → All (λ i. (m ≤ i.cost) × Reached s.dist i.id i.cost) q
        → All
            (λ i. (m ≤ i.cost) × Reached dist' i.id i.cost)
            (q ++ record { id = l.remote_node_id; cost = m + w } ∷ [])
    All-lowered [] h = (
      (
        omega arith,
        (m + w, dist_here l.remote_node_id (text_eq_refl l.remote_node_id), omega arith),
      ),
      tt,
    )
    All-lowered (i ∷ q) h = ((h.0.0, lowered i.id i.cost h.0.1), All-lowered q h.1)

    waits :
        (q : List QueueItem)
        → InQueue l.remote_node_id
            (m + w)
            (q ++ record { id = l.remote_node_id; cost = m + w } ∷ [])
    waits [] = inl (refl, refl)
    waits (i ∷ q) = inr (waits q)

    still_waits :
        (k : Text) (d : ℕ) (q : List QueueItem)
        → InQueue k d q
        → InQueue k d (q ++ record { id = l.remote_node_id; cost = m + w } ∷ [])
    still_waits k d [] h = absurd h
    still_waits k d (i ∷ q) (inl h) = inl h
    still_waits k d (i ∷ q) (inr h) = inr (still_waits k d q h)

    improved_small : (k : Text) (d : ℕ) → lookup k dist' ≡ some d → d < uint64_mod
    improved_small k d h = elim (Bool-cases (text_eq l.remote_node_id k)) [
      | inl same ↦ let e = dist_here k same in ground arith
      | inr other ↦ inv.small k d (sym (dist_there k other) ∙ h)
    ]

    improved_settled :
        (k : Text) (d : ℕ)
        → lookup k dist' ≡ some d
        → InQueue k d improved.queue ⊎ (Relaxed dist' k d ⊎ (some cur ≡ some k))
    improved_settled k d h = elim (Bool-cases (text_eq l.remote_node_id k)) [
      | inl same ↦
          let e : m + w ≡ d = cc (dist_here k same) in
          inl (
            subst (λ x. InQueue x d improved.queue) (eq_of_text_eq l.remote_node_id k same)
              (subst (λ x. InQueue l.remote_node_id x improved.queue) e (waits s.queue)))
      | inr other ↦ elim (inv.settled k d (sym (dist_there k other) ∙ h)) [
        | inl waiting ↦ inl (still_waits k d s.queue waiting)
        | inr (inl tried) ↦
            inr (inl (λ x v at_k e fits. lowered x.remote_node_id (d + v) (tried x v at_k e fits)))
        | inr (inr now) ↦ inr (inr now)
      ]
    ]

    improved_recorded :
        (k : Text) (d : ℕ) → lookup k dist' ≡ some d → (k ≡ source) ⊎ Recorded m improved k d
    improved_recorded k d h = elim (Bool-cases (text_eq l.remote_node_id k)) [
      | inl same ↦
          let e : m + w ≡ d = cc (dist_here k same) in
          inr (record {
            link = l;
            weight = w;
            origin = m;
            last = lookup-insert l.remote_node_id k l s.prev ∙ rw same refl;
            ends = eq_of_text_eq l.remote_node_id k same;
            edge = edge;
            starts = kept l.local_node_id m (ap (λ x. lookup x s.dist) from ∙ here) (omega arith);
            sums = e;
            low = omega arith;
          })
      | inr other ↦ elim (inv.recorded k d (sym (dist_there k other) ∙ h)) [
        | inl first ↦ inl first
        | inr r ↦ inr (record {
          link = r.link;
          weight = r.weight;
          origin = r.origin;
          last = lookup-insert l.remote_node_id k l s.prev ∙ rw other r.last;
          ends = r.ends;
          edge = r.edge;
          starts = kept r.link.local_node_id r.origin r.starts r.low;
          sums = r.sums;
          low = r.low;
        })
      ]
    ]

    pub improved-Inv : Inv m (some cur) improved
    improved-Inv = record {
      start = kept source 0 inv.start (omega arith);
      small = improved_small;
      queued = All-lowered s.queue inv.queued;
      settled = improved_settled;
      recorded = improved_recorded;
    }
