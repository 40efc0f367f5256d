-- ===== src/Topology/Graph/Search.antt =====
-- internal/topology/graph.go: the shortest path search and the paths that are made of it.
-- `container/heap` under `Less` pops a queue item with the least cost and, among those, id; items
-- that agree on both are alike, so the queue is a list from which the least item is taken.
pub mod Potential
pub mod Termination
pub mod Paths
pub mod Invariant
pub mod Relaxing
pub mod Queue
pub mod Rounds
pub mod Finish
pub mod Optimal
pub mod Answer
use bg_pls.Base.{
  ℕ, zero, suc, ◌+◌, ◌-◌, ◌*◌, ◌^◌, Text, Option, none, some, List, [], ◌∷◌, ◌++◌, Bool, true, not,
  ◌&&◌, ◌||◌, ◌==◌, ltb, length, text_eq, text_lt, if◌then◌else◌,
}
use bg_pls.Base.Dict.{Dict, lookup, insert}
use bg_pls.Base.Fallible.{Fallible, ok, err, ◌>>=◌}
use bg_pls.Entities.{Link}
use bg_pls.Topology.Graph.{
  Graph, PathMetric, PathConstraints, link_id, has_key, adjacent, metric, eligible,
}

abbrev pub uint64_mod : ℕ
uint64_mod = 2 ^ 64

pub record QueueItem : Type 0 where
  pub id : Text
  pub cost : ℕ

-- `priorityQueue.Less`
unfoldable pub item_less : QueueItem → QueueItem → Bool
item_less a b = if a.cost == b.cost then text_lt a.id b.id else ltb a.cost b.cost

-- `heap.Pop` on a queue that is not empty: the least item and the others.
unfoldable pub pop_least : QueueItem → List QueueItem → QueueItem × List QueueItem
unfolding item_less
pop_least best [] = (best, [])
pop_least best (i ∷ rest) =
    let (least, others) = pop_least (if item_less i best then i else best) rest in
    (least, (if item_less i best then best else i) ∷ others)

pub record SearchState : Type 0 where
  pub dist : Dict ℕ
  pub prev : Dict Link
  pub queue : List QueueItem

-- The id of `prev[node]`, through the getters of a nil link.
unfoldable pub prev_id : Dict Link → Text → Text
prev_id prev node = elim (lookup node prev) [ none ↦ [] | some l ↦ link_id l ]

module _ (metric_type : PathMetric) (c : Option PathConstraints) where
  -- The cost behind a link that passes the constraints and the overflow guard: `item.cost >
  -- MaxUint64 - weight` says that the exact sum is no uint64.
  unfoldable pub step_cost : ℕ → Link → Option ℕ
  step_cost cost l = if not (eligible l c) then none else elim (metric l metric_type) [
    | none ↦ none
    | some weight ↦ if ltb (uint64_mod - 1) (cost + weight) then none else some (cost + weight)
  ]

  -- `!seen || next < old || (next == old && id < prev id)`
  unfoldable pub improves : SearchState → Link → ℕ → Bool
  unfolding prev_id
  improves s l next = elim (lookup l.remote_node_id s.dist) [
    | none ↦ true
    | some old ↦
        ltb next old || (next == old && text_lt (link_id l) (prev_id s.prev l.remote_node_id))
  ]

  unfoldable pub relax : ℕ → SearchState → Link → SearchState
  unfolding step_cost improves
  relax cost s l = elim (step_cost cost l) [
    | none ↦ s
    | some next ↦
        if improves s l next
        then record {
          dist = insert l.remote_node_id next s.dist;
          prev = insert l.remote_node_id l s.prev;
          queue = s.queue ++ record { id = l.remote_node_id; cost = next } ∷ [];
        }
        else s
  ]

  -- The loop over `g.adj[item.id]`.
  unfoldable pub relax_all : ℕ → SearchState → List Link → SearchState
  unfolding relax
  relax_all cost s [] = s
  relax_all cost s (l ∷ ls) = relax_all cost (relax cost s l) ls

  module _ (g : Graph) (destination : Text) where
    -- The loop over the queue; `none` is out of fuel.
    unfoldable pub run : ℕ → SearchState → Option SearchState
    unfolding relax_all pop_least adjacent
    run zero s = none
    run (suc fuel) s = elim s.queue [
      | [] ↦ some s
      | i ∷ rest ↦
          let (item, others) = pop_least i rest in
          let popped = record s { queue = others } in
          let known : ℕ = elim (lookup item.id s.dist) [ none ↦ 0 | some d ↦ d ] in
          let skip = run fuel popped in
          let next = run fuel (relax_all item.cost popped (adjacent g.adj item.id)) in
          if not (item.cost == known)
          then skip
          else if text_eq item.id destination
          then some popped
          else next
    ]

pub data SearchError : Type 0 where
  no_endpoint no_path out_of_fuel : SearchError

abbrev pub Result : Type 0 → Type 0
Result = Fallible SearchError

-- The loop from the destination back to the source; it builds the path front to back.
unfoldable pub walk_back : ℕ → Dict Link → Text → Text → List Link → Result (List Link)
walk_back zero prev source current path = err out_of_fuel
walk_back (suc fuel) prev source current path =
    let step : Result (List Link) = elim (lookup current prev) [
      | none ↦ err no_path
      | some l ↦ walk_back fuel prev source l.local_node_id (l ∷ path)
    ] in
    if text_eq current source then ok path else step

abbrev pub all_links : Dict (List Link) → List Link
all_links [] = []
all_links (e ∷ adj) = e.1 ++ all_links adj

-- Fuel for the loop over the queue: a bound on how often a distance can be improved.
unfoldable pub search_fuel : Graph → ℕ
search_fuel g = let n = length (all_links g.adj) in suc (suc (n * (uint64_mod * suc n + n)))

abbrev pub start_state : Text → SearchState
start_state source = record {
  dist = (source, 0) ∷ [];
  prev = [];
  queue = record { id = source; cost = 0 } ∷ [];
}

-- A step back lowers the distance, so the distance of the destination is fuel enough for the walk.
unfoldable pub shortest :
    Graph → Text → Text → PathMetric → Option PathConstraints → Result (List Link × ℕ)
unfolding run walk_back
shortest g source destination metric_type c =
    if not (has_key source g.nodes) || not (has_key destination g.nodes)
    then err no_endpoint
    else elim (run metric_type c g destination (search_fuel g) (start_state source)) [
      | none ↦ err out_of_fuel
      | some s ↦ elim (lookup destination s.dist) [
        | none ↦ err no_path
        | some total ↦ do
          path ← walk_back (suc total) s.prev source destination []
          ok (path, total)
      ]
    ]
