-- ===== src/Topology/Graph/Search/Potential.antt =====
-- The loop over the queue ends: every push lowers a potential, and every round pops an item.
use mathlib.Core.Path.{ap₂}
use bg_pls.Base.{
  ℕ, suc, ◌+◌, ◌*◌, ◌≤◌, ◌<◌, ◌≡◌, refl, sym, ap, subst, ◌∙◌, inl, inr, ◌⊎◌, Text, Option, none,
  some, List, [], ◌∷◌, ◌++◌, true, false, length, length-append, Any, text_eq, eq_of_text_eq,
  text_eq_refl, text_lt, text_lt_trans, text_lt_irrefl, if◌then◌else◌, arith, Option-cases,
  Bool-cases,
}
use bg_pls.Base.Dict.{Dict, lookup, insert, lookup-insert}
use bg_pls.Entities.{Link}
use bg_pls.Topology.Graph.{Graph, PathMetric, PathConstraints, link_id}
use bg_pls.Topology.Graph.Search.{
  uint64_mod, QueueItem, item_less, pop_least, SearchState, prev_id, step_cost, improves, relax,
  relax_all, all_links, start_state,
}

pub length-pop_least :
    (best : QueueItem) (rest : List QueueItem) → length (pop_least best rest).1 ≡ length rest
unfolding pop_least
length-pop_least best [] = refl
length-pop_least best (i ∷ rest) =
    ap suc (length-pop_least (if item_less i best then i else best) rest)

-- Sums over a list.
abbrev sum : (Link → ℕ) → List Link → ℕ
sum f [] = 0
sum f (l ∷ ls) = f l + sum f ls

sum_le : (f h : Link → ℕ) (ls : List Link) → ((l : Link) → f l ≤ h l) → sum f ls ≤ sum h ls
sum_le f h [] le = omega arith
sum_le f h (l ∷ ls) le = omega (arith, le l, sum_le f h ls le)

sum_lt :
    (f h : Link → ℕ) (ls : List Link) (m : Link)
    → ((l : Link) → f l ≤ h l)
    → f m < h m
    → Any (λ l. l ≡ m) ls
    → sum f ls < sum h ls
sum_lt f h [] m le lt there = absurd there
sum_lt f h (l ∷ ls) m le lt (inl e) =
    let lt_here : f l < h l = subst (λ x. f x < h x) (sym e) lt in omega (arith, sum_le f h ls le)
sum_lt f h (l ∷ ls) m le lt (inr there) = omega (arith, le l, sum_lt f h ls m le lt there)

sum_bound :
    (f : Link → ℕ) (b : ℕ) (ls : List Link) → ((l : Link) → f l ≤ b) → sum f ls ≤ length ls * b
sum_bound f b [] le = omega arith
sum_bound f b (l ∷ ls) le = grind (arith, le l, sum_bound f b ls le)

-- How many links have a smaller id.
abbrev below : Text → Link → ℕ
below id l = if text_lt (link_id l) id then 1 else 0

below_le : (id : Text) (l : Link) → below id l ≤ 1
below_le id l = ground arith

below_mono : (a b : Text) → text_lt a b ≡ true → (l : Link) → below a l ≤ below b l
below_mono a b h l = ground (arith, text_lt_trans (link_id l) a b)

module _ (g : Graph) where
  abbrev pub links : List Link
  links = all_links g.adj

  abbrev smaller : Text → ℕ
  smaller id = sum (below id) links

  smaller_le : (id : Text) → smaller id ≤ length links
  smaller_le id = omega (arith, sum_bound (below id) 1 links (below_le id))

  smaller_lt :
      (l : Link) (id : Text)
      → Any (λ m. m ≡ l) links
      → text_lt (link_id l) id ≡ true
      → smaller (link_id l) < smaller id
  smaller_lt l id there h =
      sum_lt (below (link_id l)) (below id) links l (below_mono (link_id l) id h)
        (ground (arith, text_lt_irrefl (link_id l))) there

  -- The distance of a node first, then the rank of the link that it was reached by.
  abbrev rank : ℕ → ℕ → ℕ
  rank d id = d * suc (length links) + id

  rank_lt : (d e i j : ℕ) → d < e → i ≤ length links → rank d i < rank e j
  rank_lt d e i j h le = grind arith

  -- A node that is not reached yet ranks above every distance.
  abbrev dist_of : Dict ℕ → Text → ℕ
  dist_of dist k = elim (lookup k dist) [ none ↦ uint64_mod | some d ↦ d ]

  node_rank : SearchState → Text → ℕ
  node_rank s k = rank (dist_of s.dist k) (smaller (prev_id s.prev k))

  pub potential : SearchState → ℕ
  potential s = sum (λ l. node_rank s l.remote_node_id) links

  pub potential_queue :
      (s : SearchState) (rest : List QueueItem)
      → potential (record s { queue = rest }) ≡ potential s
  unfolding potential node_rank
  potential_queue s rest = refl

  dist_of_start : (source k : Text) → dist_of ((source, 0) ∷ []) k ≤ uint64_mod
  unfolding lookup
  dist_of_start source k = ground arith

  node_rank_start :
      (source k : Text)
      → node_rank (start_state source) k ≤ uint64_mod * suc (length links) + length links
  unfolding node_rank
  node_rank_start source k = grind (arith, dist_of_start source k, smaller_le (prev_id [] k))

  pub potential_start :
      (source : Text)
      → potential (start_state source)
        ≤ length links * (uint64_mod * suc (length links) + length links)
  unfolding potential
  potential_start source =
      sum_bound _ (uint64_mod * suc (length links) + length links) links
        (λ l. node_rank_start source l.remote_node_id)

  abbrev pushed : SearchState → Link → ℕ → SearchState
  pushed s l next = record {
    dist = insert l.remote_node_id next s.dist;
    prev = insert l.remote_node_id l s.prev;
    queue = s.queue ++ record { id = l.remote_node_id; cost = next } ∷ [];
  }

  dist_of-pushed :
      (s : SearchState) (l : Link) (next : ℕ) (k : Text)
      → dist_of (pushed s l next).dist k
        ≡ (if text_eq l.remote_node_id k then next else dist_of s.dist k)
  dist_of-pushed s l next k = ground (arith, lookup-insert l.remote_node_id k next s.dist)

  prev_id-pushed :
      (s : SearchState) (l : Link) (next : ℕ) (k : Text)
      → prev_id (pushed s l next).prev k
        ≡ (if text_eq l.remote_node_id k then link_id l else prev_id s.prev k)
  unfolding prev_id
  prev_id-pushed s l next k = ground (arith, lookup-insert l.remote_node_id k l s.prev)

  node_rank-pushed :
      (s : SearchState) (l : Link) (next : ℕ) (k : Text)
      → node_rank (pushed s l next) k
        ≡ (if text_eq l.remote_node_id k then rank next (smaller (link_id l)) else node_rank s k)
  unfolding node_rank
  node_rank-pushed s l next k =
      ap₂ (λ d id. rank d (smaller id)) (dist_of-pushed s l next k) (prev_id-pushed s l next k)
      ∙ (elim (Bool-cases (text_eq l.remote_node_id k)) [
        | inl same ↦ rw same refl
        | inr other ↦ rw other refl
      ])

  node_rank-here :
      (s : SearchState) (l : Link) (next : ℕ) (k : Text)
      → text_eq l.remote_node_id k ≡ true
      → node_rank (pushed s l next) k ≡ rank next (smaller (link_id l))
  node_rank-here s l next k same = node_rank-pushed s l next k ∙ rw same refl

  node_rank-there :
      (s : SearchState) (l : Link) (next : ℕ) (k : Text)
      → text_eq l.remote_node_id k ≡ false
      → node_rank (pushed s l next) k ≡ node_rank s k
  node_rank-there s l next k other = node_rank-pushed s l next k ∙ rw other refl

  module _ (t : PathMetric) (c : Option PathConstraints) where
    -- What an improvement is: a smaller distance, or the same by a link with a smaller id.
    improves_cases :
        (s : SearchState) (l : Link) (next : ℕ)
        → improves t c s l next ≡ true
        → next < uint64_mod
        → (next < dist_of s.dist l.remote_node_id)
          ⊎ ((next ≡ dist_of s.dist l.remote_node_id)
              × (text_lt (link_id l) (prev_id s.prev l.remote_node_id) ≡ true))
    unfolding improves
    improves_cases s l next h small = ground arith

    improved_lt :
        (s : SearchState) (l : Link) (next : ℕ)
        → Any (λ m. m ≡ l) links
        → improves t c s l next ≡ true
        → next < uint64_mod
        → rank next (smaller (link_id l)) < node_rank s l.remote_node_id
    unfolding node_rank
    improved_lt s l next there h small = elim (improves_cases s l next h small) [
      | inl lt ↦ rank_lt next _ (smaller (link_id l)) _ lt (smaller_le (link_id l))
      | inr (e, first) ↦
          let fewer = smaller_lt l (prev_id s.prev l.remote_node_id) there first in
          omega (arith, ap (λ (d : ℕ). d * suc (length links)) e)
    ]

    potential-pushed :
        (s : SearchState) (l : Link) (next : ℕ)
        → Any (λ m. m ≡ l) links
        → improves t c s l next ≡ true
        → next < uint64_mod
        → potential (pushed s l next) < potential s
    unfolding potential
    potential-pushed s l next there better small =
        let lower = improved_lt s l next there better small in
        sum_lt (λ m. node_rank (pushed s l next) m.remote_node_id)
          (λ m. node_rank s m.remote_node_id) links l
          (λ m. elim (Bool-cases (text_eq l.remote_node_id m.remote_node_id)) [
            | inl same ↦
                let e = eq_of_text_eq l.remote_node_id m.remote_node_id same in
                omega
                  (arith, node_rank-here s l next m.remote_node_id same, lower, ap (node_rank s) e)
            | inr other ↦ omega (arith, node_rank-there s l next m.remote_node_id other)
          ])
          (omega (
            arith,
            node_rank-here s l next l.remote_node_id (text_eq_refl l.remote_node_id),
            lower,
          ))
          there

    relax_cases :
        (cost : ℕ) (s : SearchState) (l : Link)
        → (relax t c cost s l ≡ s)
          ⊎ ((next : ℕ) × (step_cost t c cost l ≡ some next)
              × (improves t c s l next ≡ true)
              × (relax t c cost s l ≡ pushed s l next))
    unfolding relax
    relax_cases cost s l = elim (Option-cases (step_cost t c cost l)) [
      | inl refused ↦ inl (ground arith)
      | inr (next, e) ↦ elim (Bool-cases (improves t c s l next)) [
        | inl better ↦ inr (next, e, better, ground arith)
        | inr worse ↦ inl (ground arith)
      ]
    ]

    step_cost_bound :
        (cost : ℕ) (l : Link) {next : ℕ} → step_cost t c cost l ≡ some next → next < uint64_mod
    unfolding step_cost
    step_cost_bound cost l h = ground arith

    -- The queue's length and the potential together do not grow.
    abbrev pub weight : SearchState → ℕ
    weight s = length s.queue + potential s

    relax-weight :
        (cost : ℕ) (s : SearchState) (l : Link)
        → Any (λ m. m ≡ l) links
        → weight (relax t c cost s l) ≤ weight s
    relax-weight cost s l there = elim (relax_cases cost s l) [
      | inl same ↦ omega (arith, ap weight same)
      | inr (next, e, better, same) ↦
          let lower = potential-pushed s l next there better (step_cost_bound cost l e) in
          omega (
            arith,
            ap weight same,
            length-append s.queue (record { id = l.remote_node_id; cost = next } ∷ []),
          )
    ]

    pub relax_all-weight :
        (cost : ℕ) (s : SearchState) (ls : List Link)
        → ((l : Link) → Any (λ m. m ≡ l) ls → Any (λ m. m ≡ l) links)
        → weight (relax_all t c cost s ls) ≤ weight s
    unfolding relax_all
    relax_all-weight cost s [] within = omega arith
    relax_all-weight cost s (l ∷ ls) within = omega (
      arith,
      relax_all-weight cost (relax t c cost s l) ls (λ m h. within m (inr h)),
      relax-weight cost s l (within l (inl refl)),
    )
