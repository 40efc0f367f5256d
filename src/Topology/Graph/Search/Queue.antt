-- ===== src/Topology/Graph/Search/Queue.antt =====
-- The queue: the popped item is the least, and the others stay.
use bg_pls.Base.{
  ◌≤◌, ◌≡◌, refl, sym, subst, inl, inr, ◌⊎◌, List, [], ◌∷◌, true, false, Any, All, arith,
  Bool-cases,
}
use bg_pls.Topology.Graph.Search.{QueueItem, item_less, pop_least}

item_less_le : (a b : QueueItem) → item_less a b ≡ true → a.cost ≤ b.cost
unfolding item_less
item_less_le a b h = ground arith

item_not_less_le : (a b : QueueItem) → item_less a b ≡ false → b.cost ≤ a.cost
unfolding item_less
item_not_less_le a b h = ground arith

pop_less :
    (b i : QueueItem) (rest : List QueueItem)
    → item_less i b ≡ true
    → pop_least b (i ∷ rest) ≡ ((pop_least i rest).0, b ∷ (pop_least i rest).1)
unfolding pop_least
pop_less b i rest h = rw h refl

pop_more :
    (b i : QueueItem) (rest : List QueueItem)
    → item_less i b ≡ false
    → pop_least b (i ∷ rest) ≡ ((pop_least b rest).0, i ∷ (pop_least b rest).1)
unfolding pop_least
pop_more b i rest h = rw h refl

abbrev Popped : Type 0
Popped = QueueItem × List QueueItem

-- The popped item is one of the queue, and the others stay.
pub All-pop_least :
    (P : QueueItem → Type 0) (b : QueueItem) (rest : List QueueItem)
    → P b
    → All P rest
    → P (pop_least b rest).0 × All P (pop_least b rest).1
unfolding pop_least
All-pop_least P b [] pb h = (pb, tt)
All-pop_least P b (i ∷ rest) pb h = elim (Bool-cases (item_less i b)) [
  | inl less ↦
      let ih = All-pop_least P i rest h.0 h.1 in
      subst (λ (r : Popped). P r.0 × All P r.1) (sym (pop_less b i rest less)) (ih.0, (pb, ih.1))
  | inr more ↦
      let ih = All-pop_least P b rest pb h.1 in
      subst (λ (r : Popped). P r.0 × All P r.1) (sym (pop_more b i rest more)) (ih.0, (h.0, ih.1))
]

pub Any-pop_least :
    (P : QueueItem → Type 0) (b : QueueItem) (rest : List QueueItem)
    → Any P (b ∷ rest)
    → P (pop_least b rest).0 ⊎ Any P (pop_least b rest).1
unfolding pop_least
Any-pop_least P b [] (inl h) = inl h
Any-pop_least P b [] (inr h) = absurd h
Any-pop_least P b (i ∷ rest) h = elim (Bool-cases (item_less i b)) [
  | inl less ↦
      subst (λ (r : Popped). P r.0 ⊎ Any P r.1) (sym (pop_less b i rest less))
        (elim h [
          | inl here ↦ inr (inl here)
          | inr later ↦ elim (Any-pop_least P i rest later) [
            | inl first ↦ inl first
            | inr other ↦ inr (inr other)
          ]
        ])
  | inr more ↦
      subst (λ (r : Popped). P r.0 ⊎ Any P r.1) (sym (pop_more b i rest more))
        (elim h [
          | inl here ↦ keep (Any-pop_least P b rest (inl here))
          | inr (inl here) ↦ inr (inl here)
          | inr (inr later) ↦ keep (Any-pop_least P b rest (inr later))
        ])
]
  where
    keep :
        P (pop_least b rest).0 ⊎ Any P (pop_least b rest).1
        → P (pop_least b rest).0 ⊎ (P i ⊎ Any P (pop_least b rest).1)
    keep (inl first) = inl first
    keep (inr other) = inr (inr other)

-- Nothing that stays in the queue costs less.
pub pop_least_min :
    (b : QueueItem) (rest : List QueueItem)
    → ((pop_least b rest).0.cost ≤ b.cost)
      × All (λ j. (pop_least b rest).0.cost ≤ j.cost) (pop_least b rest).1
unfolding pop_least
pop_least_min b [] = (omega arith, tt)
pop_least_min b (i ∷ rest) = elim (Bool-cases (item_less i b)) [
  | inl less ↦
      let ih = pop_least_min i rest in
      let le = item_less_le i b less in
      subst (λ (r : Popped). (r.0.cost ≤ b.cost) × All (λ j. r.0.cost ≤ j.cost) r.1)
        (sym (pop_less b i rest less)) (omega arith, (omega arith, ih.1))
  | inr more ↦
      let ih = pop_least_min b rest in
      let le = item_not_less_le i b more in
      subst (λ (r : Popped). (r.0.cost ≤ b.cost) × All (λ j. r.0.cost ≤ j.cost) r.1)
        (sym (pop_more b i rest more)) (ih.0, (omega arith, ih.1))
]
