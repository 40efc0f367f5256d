-- ===== src/Topology/Graph/Rooted.antt =====
-- The lists of links at the nodes of a graph.
use bg_pls.Base.{
  ℕ, ◌≡◌, refl, sym, ap, ◌∙◌, subst, inl, inr, ◌⊎◌, Text, List, [], ◌∷◌, ◌++◌, Bool, true, false,
  Any, text_eq, eq_of_text_eq, sort, insert_sorted, if◌then◌else◌, arith, Bool-cases,
}
use bg_pls.Base.Dict.{Dict, lookup, insert, lookup-insert}
use bg_pls.Entities.{Node, Link}
use bg_pls.Topology.Graph.{
  adjacent, add_nodes, add_links, is_usable, link_id, by_link_id, sort_adjacent, new_graph,
}

-- The links listed at a node start there.
abbrev pub IsRooted : Dict (List Link) → Type 0
IsRooted adj = (k : Text) (l : Link) → Any (λ m. m ≡ l) (adjacent adj k) → l.local_node_id ≡ k

Any-append {ℓ} :
    {A : Type ℓ} (P : A → Type 0) (xs ys : List A) → Any P (xs ++ ys) → Any P xs ⊎ Any P ys
Any-append P [] ys h = inr h
Any-append P (x ∷ xs) ys (inl h) = inl (inl h)
Any-append P (x ∷ xs) ys (inr h) = elim (Any-append P xs ys h) [
  | inl here ↦ inl (inr here)
  | inr there ↦ inr there
]

Any-insert_sorted {ℓ} :
    {A : Type ℓ} (P : A → Type 0) (less : A → A → Bool) (x : A) (ys : List A)
    → Any P (insert_sorted less x ys)
    → P x ⊎ Any P ys
Any-insert_sorted P less x [] h = h
Any-insert_sorted P less x (y ∷ ys) h = elim (Bool-cases (less y x)) [
  | inl before ↦
      let e : insert_sorted less x (y ∷ ys) ≡ y ∷ insert_sorted less x ys = rw before refl in
      elim (subst (Any P) e h) [
        | inl first ↦ inr (inl first)
        | inr later ↦ elim (Any-insert_sorted P less x ys later) [
          | inl new ↦ inl new
          | inr old ↦ inr (inr old)
        ]
      ]
  | inr after ↦
      let e : insert_sorted less x (y ∷ ys) ≡ x ∷ y ∷ ys = rw after refl in subst (Any P) e h
]

Any-sort {ℓ} :
    {A : Type ℓ} (P : A → Type 0) (less : A → A → Bool) (xs : List A)
    → Any P (sort less xs)
    → Any P xs
Any-sort P less [] h = h
Any-sort P less (x ∷ xs) h = elim (Any-insert_sorted P less x (sort less xs) h) [
  | inl new ↦ inl new
  | inr old ↦ inr (Any-sort P less xs old)
]

adjacent-insert :
    (j k : Text) (ls : List Link) (adj : Dict (List Link))
    → adjacent (insert j ls adj) k ≡ (if text_eq j k then ls else adjacent adj k)
unfolding adjacent
adjacent-insert j k ls adj = ground (arith, lookup-insert j k ls adj)

insert-IsRooted :
    (l : Link) (adj : Dict (List Link))
    → IsRooted adj
    → IsRooted (insert l.local_node_id (adjacent adj l.local_node_id ++ l ∷ []) adj)
insert-IsRooted l adj rooted k m h =
    let ls = adjacent adj l.local_node_id ++ l ∷ [] in
    elim (Bool-cases (text_eq l.local_node_id k)) [
      | inl same ↦
          let e = eq_of_text_eq l.local_node_id k same in
          let here = adjacent-insert l.local_node_id k ls adj ∙ rw same refl in
          elim (Any-append _ (adjacent adj l.local_node_id) (l ∷ [])
            (subst (Any (λ x. x ≡ m)) here h)) [
              | inl old ↦ rooted l.local_node_id m old ∙ e
              | inr (inl new) ↦ ap (λ x. x.local_node_id) (sym new) ∙ e
              | inr (inr nothing) ↦ absurd nothing
            ]
      | inr other ↦
          let there = adjacent-insert l.local_node_id k ls adj ∙ rw other refl in
          rooted k m (subst (Any (λ x. x ≡ m)) there h)
    ]

add_links-skip :
    (nodes : Dict Node) (l : Link) (ls : List Link) (links : Dict Link) (adj : Dict (List Link))
    → is_usable nodes l ≡ false
    → add_links nodes (l ∷ ls) (links, adj) ≡ add_links nodes ls (links, adj)
unfolding add_links
add_links-skip nodes l ls links adj h = rw h refl

add_links-take :
    (nodes : Dict Node) (l : Link) (ls : List Link) (links : Dict Link) (adj : Dict (List Link))
    → is_usable nodes l ≡ true
    → add_links nodes (l ∷ ls) (links, adj)
      ≡ add_links nodes ls (
        insert (link_id l) l links,
        insert l.local_node_id (adjacent adj l.local_node_id ++ l ∷ []) adj,
      )
unfolding add_links
add_links-take nodes l ls links adj h = rw h refl

add_links-IsRooted :
    (nodes : Dict Node) (ls : List Link) (links : Dict Link) (adj : Dict (List Link))
    → IsRooted adj
    → IsRooted (add_links nodes ls (links, adj)).1
unfolding add_links
add_links-IsRooted nodes [] links adj rooted = rooted
add_links-IsRooted nodes (l ∷ ls) links adj rooted = elim (Bool-cases (is_usable nodes l)) [
  | inl usable ↦
      subst (λ x. IsRooted x.1) (sym (add_links-take nodes l ls links adj usable))
        (add_links-IsRooted nodes ls (insert (link_id l) l links) _ (insert-IsRooted l adj rooted))
  | inr unusable ↦
      subst (λ x. IsRooted x.1) (sym (add_links-skip nodes l ls links adj unusable))
        (add_links-IsRooted nodes ls links adj rooted)
]

adjacent-cons :
    (j k : Text) (ls : List Link) (adj : Dict (List Link))
    → adjacent ((j, ls) ∷ adj) k ≡ (if text_eq j k then ls else adjacent adj k)
unfolding adjacent lookup
adjacent-cons j k ls adj = ground arith

pub adjacent_here :
    (j k : Text) (ls : List Link) (adj : Dict (List Link))
    → text_eq j k ≡ true
    → adjacent ((j, ls) ∷ adj) k ≡ ls
adjacent_here j k ls adj same = adjacent-cons j k ls adj ∙ rw same refl

pub adjacent_there :
    (j k : Text) (ls : List Link) (adj : Dict (List Link))
    → text_eq j k ≡ false
    → adjacent ((j, ls) ∷ adj) k ≡ adjacent adj k
adjacent_there j k ls adj other = adjacent-cons j k ls adj ∙ rw other refl

adjacent-sort_adjacent :
    (adj : Dict (List Link)) (k : Text)
    → adjacent (sort_adjacent adj) k ≡ sort by_link_id (adjacent adj k)
unfolding sort_adjacent adjacent lookup
adjacent-sort_adjacent [] k = refl
adjacent-sort_adjacent ((j, ls) ∷ adj) k = elim (Bool-cases (text_eq j k)) [
  | inl same ↦
      adjacent_here j k (sort by_link_id ls) (sort_adjacent adj) same
      ∙ ap (sort by_link_id) (sym (adjacent_here j k ls adj same))
  | inr other ↦
      adjacent_there j k (sort by_link_id ls) (sort_adjacent adj) other
      ∙ (adjacent-sort_adjacent adj k
          ∙ ap (sort by_link_id) (sym (adjacent_there j k ls adj other)))
]

no_links-IsRooted : IsRooted []
unfolding adjacent lookup
no_links-IsRooted k l h = absurd h

pub new_graph-IsRooted :
    (revision : ℕ) (nodes : List Node) (links : List Link)
    → IsRooted (new_graph revision nodes links).adj
unfolding new_graph
new_graph-IsRooted revision nodes links k l h =
    let adj = (add_links (add_nodes nodes []) links ([], [])).1 in
    add_links-IsRooted (add_nodes nodes []) links [] [] no_links-IsRooted k l (
      Any-sort _ by_link_id (adjacent adj k)
        (subst (Any (λ m. m ≡ l)) (adjacent-sort_adjacent adj k) h))
