-- ===== src/Topology/Graph/Impact/Survivors.antt =====
-- The graph in which `Analyze` searches joins the ends of every link that survives.
use bg_pls.Base.{
  ◌≡◌, refl, sym, ap, ◌∙◌, subst, inl, inr, ◌⊎◌, ◌↔◌, Text, Option, none, some, List, [], ◌∷◌, ◌++◌,
  false, ◌||◌, Any, Any-left, Any-right, Any-append, Any-map, eq_of_text_eq, text_eq, text_eq_refl,
  arith, Bool-cases, if◌then◌else◌,
}
use bg_pls.Base.Dict.{Dict, lookup, insert, lookup-insert}
use bg_pls.Entities.{Link}
use bg_pls.Topology.Graph.Impact.{is_in, neighbors, add_edge, undirected}

-- A link joins two nodes, in one direction or the other.
abbrev pub Joins : Link → Text → Text → Type 0
Joins l k j =
    ((l.local_node_id ≡ k) × (l.remote_node_id ≡ j))
    ⊎ ((l.remote_node_id ≡ k) × (l.local_node_id ≡ j))

-- A link that has not failed, of nodes that have not failed, joins two nodes.
abbrev pub Survives : List Text → List Text → Dict Link → Text → Text → Type 0
Survives failed_nodes failed_links links k j =
    Any
      (λ e.
        (is_in e.0 failed_links ≡ false)
        × (is_in e.1.local_node_id failed_nodes ≡ false)
        × (is_in e.1.remote_node_id failed_nodes ≡ false)
        × Joins e.1 k j)
      links

neighbors-insert :
    (adj : Dict (List Text)) (a k : Text) (ids : List Text)
    → neighbors (insert a ids adj) k ≡ (if text_eq a k then ids else neighbors adj k)
unfolding neighbors
neighbors-insert adj a k ids =
    let read : Option (List Text) → List Text = λ o. elim o [ none ↦ [] | some xs ↦ xs ] in
    ap read (lookup-insert a k ids adj)
    ∙ (elim (Bool-cases (text_eq a k)) [ inl same ↦ rw same refl | inr other ↦ rw other refl ])

neighbors-add_edge :
    (adj : Dict (List Text)) (a b k j : Text)
    → Any (λ y. y ≡ j) (neighbors (add_edge adj a b) k)
      ↔ (Any (λ y. y ≡ j) (neighbors adj k) ⊎ ((a ≡ k) × (b ≡ j)))
unfolding add_edge
neighbors-add_edge adj a b k j =
    let now = neighbors-insert adj a k (neighbors adj a ++ b ∷ []) in
    elim (Bool-cases (text_eq a k)) [
      | inl same ↦
          let here = eq_of_text_eq a k same in
          let listed = now ∙ rw same refl in
          (
            λ h.
                elim (Any-append _ (neighbors adj a) (b ∷ []) (subst (Any (λ y. y ≡ j)) listed h)) [
                  | inl before ↦ inl (subst (λ x. Any (λ y. y ≡ j) (neighbors adj x)) here before)
                  | inr (inl new) ↦ inr (here, new)
                  | inr (inr nothing) ↦ absurd nothing
                ],
            λ h. subst (Any (λ y. y ≡ j)) (sym listed) (elim h [
              | inl before ↦
                  Any-left _ (neighbors adj a) (b ∷ [])
                    (subst (λ x. Any (λ y. y ≡ j) (neighbors adj x)) (sym here) before)
              | inr (_, new) ↦ Any-right _ (neighbors adj a) (b ∷ []) (inl new)
            ]),
          )
      | inr other ↦
          let listed = now ∙ rw other refl in
          (
            λ h. inl (subst (Any (λ y. y ≡ j)) listed h),
            λ h. elim h [
              | inl before ↦ subst (Any (λ y. y ≡ j)) (sym listed) before
              | inr (at, _) ↦ let e = text_eq_refl a in absurd (cc (ap (text_eq a) at))
            ],
          )
    ]

neighbors-both :
    (adj : Dict (List Text)) (l : Link) (k j : Text)
    → Any
        (λ y. y ≡ j)
        (neighbors
          (add_edge
            (add_edge adj l.local_node_id l.remote_node_id)
            l.remote_node_id
            l.local_node_id)
          k)
      ↔ (Any (λ y. y ≡ j) (neighbors adj k) ⊎ Joins l k j)
neighbors-both adj l k j =
    let first = add_edge adj l.local_node_id l.remote_node_id in
    let there = neighbors-add_edge adj l.local_node_id l.remote_node_id k j in
    let back = neighbors-add_edge first l.remote_node_id l.local_node_id k j in
    (
      λ h. elim (back.0 h) [
        | inr joined ↦ inr (inr joined)
        | inl rest ↦ elim (there.0 rest) [ inl before ↦ inl before | inr joined ↦ inr (inl joined) ]
      ],
      λ h. elim h [
        | inl before ↦ back.1 (inl (there.1 (inl before)))
        | inr (inl joined) ↦ back.1 (inl (there.1 (inr joined)))
        | inr (inr joined) ↦ back.1 (inr joined)
      ],
    )

module _ (failed_nodes failed_links : List Text) where
  undirected-Survives :
      (links : Dict Link) (adj : Dict (List Text)) (k j : Text)
      → Any (λ y. y ≡ j) (neighbors (undirected failed_nodes failed_links links adj) k)
        ↔ (Any (λ y. y ≡ j) (neighbors adj k) ⊎ Survives failed_nodes failed_links links k j)
  unfolding undirected
  undirected-Survives [] adj k j =
      (λ h. inl h, λ h. elim h [ inl old ↦ old | inr nothing ↦ absurd nothing ])
  undirected-Survives ((id, l) ∷ links) adj k j =
      elim (Bool-cases (
        is_in id failed_links
        || is_in l.local_node_id failed_nodes
        || is_in l.remote_node_id failed_nodes)) [
          | inl out ↦
              let rest = undirected-Survives links adj k j in
              rw out (
                λ h. elim (rest.0 h) [ inl old ↦ inl old | inr later ↦ inr (inr later) ],
                λ h. elim h [
                  | inl old ↦ rest.1 (inl old)
                  | inr (inr later) ↦ rest.1 (inr later)
                  | inr (inl (a, b, c, _)) ↦ absurd (ground arith)
                ],
              )
          | inr whole ↦
              let next =
                add_edge (add_edge adj l.local_node_id l.remote_node_id) l.remote_node_id
                  l.local_node_id in
              let rest = undirected-Survives links next k j in
              let both = neighbors-both adj l k j in
              rw whole (
                λ h. elim (rest.0 h) [
                  | inr later ↦ inr (inr later)
                  | inl near ↦ elim (both.0 near) [
                    | inl old ↦ inl old
                    | inr joined ↦ inr (inl (ground arith, ground arith, ground arith, joined))
                  ]
                ],
                λ h. elim h [
                  | inl old ↦ rest.1 (inl (both.1 (inl old)))
                  | inr (inr later) ↦ rest.1 (inr later)
                  | inr (inl (a, b, c, joined)) ↦ rest.1 (inl (both.1 (inr joined)))
                ],
              )
        ]

  pub neighbors-Survives :
      (links : Dict Link) (k j : Text)
      → Any (λ y. y ≡ j) (neighbors (undirected failed_nodes failed_links links []) k)
        ↔ Survives failed_nodes failed_links links k j
  unfolding neighbors lookup
  neighbors-Survives links k j =
      let all = undirected-Survives links [] k j in
      (
        λ h. elim (all.0 h) [ inl nothing ↦ absurd nothing | inr joined ↦ joined ],
        λ h. all.1 (inr h),
      )

  pub Survives-sym :
      (links : Dict Link) (k j : Text)
      → Survives failed_nodes failed_links links k j
      → Survives failed_nodes failed_links links j k
  Survives-sym links k j h =
      Any-map _ _ links
        (λ e (a, b, c, joined).
          (a, b, c, elim joined [ inl (at, to) ↦ inr (to, at) | inr (at, to) ↦ inl (to, at) ]))
        h

  pub Survives-alive :
      (links : Dict Link) (k j : Text)
      → Survives failed_nodes failed_links links k j
      → is_in j failed_nodes ≡ false
  Survives-alive [] k j h = absurd h
  Survives-alive (e ∷ links) k j (inr later) = Survives-alive links k j later
  Survives-alive (e ∷ links) k j (inl (a, b, c, inl (at, to))) =
      subst (λ x. is_in x failed_nodes ≡ false) to c
  Survives-alive (e ∷ links) k j (inl (a, b, c, inr (at, to))) =
      subst (λ x. is_in x failed_nodes ≡ false) to b
