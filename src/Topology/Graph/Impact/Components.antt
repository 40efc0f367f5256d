-- ===== src/Topology/Graph/Impact/Components.antt =====
-- The visit of a component ends, and finds what can be reached.
use bg_pls.Base.{
  ℕ, zero, suc, ◌+◌, ◌<◌, ◌≡◌, refl, sym, subst, inl, inr, ◌⊎◌, Text, some, List, [], ◌∷◌, ◌++◌,
  true, false, length, Any, Any-left, Any-right, Any-append, arith, Bool-cases,
}
use bg_pls.Base.Dict.{Dict}
use bg_pls.Topology.Graph.Impact.{is_in, neighbors, mark, visit, targets}
use bg_pls.Topology.Graph.Impact.Marks.{
  unseen, neighbors-targets, mark-bound, mark-Covered, mark_keeps, mark_marks, mark_all,
}

module _ (adj : Dict (List Text)) where
  pub visit_finishes :
      (fuel : ℕ) (seen queue nodes : List Text)
      → length queue + unseen seen (targets adj) < fuel
      → (found : List Text × List Text) × (visit adj fuel (seen, queue) nodes ≡ some found)
  unfolding visit
  visit_finishes zero seen queue nodes lt = absurd (omega arith)
  visit_finishes (suc fuel) seen [] nodes lt = ((seen, nodes), refl)
  visit_finishes (suc fuel) seen (n ∷ queue) nodes lt =
      let next = mark (neighbors adj n) (seen, queue) in
      let le = mark-bound (targets adj) (neighbors adj n) seen queue (neighbors-targets adj n) in
      visit_finishes fuel next.0 next.1 (nodes ++ n ∷ []) (omega (arith, le))

  -- A node that has been seen at the end was covered before, or is one of the component.
  pub visit_covers :
      (P : Text → Type 0) (fuel : ℕ) (seen queue nodes : List Text) (found : List Text × List Text)
      → ((k : Text) → is_in k seen ≡ true → (P k ⊎ Any (λ y. y ≡ k) nodes) ⊎ Any (λ y. y ≡ k) queue)
      → visit adj fuel (seen, queue) nodes ≡ some found
      → (k : Text) → is_in k found.0 ≡ true
      → P k ⊎ Any (λ y. y ≡ k) found.1
  unfolding visit
  visit_covers P zero seen queue nodes found covered h k there = absurd (cc)
  visit_covers P (suc fuel) seen [] nodes found covered h k there =
      let same : (seen, nodes) ≡ found = cc in
      elim (covered k (subst (λ f. is_in k f.0 ≡ true) (sym same) there)) [
        | inl (inl before) ↦ inl before
        | inl (inr inside) ↦ inr (subst (λ f. Any (λ y. y ≡ k) f.1) same inside)
        | inr waits ↦ absurd waits
      ]
  visit_covers P (suc fuel) seen (n ∷ queue) nodes found covered h k there =
      let next = mark (neighbors adj n) (seen, queue) in
      visit_covers P fuel next.0 next.1 (nodes ++ n ∷ []) found
        (mark-Covered (λ j. P j ⊎ Any (λ y. y ≡ j) (nodes ++ n ∷ [])) (neighbors adj n) seen queue
          (λ j seen_j. elim (covered j seen_j) [
            | inl (inl before) ↦ inl (inl before)
            | inl (inr inside) ↦ inl (inr (Any-left _ nodes (n ∷ []) inside))
            | inr (inl first) ↦ inl (inr (Any-right _ nodes (n ∷ []) (inl first)))
            | inr (inr waits) ↦ inr waits
          ]))
        h k there

  pub visit_keeps :
      (k : Text) (fuel : ℕ) (seen queue nodes : List Text) (found : List Text × List Text)
      → visit adj fuel (seen, queue) nodes ≡ some found
      → is_in k seen ≡ true
      → is_in k found.0 ≡ true
  unfolding visit
  visit_keeps k zero seen queue nodes found h there = absurd (cc)
  visit_keeps k (suc fuel) seen [] nodes found h there =
      let same : (seen, nodes) ≡ found = cc in subst (λ f. is_in k f.0 ≡ true) same there
  visit_keeps k (suc fuel) seen (n ∷ queue) nodes found h there =
      let next = mark (neighbors adj n) (seen, queue) in
      visit_keeps k fuel next.0 next.1 (nodes ++ n ∷ []) found h
        (mark_keeps k (neighbors adj n) seen queue there)

  -- A property of the first node that passes to each neighbor that has not been seen is one of all
  -- nodes that the visit finds.
  pub visit_all :
      (Q : Text → Type 0) (fuel : ℕ) (seen queue nodes : List Text) (found : List Text × List Text)
      → ((k j : Text) → Q k → Any (λ y. y ≡ j) (neighbors adj k) → is_in j seen ≡ false → Q j)
      → ((k : Text) → Any (λ y. y ≡ k) queue → Q k)
      → ((k : Text) → Any (λ y. y ≡ k) nodes → Q k)
      → visit adj fuel (seen, queue) nodes ≡ some found
      → (k : Text) → Any (λ y. y ≡ k) found.1
      → Q k
  unfolding visit
  visit_all Q zero seen queue nodes found next waiting done h k there = absurd (cc)
  visit_all Q (suc fuel) seen [] nodes found next waiting done h k there =
      let same : (seen, nodes) ≡ found = cc in
      done k (subst (λ f. Any (λ y. y ≡ k) f.1) (sym same) there)
  visit_all Q (suc fuel) seen (n ∷ queue) nodes found next waiting done h k there =
      let after = mark (neighbors adj n) (seen, queue) in
      visit_all Q fuel after.0 after.1 (nodes ++ n ∷ []) found
        (λ i j q m unseen_j. next i j q m (elim (Bool-cases (is_in j seen)) [
          | inr fresh ↦ fresh
          | inl known ↦ let still = mark_keeps j (neighbors adj n) seen queue known in absurd (cc)
        ]))
        (mark_all Q (neighbors adj n) seen queue
          (λ j m unseen_j. next n j (waiting n (inl refl)) m unseen_j) (λ j m. waiting j (inr m)))
        (λ j m. elim (Any-append _ nodes (n ∷ []) m) [
          | inl before ↦ done j before
          | inr (inl same) ↦ subst Q same (waiting n (inl refl))
          | inr (inr nothing) ↦ absurd nothing
        ])
        h k there

  -- The neighbors of all nodes that the visit finds have been seen at the end.
  pub visit_closes :
      (fuel : ℕ) (seen queue nodes : List Text) (found : List Text × List Text)
      → ((k j : Text)
          → Any (λ y. y ≡ k) nodes
          → Any (λ y. y ≡ j) (neighbors adj k)
          → is_in j seen ≡ true)
      → visit adj fuel (seen, queue) nodes ≡ some found
      → (k j : Text) → Any (λ y. y ≡ k) found.1
      → Any (λ y. y ≡ j) (neighbors adj k)
      → is_in j found.0 ≡ true
  unfolding visit
  visit_closes zero seen queue nodes found closed h k j there next = absurd (cc)
  visit_closes (suc fuel) seen [] nodes found closed h k j there next =
      let same : (seen, nodes) ≡ found = cc in
      subst (λ f. is_in j f.0 ≡ true) same
        (closed k j (subst (λ f. Any (λ y. y ≡ k) f.1) (sym same) there) next)
  visit_closes (suc fuel) seen (n ∷ queue) nodes found closed h k j there next =
      let after = mark (neighbors adj n) (seen, queue) in
      visit_closes fuel after.0 after.1 (nodes ++ n ∷ []) found
        (λ i x m near. elim (Any-append _ nodes (n ∷ []) m) [
          | inl before ↦ mark_keeps x (neighbors adj n) seen queue (closed i x before near)
          | inr (inl same) ↦
              mark_marks x (neighbors adj n) seen queue
                (subst (λ y. Any (λ z. z ≡ x) (neighbors adj y)) (sym same) near)
          | inr (inr nothing) ↦ absurd nothing
        ])
        h k j there next

  -- All nodes that the visit finds have been seen at the end.
  pub visit_sees :
      (fuel : ℕ) (seen queue nodes : List Text) (found : List Text × List Text)
      → ((k : Text) → Any (λ y. y ≡ k) queue → is_in k seen ≡ true)
      → ((k : Text) → Any (λ y. y ≡ k) nodes → is_in k seen ≡ true)
      → visit adj fuel (seen, queue) nodes ≡ some found
      → (k : Text) → Any (λ y. y ≡ k) found.1
      → is_in k found.0 ≡ true
  unfolding visit
  visit_sees zero seen queue nodes found waiting done h k there = absurd (cc)
  visit_sees (suc fuel) seen [] nodes found waiting done h k there =
      let same : (seen, nodes) ≡ found = cc in
      subst (λ f. is_in k f.0 ≡ true) same
        (done k (subst (λ f. Any (λ y. y ≡ k) f.1) (sym same) there))
  visit_sees (suc fuel) seen (n ∷ queue) nodes found waiting done h k there =
      let ns = neighbors adj n in
      let after = mark ns (seen, queue) in
      visit_sees fuel after.0 after.1 (nodes ++ n ∷ []) found
        (mark_all (λ x. is_in x after.0 ≡ true) ns seen queue
          (λ x m fresh. mark_marks x ns seen queue m)
          (λ x m. mark_keeps x ns seen queue (waiting x (inr m))))
        (λ x m. mark_keeps x ns seen queue (elim (Any-append _ nodes (n ∷ []) m) [
          | inl before ↦ done x before
          | inr (inl same) ↦ waiting x (inl same)
          | inr (inr nothing) ↦ absurd nothing
        ]))
        h k there
