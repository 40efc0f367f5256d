-- ===== src/Topology/Graph/Impact/Marks.antt =====
-- The nodes that the search of a component marks and queues.
use bg_pls.Base.{
  ℕ, ◌+◌, ◌<◌, ◌≤◌, ◌≡◌, refl, sym, ◌∙◌, subst, inl, inr, ◌⊎◌, Text, List, [], ◌∷◌, ◌++◌, true,
  false, length, length-append, Any, Any-left, Any-right, Any-append, eq_of_text_eq, text_eq,
  text_eq_refl, arith, Bool-cases, if◌then◌else◌,
}
use bg_pls.Base.Dict.{Dict, lookup}
use bg_pls.Topology.Graph.Impact.{is_in, neighbors, mark, targets}

-- How many entries of a list have not been seen.
abbrev pub unseen : List Text → List Text → ℕ
unseen seen [] = 0
unseen seen (x ∷ xs) = (if is_in x seen then 0 else 1) + unseen seen xs

unseen-cons_le : (k : Text) (seen xs : List Text) → unseen (k ∷ seen) xs ≤ unseen seen xs
unseen-cons_le k seen [] = omega arith
unseen-cons_le k seen (x ∷ xs) = let ih = unseen-cons_le k seen xs in ground arith

unseen-cons_lt :
    (k : Text) (seen xs : List Text)
    → is_in k seen ≡ false
    → Any (λ x. x ≡ k) xs
    → unseen (k ∷ seen) xs < unseen seen xs
unseen-cons_lt k seen [] new h = absurd h
unseen-cons_lt k seen (x ∷ xs) new (inl same) =
    let le = unseen-cons_le k seen xs in
    let here : is_in x (k ∷ seen) ≡ true =
      subst (λ y. is_in y (k ∷ seen) ≡ true) (sym same) (let e = text_eq_refl k in ground arith) in
    let before : is_in x seen ≡ false = subst (λ y. is_in y seen ≡ false) (sym same) new in
    rw (here, before) (omega arith)
unseen-cons_lt k seen (x ∷ xs) new (inr later) =
    let ih = unseen-cons_lt k seen xs new later in
    elim (Bool-cases (is_in x seen)) [
      | inl old ↦
          let still : is_in x (k ∷ seen) ≡ true = ground arith in rw (still, old) (omega arith)
      | inr fresh ↦ ground arith
    ]

neighbors-cons :
    (j k : Text) (ids : List Text) (adj : Dict (List Text))
    → neighbors ((j, ids) ∷ adj) k ≡ (if text_eq j k then ids else neighbors adj k)
unfolding neighbors lookup
neighbors-cons j k ids adj = ground arith

pub neighbors-targets :
    (adj : Dict (List Text)) (n x : Text)
    → Any (λ y. y ≡ x) (neighbors adj n)
    → Any (λ y. y ≡ x) (targets adj)
unfolding neighbors lookup
neighbors-targets [] n x h = h
neighbors-targets ((j, ids) ∷ adj) n x h = elim (Bool-cases (text_eq j n)) [
  | inl same ↦
      let here = neighbors-cons j n ids adj ∙ rw same refl in
      Any-left _ ids (targets adj) (subst (Any (λ y. y ≡ x)) here h)
  | inr other ↦
      let later = neighbors-cons j n ids adj ∙ rw other refl in
      Any-right _ ids (targets adj) (neighbors-targets adj n x (subst (Any (λ y. y ≡ x)) later h))
]

mark_old :
    (next : Text) (rest seen queue : List Text)
    → is_in next seen ≡ true
    → mark rest (seen, queue) ≡ mark (next ∷ rest) (seen, queue)
unfolding mark
mark_old next rest seen queue h = rw h refl

mark_new :
    (next : Text) (rest seen queue : List Text)
    → is_in next seen ≡ false
    → mark rest (next ∷ seen, queue ++ next ∷ []) ≡ mark (next ∷ rest) (seen, queue)
unfolding mark
mark_new next rest seen queue h = rw h refl

pub mark-bound :
    (all xs seen queue : List Text)
    → ((x : Text) → Any (λ y. y ≡ x) xs → Any (λ y. y ≡ x) all)
    → length (mark xs (seen, queue)).1 + unseen (mark xs (seen, queue)).0 all
      ≤ length queue + unseen seen all
unfolding mark
mark-bound all [] seen queue within = omega arith
mark-bound all (next ∷ rest) seen queue within = elim (Bool-cases (is_in next seen)) [
  | inl old ↦
      let ih = mark-bound all rest seen queue (λ x h. within x (inr h)) in
      subst
        (λ (r : List Text × List Text).
          length r.1 + unseen r.0 all ≤ length queue + unseen seen all)
        (mark_old next rest seen queue old) ih
  | inr new ↦
      let fewer = unseen-cons_lt next seen all new (within next (inl refl)) in
      let ih = mark-bound all rest (next ∷ seen) (queue ++ next ∷ []) (λ x h. within x (inr h)) in
      subst
        (λ (r : List Text × List Text).
          length r.1 + unseen r.0 all ≤ length queue + unseen seen all)
        (mark_new next rest seen queue new)
        (omega (arith, ih, fewer, length-append queue (next ∷ [])))
]

abbrev Covered : (Text → Type 0) → List Text × List Text → Type 0
Covered P r = (k : Text) → is_in k r.0 ≡ true → P k ⊎ Any (λ y. y ≡ k) r.1

-- A node that has been marked was seen before or waits in the queue.
pub mark-Covered :
    (P : Text → Type 0) (xs seen queue : List Text)
    → Covered P (seen, queue)
    → Covered P (mark xs (seen, queue))
unfolding mark
mark-Covered P [] seen queue covered = covered
mark-Covered P (next ∷ rest) seen queue covered = elim (Bool-cases (is_in next seen)) [
  | inl old ↦
      subst (Covered P) (mark_old next rest seen queue old) (mark-Covered P rest seen queue covered)
  | inr new ↦ subst (Covered P) (mark_new next rest seen queue new) (
      mark-Covered P rest (next ∷ seen) (queue ++ next ∷ []) (λ k h.
        elim (Bool-cases (text_eq next k)) [
          | inl same ↦ inr (Any-right _ queue (next ∷ []) (inl (eq_of_text_eq next k same)))
          | inr other ↦ elim (covered k (ground arith)) [
            | inl before ↦ inl before
            | inr waits ↦ inr (Any-left _ queue (next ∷ []) waits)
          ]
        ]))
]

pub mark_keeps :
    (k : Text) (xs seen queue : List Text)
    → is_in k seen ≡ true
    → is_in k (mark xs (seen, queue)).0 ≡ true
unfolding mark
mark_keeps k [] seen queue h = h
mark_keeps k (next ∷ rest) seen queue h = elim (Bool-cases (is_in next seen)) [
  | inl old ↦
      subst (λ (r : List Text × List Text). is_in k r.0 ≡ true) (mark_old next rest seen queue old)
        (mark_keeps k rest seen queue h)
  | inr new ↦
      subst (λ (r : List Text × List Text). is_in k r.0 ≡ true) (mark_new next rest seen queue new)
        (mark_keeps k rest (next ∷ seen) (queue ++ next ∷ []) (ground arith))
]

pub unseen_le : (seen xs : List Text) → unseen seen xs ≤ length xs
unseen_le seen [] = omega arith
unseen_le seen (x ∷ xs) = let ih = unseen_le seen xs in ground arith

pub mark_marks :
    (k : Text) (xs seen queue : List Text)
    → Any (λ y. y ≡ k) xs
    → is_in k (mark xs (seen, queue)).0 ≡ true
unfolding mark
mark_marks k [] seen queue h = absurd h
mark_marks k (next ∷ rest) seen queue (inr later) = elim (Bool-cases (is_in next seen)) [
  | inl old ↦
      subst (λ (r : List Text × List Text). is_in k r.0 ≡ true) (mark_old next rest seen queue old)
        (mark_marks k rest seen queue later)
  | inr new ↦
      subst (λ (r : List Text × List Text). is_in k r.0 ≡ true) (mark_new next rest seen queue new)
        (mark_marks k rest (next ∷ seen) (queue ++ next ∷ []) later)
]
mark_marks k (next ∷ rest) seen queue (inl same) =
    subst (λ j. is_in j (mark (next ∷ rest) (seen, queue)).0 ≡ true) same
      (elim (Bool-cases (is_in next seen)) [
        | inl old ↦ mark_keeps next (next ∷ rest) seen queue old
        | inr new ↦
            subst (λ (r : List Text × List Text). is_in next r.0 ≡ true)
              (mark_new next rest seen queue new)
              (mark_keeps next rest (next ∷ seen) (queue ++ next ∷ [])
                (let e = text_eq_refl next in ground arith))
      ])

-- What the queue holds was there or has just been seen for the first time.
pub mark_all :
    (Q : Text → Type 0) (xs seen queue : List Text)
    → ((x : Text) → Any (λ y. y ≡ x) xs → is_in x seen ≡ false → Q x)
    → ((x : Text) → Any (λ y. y ≡ x) queue → Q x)
    → (x : Text) → Any (λ y. y ≡ x) (mark xs (seen, queue)).1
    → Q x
unfolding mark
mark_all Q [] seen queue new old x h = old x h
mark_all Q (next ∷ rest) seen queue new old x h = elim (Bool-cases (is_in next seen)) [
  | inl known ↦
      mark_all Q rest seen queue (λ y m. new y (inr m)) old x
        (subst (λ (r : List Text × List Text). Any (λ y. y ≡ x) r.1)
          (sym (mark_old next rest seen queue known)) h)
  | inr fresh ↦
      mark_all Q rest (next ∷ seen) (queue ++ next ∷ [])
        (λ y m unseen_y. new y (inr m) (ground arith))
        (λ y m. elim (Any-append _ queue (next ∷ []) m) [
          | inl before ↦ old y before
          | inr (inl same) ↦ subst Q same (new next (inl refl) fresh)
          | inr (inr nothing) ↦ absurd nothing
        ])
        x
        (subst (λ (r : List Text × List Text). Any (λ y. y ≡ x) r.1)
          (sym (mark_new next rest seen queue fresh)) h)
]
