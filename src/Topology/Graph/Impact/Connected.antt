-- ===== src/Topology/Graph/Impact/Connected.antt =====
-- The components that `Analyze` finds: each is what can be reached from one of its nodes, no two share
-- a node, and together they have every node that has not failed.
use bg_pls.Base.{
  ℕ, suc, ◌≡◌, refl, sym, subst, inl, inr, ◌⊎◌, ◌↔◌, Text, some, List, [], ◌∷◌, ◌++◌, true, false,
  ◌||◌, length, sort, insert_sorted, All, All-In, All-end, All-of-Any, All-insert, All-sort, Any,
  Any-left, Any-right, Any-append, Any-map, Any-into_sort, eq_of_text_eq, text_eq, text_eq_refl,
  text_lt, ||-eq-true, arith, Bool-cases,
}
use bg_pls.Base.Dict.{Dict}
use bg_pls.Entities.{Node}
use bg_pls.Topology.Graph.Impact.{is_in, neighbors, visit, targets, components, larger}
use bg_pls.Topology.Graph.Impact.Marks.{unseen_le}
use bg_pls.Topology.Graph.Impact.Components.{
  visit_finishes, visit_covers, visit_keeps, visit_all, visit_closes, visit_sees,
}

abbrev pub In : Text → List Text → Type 0
In k ks = Any (λ y. y ≡ k) ks

-- A node of one of the components.
abbrev pub InSome : List (List Text) → Text → Type 0
InSome comps k = Any (λ comp. In k comp) comps

-- A node to which steps lead from a root.
pub data Reaches (R : Text → Text → Type 0) (root : Text) : Text → Type 0 where
  here : Reaches R root root
  step : {j k : Text} → Reaches R root j → R j k → Reaches R root k

abbrev pub Apart : List Text → List Text → Type 0
Apart a b = (k : Text) → In k a → ¬ In k b

abbrev pub Separate : List (List Text) → Type 0
Separate [] = Unit
Separate (comp ∷ comps) = All (Apart comp) comps × Separate comps

Separate-end :
    (comps : List (List Text)) (comp : List Text)
    → Separate comps
    → All (λ c. Apart c comp) comps
    → Separate (comps ++ comp ∷ [])
Separate-end [] comp s a = (tt, tt)
Separate-end (c ∷ comps) comp s a =
    (All-end (Apart c) comps comp s.0 a.0, Separate-end comps comp s.1 a.1)

Separate-insert :
    (comp : List Text) (comps : List (List Text))
    → All (Apart comp) comps
    → Separate comps
    → Separate (insert_sorted larger comp comps)
Separate-insert comp [] a s = (tt, tt)
Separate-insert comp (c ∷ comps) a s = elim (Bool-cases (larger c comp)) [
  | inl before ↦ rw before (
    All-insert larger (Apart c) comp comps (λ k m n. a.0 k n m) s.0,
    Separate-insert comp comps a.1 s.1,
  )
  | inr after ↦ rw after (a, s)
]

pub Separate-sort : (comps : List (List Text)) → Separate comps → Separate (sort larger comps)
Separate-sort [] s = tt
Separate-sort (comp ∷ comps) s =
    Separate-insert comp (sort larger comps) (All-sort larger (Apart comp) comps s.0)
      (Separate-sort comps s.1)

pub from_sort : (k : Text) (ks : List Text) → In k (sort text_lt ks) → In k ks
from_sort k ks h =
    All-In (λ y. In y ks) (sort text_lt ks)
      (All-sort text_lt (λ y. In y ks) ks (All-of-Any (λ y. In y ks) ks (λ y m. m))) k h

module _ (adj : Dict (List Text)) (failed : List Text) (R : Text → Text → Type 0)
    (near : (k j : Text) → In j (neighbors adj k) ↔ R k j) (R-sym : (k j : Text) → R k j → R j k)
    (alive : (k j : Text) → R k j → is_in j failed ≡ false) where
  -- A component: what can be reached from one node that has not failed.
  pub record IsPart (comp : List Text) : Type 0 where
    pub root : Text
    pub at_root : In root comp
    pub reached : (k : Text) → In k comp → Reaches R root k
    pub closed : (k j : Text) → In k comp → R k j → In j comp
    pub survives : (k : Text) → In k comp → is_in k failed ≡ false

  -- The components that have been found.
  pub record Parts (seen : List Text) (comps : List (List Text)) : Type 0 where
    pub covered : (k : Text) → is_in k seen ≡ true → InSome comps k
    pub marked : (k : Text) → InSome comps k → is_in k seen ≡ true
    pub around : (k j : Text) → is_in k seen ≡ true → R k j → is_in j seen ≡ true
    pub each : All IsPart comps
    pub separate : Separate comps

  -- What a node of a new component satisfies.
  abbrev Fresh : List Text → Text → Text → Type 0
  Fresh seen id k = Reaches R id k × (is_in k seen ≡ false) × (is_in k failed ≡ false)

  module _ (id : Text) (seen : List Text) (fuel : ℕ) (found : List Text × List Text)
      (fresh : is_in id seen ≡ false) (works : is_in id failed ≡ false)
      (visited : visit adj fuel (id ∷ seen, id ∷ []) [] ≡ some found) where
    found-Fresh : (k : Text) → In k found.1 → Fresh seen id k
    found-Fresh =
        visit_all adj (Fresh seen id) fuel (id ∷ seen) (id ∷ []) [] found
          (λ k j q m new. let r = (near k j).0 m in (Reaches.step q.0 r, ground arith, alive k j r))
          (λ k m. elim m [
            | inl same ↦ subst (Fresh seen id) same (Reaches.here, fresh, works)
            | inr nothing ↦ absurd nothing
          ])
          (λ k m. absurd m) visited

    first_seen : is_in id (id ∷ seen) ≡ true
    first_seen = let e = text_eq_refl id in ground arith

    found_seen : (k : Text) → In k found.1 → is_in k found.0 ≡ true
    found_seen =
        visit_sees adj fuel (id ∷ seen) (id ∷ []) [] found
          (λ k m. elim m [
            | inl same ↦ subst (λ x. is_in x (id ∷ seen) ≡ true) same first_seen
            | inr nothing ↦ absurd nothing
          ])
          (λ k m. absurd m) visited

    kept : (k : Text) → is_in k seen ≡ true → is_in k found.0 ≡ true
    kept k h = visit_keeps adj k fuel (id ∷ seen) (id ∷ []) [] found visited (ground arith)

    split_seen : (k : Text) → is_in k found.0 ≡ true → (is_in k seen ≡ true) ⊎ In k found.1
    split_seen k h =
        visit_covers adj (λ j. is_in j seen ≡ true) fuel (id ∷ seen) (id ∷ []) [] found
          (λ j seen_j. elim (Bool-cases (text_eq id j)) [
            | inl same ↦ inr (inl (eq_of_text_eq id j same))
            | inr other ↦ inl (inl (ground arith))
          ])
          visited k h

    next_seen : (k j : Text) → In k found.1 → R k j → is_in j found.0 ≡ true
    next_seen k j m r =
        visit_closes adj fuel (id ∷ seen) (id ∷ []) [] found (λ i x n. absurd n) visited k j m
          ((near k j).1 r)

    module _ (comps : List (List Text)) (parts : Parts seen comps) where
      found_closed : (k j : Text) → In k found.1 → R k j → In j found.1
      found_closed k j m r = elim (split_seen j (next_seen k j m r)) [
        | inr inside ↦ inside
        | inl before ↦
            let wrong = parts.around j k before (R-sym k j r) in
            let (_, new, _) = found-Fresh k m in absurd (cc)
      ]

      first_found : In id found.1
      first_found =
          let there = visit_keeps adj id fuel (id ∷ seen) (id ∷ []) [] found visited first_seen in
          elim (split_seen id there) [ inr inside ↦ inside | inl before ↦ absurd (cc) ]

      found-IsPart : IsPart (sort text_lt found.1)
      found-IsPart = record {
        root = id;
        at_root = Any-into_sort text_lt _ found.1 first_found;
        reached = λ k m. (found-Fresh k (from_sort k found.1 m)).0;
        closed =
            λ k j m r. Any-into_sort text_lt _ found.1 (found_closed k j (from_sort k found.1 m) r);
        survives = λ k m. (found-Fresh k (from_sort k found.1 m)).2;
      }

      found-Apart : All (λ c. Apart c (sort text_lt found.1)) comps
      found-Apart = All-of-Any _ comps (λ c listed k m n.
          let old =
            parts.marked k (Any-map _ _ comps (λ d same. subst (In k) (sym same) m) listed) in
          let (_, new, _) = found-Fresh k (from_sort k found.1 n) in absurd (cc))

      next-Parts : Parts found.0 (comps ++ sort text_lt found.1 ∷ [])
      next-Parts =
          let comp = sort text_lt found.1 in
          record {
            covered = λ k h. elim (split_seen k h) [
              | inl before ↦ Any-left _ comps (comp ∷ []) (parts.covered k before)
              | inr inside ↦
                  Any-right _ comps (comp ∷ []) (inl (Any-into_sort text_lt _ found.1 inside))
            ];
            marked = λ k h. elim (Any-append _ comps (comp ∷ []) h) [
              | inl before ↦ kept k (parts.marked k before)
              | inr (inl inside) ↦ found_seen k (from_sort k found.1 inside)
              | inr (inr nothing) ↦ absurd nothing
            ];
            around = λ k j h r. elim (split_seen k h) [
              | inl before ↦ kept j (parts.around k j before r)
              | inr inside ↦ next_seen k j inside r
            ];
            each = All-end IsPart comps comp parts.each found-IsPart;
            separate = Separate-end comps comp parts.separate found-Apart;
          }

  pub record Found (nodes : Dict Node) (comps out : List (List Text)) : Type 0 where
    pub kept_all : (k : Text) → InSome comps k → InSome out k
    pub placed : All (λ e. (is_in e.0 failed ≡ true) ⊎ InSome out e.0) nodes
    pub each : All IsPart out
    pub separate : Separate out

  pub components-Found :
      (nodes : Dict Node) (seen : List Text) (comps : List (List Text))
      → Parts seen comps
      → (out : List (List Text)) × (components adj failed nodes seen comps ≡ some out)
        × Found nodes comps out
  unfolding components
  components-Found [] seen comps parts = (
    comps,
    refl,
    record { kept_all = λ k h. h; placed = tt; each = parts.each; separate = parts.separate },
  )
  components-Found ((id, n) ∷ nodes) seen comps parts =
      elim (Bool-cases (is_in id failed || is_in id seen)) [
        | inl passed_over ↦
            let (out, ran, rest) = components-Found nodes seen comps parts in
            (
              out,
              rw passed_over ran,
              record {
                kept_all = rest.kept_all;
                placed = (
                  elim (||-eq-true (is_in id failed) (is_in id seen) passed_over) [
                    | inl fails ↦ inl fails
                    | inr old ↦ inr (rest.kept_all id (parts.covered id old))
                  ],
                  rest.placed,
                );
                each = rest.each;
                separate = rest.separate;
              },
            )
        | inr fresh ↦
            let t = targets adj in
            let fuel = suc (suc (length t)) in
            let (found, visited) =
              visit_finishes adj fuel (id ∷ seen) (id ∷ []) []
                (omega (arith, unseen_le (id ∷ seen) t)) in
            let new : is_in id seen ≡ false = ground arith in
            let works : is_in id failed ≡ false = ground arith in
            let next = next-Parts id seen fuel found new works visited comps parts in
            let comp = sort text_lt found.1 in
            let (out, ran, rest) = components-Found nodes found.0 (comps ++ comp ∷ []) next in
            let in_comp = next.covered id (
              visit_keeps adj id fuel (id ∷ seen) (id ∷ []) [] found visited
                (first_seen id seen fuel found new works visited)) in
            (
              out,
              rw (fresh, visited) ran,
              record {
                kept_all = λ k h. rest.kept_all k (Any-left _ comps (comp ∷ []) h);
                placed = (inr (rest.kept_all id in_comp), rest.placed);
                each = rest.each;
                separate = rest.separate;
              },
            )
      ]
