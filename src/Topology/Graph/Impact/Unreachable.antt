-- ===== src/Topology/Graph/Impact/Unreachable.antt =====
-- What the answer of `Analyze` says of the nodes.
use bg_pls.Base.{
  ◌≡◌, ap, inl, inr, ◌⊎◌, Text, Option, none, some, List, [], ◌∷◌, true, false, ◌≤◌, length, ltb,
  insert_sorted, All-insert, arith, Bool-cases, if◌then◌else◌, sort, All, All-map, All-sort, Any,
  Any-left, Any-right, Any-append, Any-into_sort, text_lt,
}
use bg_pls.Entities.{Prefix}
use bg_pls.Base.Dict.{Dict}
use bg_pls.Topology.Graph.{Graph}
use bg_pls.Topology.Graph.Impact.{
  is_in, undirected, larger, all_ids, cut_off, impact_of, AnalyzeImpactResponse, analyze,
}
use bg_pls.Topology.Graph.Impact.Survivors.{
  Survives, neighbors-Survives, Survives-sym, Survives-alive,
}
use bg_pls.Topology.Graph.Impact.Connected.{
  In, InSome, Reaches, Separate, Separate-sort, from_sort, IsPart, components-Found,
}

all_ids-Any : (k : Text) (comps : List (List Text)) → In k (all_ids comps) → InSome comps k
all_ids-Any k [] h = h
all_ids-Any k (comp ∷ comps) h = elim (Any-append _ comp (all_ids comps) h) [
  | inl inside ↦ inl inside
  | inr later ↦ inr (all_ids-Any k comps later)
]

Any-all_ids : (k : Text) (comps : List (List Text)) → InSome comps k → In k (all_ids comps)
Any-all_ids k [] h = h
Any-all_ids k (comp ∷ comps) (inl inside) = Any-left _ comp (all_ids comps) inside
Any-all_ids k (comp ∷ comps) (inr later) =
    Any-right _ comp (all_ids comps) (Any-all_ids k comps later)

All-some :
    {P Q : List Text → Type 0} {R : Type 0} (comps : List (List Text))
    → All P comps
    → Any Q comps
    → ((comp : List Text) → P comp → Q comp → R)
    → R
All-some [] a h f = absurd h
All-some (comp ∷ comps) a (inl q) f = f comp a.0 q
All-some (comp ∷ comps) a (inr later) f = All-some comps a.1 later f

-- The first component has the most nodes.
abbrev IsLed : List (List Text) → Type 0
IsLed [] = Unit
IsLed (comp ∷ comps) = All (λ c. length c ≤ length comp) comps

insert-IsLed :
    (comp : List Text) (comps : List (List Text))
    → IsLed comps
    → IsLed (insert_sorted larger comp comps)
unfolding larger
insert-IsLed comp [] led = tt
insert-IsLed comp (c ∷ comps) led = elim (Bool-cases (larger c comp)) [
  | inl before ↦
      let le : length comp ≤ length c = ground arith in
      rw before (All-insert larger (λ d. length d ≤ length c) comp comps le led)
  | inr after ↦
      let le : length c ≤ length comp = ground arith in
      rw after (le, All-map _ _ comps (λ d h. omega (arith, le, h)) led)
]

sort-IsLed : (comps : List (List Text)) → IsLed (sort larger comps)
sort-IsLed [] = tt
sort-IsLed (comp ∷ comps) = insert-IsLed comp (sort larger comps) (sort-IsLed comps)

-- The components are shown if there is more than one.
shown-InSome :
    (main : List Text) (rest : List (List Text)) (k : Text)
    → InSome rest k
    → InSome (if ltb 1 (length (main ∷ rest)) then main ∷ rest else []) k
shown-InSome main [] k h = absurd h
shown-InSome main (comp ∷ rest) k h =
    let more : ltb 1 (length (main ∷ comp ∷ rest)) ≡ true = ground arith in rw more (inr h)

shown-All :
    (P : List Text → Type 0) (comps : List (List Text))
    → All P comps
    → All P (if ltb 1 (length comps) then comps else [])
shown-All P comps a = elim (Bool-cases (ltb 1 (length comps))) [
  | inl more ↦ rw more a
  | inr single ↦ rw single tt
]

module _ (g : Graph) (failed_nodes failed_links : List Text) where
  -- A link that has not failed joins two nodes that have not failed.
  abbrev pub Linked : Text → Text → Type 0
  Linked = Survives failed_nodes failed_links g.links

  -- The surviving nodes fall into the main component and those that it cannot reach.
  pub record CutOff (main : List Text) (r : AnalyzeImpactResponse) : Type 0 where
    pub root : Text
    pub inhabited : (k : Text) → In k r.unreachable_node_ids → In root main
    pub connected : (k : Text) → In k main → Reaches Linked root k
    pub closed : (k j : Text) → In k main → Linked k j → In j main
    pub apart : (k : Text) → In k main → ¬ In k r.unreachable_node_ids
    pub survives :
        (k : Text) → In k main ⊎ In k r.unreachable_node_ids → is_in k failed_nodes ≡ false
    pub placed :
        All
          (λ e. (is_in e.0 failed_nodes ≡ true) ⊎ (In e.0 main ⊎ In e.0 r.unreachable_node_ids))
          g.nodes
    pub listed : (k : Text) → In k r.unreachable_node_ids → InSome r.disconnected_components k
    pub largest : All (λ c. length c ≤ length main) r.disconnected_components

  abbrev adj : Dict (List Text)
  adj = undirected failed_nodes failed_links g.links []

  abbrev Component : List Text → Type 0
  Component =
      IsPart adj failed_nodes Linked (neighbors-Survives failed_nodes failed_links g.links)
        (Survives-sym failed_nodes failed_links g.links)
        (Survives-alive failed_nodes failed_links g.links)

  sorted-CutOff :
      (prefixes : List Prefix) (comps : List (List Text))
      → All Component comps
      → Separate comps
      → IsLed comps
      → All (λ e. (is_in e.0 failed_nodes ≡ true) ⊎ InSome comps e.0) g.nodes
      → (main : List Text) × CutOff main (impact_of g.revision failed_nodes prefixes comps)
  unfolding cut_off impact_of
  sorted-CutOff prefixes [] each separate led placed = (
    [],
    record {
      root = [];
      inhabited = λ k h. absurd h;
      connected = λ k h. absurd h;
      closed = λ k j h l. absurd h;
      apart = λ k h. absurd h;
      survives = λ k h. elim h [ inl nothing ↦ absurd nothing | inr nothing ↦ absurd nothing ];
      placed =
          All-map _ _ g.nodes
            (λ e h. elim h [ inl fails ↦ inl fails | inr nothing ↦ absurd nothing ]) placed;
      listed = λ k h. absurd h;
      largest = tt;
    },
  )
  sorted-CutOff prefixes (main ∷ rest) each separate led placed =
      let others = all_ids rest in
      (
        main,
        record {
          root = each.0.root;
          inhabited = λ k h. each.0.at_root;
          connected = each.0.reached;
          closed = each.0.closed;
          apart = λ k here there.
              All-some rest separate.0 (all_ids-Any k rest (from_sort k others there))
                (λ comp away inside. away k here inside);
          survives = λ k h. elim h [
            | inl here ↦ each.0.survives k here
            | inr there ↦
                All-some rest each.1 (all_ids-Any k rest (from_sort k others there))
                  (λ comp part inside. part.survives k inside)
          ];
          placed =
              All-map _ _ g.nodes
                (λ e h. elim h [
                  | inl fails ↦ inl fails
                  | inr (inl here) ↦ inr (inl here)
                  | inr (inr there) ↦
                      inr (inr (Any-into_sort text_lt _ others (Any-all_ids e.0 rest there)))
                ])
                placed;
          listed = λ k h. shown-InSome main rest k (all_ids-Any k rest (from_sort k others h));
          largest = shown-All (λ c. length c ≤ length main) (main ∷ rest) (omega arith, led);
        },
      )

  -- The analysis of failures answers, and there is a main component, connected by surviving links and
  -- joined by none to any other node, that has no fewer nodes than any component of the answer, so that every node of the graph has failed or is of the main
  -- component or among the nodes that the answer calls unreachable; those stand in the
  -- components of the answer, none of them is of the main component, and none of either has failed. Where
  -- a node is called unreachable, the main component is not empty.
  pub analyze-CutOff :
      (prefixes : List Prefix)
      → (main : List Text) × (r : AnalyzeImpactResponse) × (analyze g failed_nodes failed_links
            prefixes
          ≡ some r)
        × CutOff main r
  unfolding analyze impact_of
  analyze-CutOff prefixes =
      let (comps, ran, found) =
        components-Found adj failed_nodes Linked
          (neighbors-Survives failed_nodes failed_links g.links)
          (Survives-sym failed_nodes failed_links g.links)
          (Survives-alive failed_nodes failed_links g.links) g.nodes [] []
          (record {
            covered = λ k h. absurd (cc);
            marked = λ k h. absurd h;
            around = λ k j h r. absurd (cc);
            each = tt;
            separate = tt;
          }) in
      let answer : Option (List (List Text)) → Option AnalyzeImpactResponse = λ o. elim o [
        | none ↦ none
        | some cs ↦ some (impact_of g.revision failed_nodes prefixes (sort larger cs))
      ] in
      let (main, cut) =
        sorted-CutOff prefixes (sort larger comps) (All-sort larger Component comps found.each)
          (Separate-sort comps found.separate) (sort-IsLed comps)
          (All-map _ _ g.nodes
            (λ e h. elim h [
              | inl fails ↦ inl fails
              | inr inside ↦ inr (Any-into_sort larger _ comps inside)
            ])
            found.placed) in
      (main, impact_of g.revision failed_nodes prefixes (sort larger comps), ap answer ran, cut)
