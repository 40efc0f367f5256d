-- ===== src/Api/Topology/Found.antt =====
-- What GetNode and GetNeighbors find.
use bg_pls.Base.{
  ℕ, ◌≡◌, refl, sym, ap, ◌∙◌, inl, inr, ◌⊎◌, Text, Option, none, some, List, [], ◌∷◌, ◌++◌, Bool,
  true, ◌&&◌, ◌||◌, ◌==◌, filter, All, Any, text_eq, eq_of_text_eq, text_eq_iff, arith, Bool-cases,
  if◌then◌else◌, append-nil, append_assoc,
}
use bg_pls.Base.Dict.{Dict}
use bg_pls.Entities.{freshness_active, EntityMeta, get_meta, Node, Link}
use bg_pls.Store.Pebble.{Pebble}
use bg_pls.Store.Json.{Json}
use bg_pls.Store.State.{Store, ok}
use bg_pls.Store.Reads.{Snapshot, snapshot_at, index_by, node_key}
use bg_pls.Api.Filter.{TopologyFilter, link_match}
use bg_pls.Api.Peers.{reply, refuse, Code}
use bg_pls.Api.Topology.{
  pick, picked, Neighbors, other_end, add_neighbor, scan_link, scan_links, with_snapshot, get_node,
  get_neighbors,
}

module _ {A : Type 0} (meta : A → EntityMeta) (id : Text) (include_stale : Bool) where
  -- An entity answers a request: its id is the one asked for, and it is active or stale ones are
  -- wanted.
  abbrev pub Answers : A → Type 0
  Answers v =
      ((meta v).id ≡ id) × ((include_stale ≡ true) ⊎ ((meta v).freshness ≡ freshness_active))

  pick_cases :
      (vs : List A)
      → ((v : A) × (pick meta id include_stale vs ≡ some v) × Any (λ w. w ≡ v) vs × Answers v)
        ⊎ ((pick meta id include_stale vs ≡ none) × All (λ v. ¬ Answers v) vs)
  unfolding pick
  pick_cases [] = inr (refl, tt)
  pick_cases (x ∷ vs) =
      elim (Bool-cases
        (text_eq (meta x).id id && (include_stale || (meta x).freshness == freshness_active))) [
          | inl fits ↦ inl (x, rw fits refl, inl refl, ground (arith, eq_of_text_eq (meta x).id id))
          | inr other ↦ elim (pick_cases vs) [
            | inl (v, found, there, answers) ↦ inl (v, rw other found, inr there, answers)
            | inr (gone, none_fits) ↦
                inr
                  (rw other gone, ((λ a. ground (arith, a, text_eq_iff (meta x).id id)), none_fits))
          ]
        ]

-- A link that the filter admits and that has the node at one of its ends.
abbrev pub touches : Text → Option TopologyFilter → Link → Bool
touches id f l = link_match l f && (text_eq l.local_node_id id || text_eq l.remote_node_id id)

add_neighbor-links :
    (nodes : Dict Node) (l : Link) (other : Text) (out : Neighbors)
    → (add_neighbor nodes l other out).links ≡ out.links ++ l ∷ []
unfolding add_neighbor
add_neighbor-links nodes l other out = ground arith

scan_link-links :
    (nodes : Dict Node) (id : Text) (f : Option TopologyFilter) (out : Neighbors) (l : Link)
    → (scan_link nodes id f out l).links
      ≡ (if touches id f l then out.links ++ l ∷ [] else out.links)
unfolding scan_link other_end
scan_link-links nodes id f out l = ground (
  arith,
  add_neighbor-links nodes l l.remote_node_id out,
  add_neighbor-links nodes l l.local_node_id out,
)

scan_links-links :
    (nodes : Dict Node) (id : Text) (f : Option TopologyFilter) (ls : List Link) (out : Neighbors)
    → (scan_links nodes id f ls out).links ≡ out.links ++ filter (touches id f) ls
unfolding scan_links
scan_links-links nodes id f [] out = sym (append-nil out.links)
scan_links-links nodes id f (l ∷ ls) out =
    scan_links-links nodes id f ls (scan_link nodes id f out l)
    ∙ ap (λ xs. xs ++ filter (touches id f) ls) (scan_link-links nodes id f out l)
    ∙ (elim (Bool-cases (touches id f l)) [
      | inl yes_it ↦ rw yes_it (append_assoc out.links (l ∷ []) (filter (touches id f) ls))
      | inr not_it ↦ rw not_it refl
    ])

module _ (pebble : Pebble) (json : Json) where
  -- At a revision that can be read, GetNode answers a node of the snapshot with the id asked for,
  -- active unless stale nodes are wanted, together with the snapshot's revision; or NotFound, and
  -- then no node of the snapshot is such.
  pub get_node_lem :
      (revision : ℕ) (id : Text) (stale : Bool) (s : Store pebble json) (snap : Snapshot)
      → snapshot_at pebble json revision s ≡ ok snap
      → ((v : Node) × (get_node pebble json revision id stale s ≡ reply (v, snap.revision))
          × Any (λ w. w ≡ v) snap.nodes
          × Answers (λ n. get_meta n.meta) id stale v)
        ⊎ ((get_node pebble json revision id stale s ≡ refuse Code.not_found)
            × All (λ v. ¬ Answers (λ n. get_meta n.meta) id stale v) snap.nodes)
  unfolding get_node with_snapshot picked
  get_node_lem revision id stale s snap h =
      elim (pick_cases (λ n. get_meta n.meta) id stale snap.nodes) [
        | inl (v, found, there, answers) ↦ inl (v, ground arith, there, answers)
        | inr (gone, none_fits) ↦ inr (ground arith, none_fits)
      ]

  -- At a revision that can be read, GetNeighbors answers with exactly the links of the snapshot
  -- that the filter admits and that have the node at one end, in the snapshot's order.
  pub get_neighbors-links :
      (revision : ℕ) (id : Text) (f : Option TopologyFilter) (s : Store pebble json)
      (snap : Snapshot)
      → snapshot_at pebble json revision s ≡ ok snap
      → (out : Neighbors) × (get_neighbors pebble json revision id f s ≡ reply (out, snap.revision))
        × (out.links ≡ filter (touches id f) snap.links)
  unfolding get_neighbors with_snapshot
  get_neighbors-links revision id f s snap h =
      let nodes = index_by node_key snap.nodes [] in
      let start : Neighbors = record { links = []; nodes = []; seen = [] } in
      (
        scan_links nodes id f snap.links start,
        ground arith,
        scan_links-links nodes id f snap.links start,
      )
