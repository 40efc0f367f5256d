-- ===== src/Api/Topology.antt =====
-- internal/api/topology.go: the reads of the topology service over a snapshot of the store, and
-- ListPeers of collector.go. A request's fields are arguments; a failure of the store is answered
-- with its code.
pub mod Found
use bg_pls.Base.{
  ℕ, Text, Option, none, some, List, [], ◌∷◌, ◌++◌, Bool, true, false, not, ◌&&◌, ◌||◌, ◌==◌, ltb,
  map, any, filter, find?, text_eq, is_empty, if◌then◌else◌,
}
use bg_pls.Base.Ascii.{to_lower, contains}
use bg_pls.Base.Dict.{Dict, lookup}
use bg_pls.Entities.{
  Freshness, freshness_active, EntityMeta, get_meta, Node, Link, Prefix, Peer, Domain,
}
use bg_pls.Store.Pebble.{Pebble}
use bg_pls.Store.Json.{Json}
use bg_pls.Store.State.{Store, Result, ok, err}
use bg_pls.Store.Reads.{
  Snapshot, node_key, link_key, prefix_key, peer_key, domain_key, index_by, snapshot, snapshot_at,
}
use bg_pls.Api.Filter.{TopologyFilter, node_match, link_match, prefix_match}
use bg_pls.Api.Page.{Page, list_page}
use bg_pls.Api.Peers.{Reply, reply, refuse, Code, api_error, redact_peer}

-- `PageResult` and the entities of the page.
pub record Listing (A : Type 0) : Type 0 where
  pub entities : List A
  pub next_page_token : Text
  pub revision : ℕ
  pub observed_at : Option ℕ

unfoldable pub listing : {A : Type 0} → Snapshot → List A × Text → Listing A
listing snap page = record {
  entities = page.0;
  next_page_token = page.1;
  revision = snap.revision;
  observed_at = snap.observed;
}

abbrev pub no_domain : Text → Text → Bool
no_domain wanted domain_id = is_empty wanted || text_eq domain_id wanted

-- The first entity with an id that is active, or any with that id if stale ones are wanted.
unfoldable pub pick : {A : Type 0} → (A → EntityMeta) → Text → Bool → List A → Option A
pick meta id include_stale =
    find? (λ v. text_eq (meta v).id id && (include_stale || (meta v).freshness == freshness_active))

-- The answer of Get: the entity with the snapshot's revision, or NotFound.
unfoldable pub picked : {A : Type 0} → ℕ → Option A → Reply (A × ℕ)
picked revision none = refuse Code.not_found
picked revision (some v) = reply (v, revision)

-- What `GetNeighbors` collects.
pub record Neighbors : Type 0 where
  pub links : List Link
  pub nodes : List Node
  pub seen : List Text

-- The other end of a link of a node.
unfoldable pub other_end : Text → Link → Option Text
other_end id l =
    if text_eq l.local_node_id id
    then some l.remote_node_id
    else if text_eq l.remote_node_id id
    then some l.local_node_id
    else none

unfoldable pub add_neighbor : Dict Node → Link → Text → Neighbors → Neighbors
add_neighbor nodes l other out =
    let links = out.links ++ l ∷ [] in
    elim (lookup other nodes) [
      | none ↦ record out { links = links }
      | some n ↦
          if any (λ k. text_eq k other) out.seen
          then record out { links = links }
          else record { links = links; nodes = out.nodes ++ n ∷ []; seen = other ∷ out.seen }
    ]

-- The body of the loop over the links.
unfoldable pub scan_link : Dict Node → Text → Option TopologyFilter → Neighbors → Link → Neighbors
unfolding other_end add_neighbor
scan_link nodes id f out l =
    let next : Neighbors = elim (other_end id l) [
      | none ↦ out
      | some other ↦ add_neighbor nodes l other out
    ] in
    if not (link_match l f) then out else next

unfoldable pub scan_links :
    Dict Node → Text → Option TopologyFilter → List Link → Neighbors → Neighbors
unfolding scan_link
scan_links nodes id f [] out = out
scan_links nodes id f (l ∷ ls) out = scan_links nodes id f ls (scan_link nodes id f out l)

unfoldable pub filter_domain_nodes : List Node → Text → List Node
filter_domain_nodes vs domain = filter (λ v. text_eq (get_meta v.meta).domain_id domain) vs

unfoldable pub filter_domain_links : List Link → Text → List Link
filter_domain_links vs domain = filter (λ v. text_eq (get_meta v.meta).domain_id domain) vs

unfoldable pub filter_domain_prefixes : List Prefix → Text → List Prefix
filter_domain_prefixes vs domain = filter (λ v. text_eq (get_meta v.meta).domain_id domain) vs

module _ (pebble : Pebble) (json : Json) where
  unfoldable pub with_snapshot :
      {A : Type 0} → ℕ → Store pebble json → (Snapshot → Reply A) → Reply A
  unfolding api_error
  with_snapshot revision s use_it = elim (snapshot_at pebble json revision s) [
    | err e ↦ refuse (api_error e)
    | ok snap ↦ use_it snap
  ]

  unfoldable pub list_domains : Option Page → Store pebble json → Listing Domain
  unfolding listing
  list_domains page s =
      let snap = snapshot pebble json s in
      listing snap (list_page domain_key (λ v. true) page snap.domains)

  unfoldable pub list_nodes :
      ℕ → Option Page → Option TopologyFilter → Store pebble json → Reply (Listing Node)
  unfolding with_snapshot listing
  list_nodes revision page f s =
      with_snapshot revision s
        (λ snap. reply (listing snap (list_page node_key (λ v. node_match v f) page snap.nodes)))

  unfoldable pub list_links :
      ℕ → Option Page → Option TopologyFilter → Store pebble json → Reply (Listing Link)
  unfolding with_snapshot listing
  list_links revision page f s =
      with_snapshot revision s
        (λ snap. reply (listing snap (list_page link_key (λ v. link_match v f) page snap.links)))

  unfoldable pub list_prefixes :
      ℕ → Option Page → Option TopologyFilter → Store pebble json → Reply (Listing Prefix)
  unfolding with_snapshot listing
  list_prefixes revision page f s = with_snapshot revision s (λ snap.
      reply (listing snap (list_page prefix_key (λ v. prefix_match v f) page snap.prefixes)))

  -- The secrets of the peers are removed; an id is not changed by that.
  unfoldable pub list_peers : Text → Option Page → Store pebble json → Listing Peer
  unfolding listing redact_peer
  list_peers domain page s =
      let snap = snapshot pebble json s in
      let (peers, token) = list_page peer_key (λ v. no_domain domain v.domain_id) page snap.peers in
      listing snap (map redact_peer peers, token)

  unfoldable pub get_node : ℕ → Text → Bool → Store pebble json → Reply (Node × ℕ)
  unfolding with_snapshot pick picked
  get_node revision id include_stale s =
      with_snapshot revision s
        (λ snap. picked snap.revision (pick (λ v. get_meta v.meta) id include_stale snap.nodes))

  unfoldable pub get_link : ℕ → Text → Bool → Store pebble json → Reply (Link × ℕ)
  unfolding with_snapshot pick picked
  get_link revision id include_stale s =
      with_snapshot revision s
        (λ snap. picked snap.revision (pick (λ v. get_meta v.meta) id include_stale snap.links))

  unfoldable pub get_prefix : ℕ → Text → Bool → Store pebble json → Reply (Prefix × ℕ)
  unfolding with_snapshot pick picked
  get_prefix revision id include_stale s =
      with_snapshot revision s
        (λ snap. picked snap.revision (pick (λ v. get_meta v.meta) id include_stale snap.prefixes))

  unfoldable pub get_neighbors :
      ℕ → Text → Option TopologyFilter → Store pebble json → Reply (Neighbors × ℕ)
  unfolding with_snapshot scan_links index_by
  get_neighbors revision id f s = with_snapshot revision s (λ snap.
      let nodes = index_by node_key snap.nodes [] in
      reply (
        scan_links nodes id f snap.links (record { links = []; nodes = []; seen = [] }),
        snap.revision,
      ))
