-- ===== src/Api/Filter.antt =====
-- internal/api/filter.go: which entities a `TopologyFilter` selects. `strings.ToLower` is that of
-- ASCII text.
pub mod Meaning
use bg_pls.Base.{
  ℕ, Text, Option, none, some, List, [], ◌∷◌, Bool, true, false, not, ◌&&◌, ◌||◌, ◌==◌, any,
  text_eq, is_empty, if◌then◌else◌,
}
use bg_pls.Base.Ascii.{to_lower, contains}
use bg_pls.Entities.{Freshness, freshness_active, EntityMeta, get_meta, Node, Link, Prefix}

pub record TopologyFilter : Type 0 where
  pub domain_ids : List Text
  pub protocols : List ℕ
  pub multi_topology_ids : List ℕ
  pub freshness : List Freshness
  pub source_peer_ids : List Text
  pub conflicts_only : Bool
  pub query : Text

-- `len(xs) == 0`
abbrev pub no_entries {ℓ} : {A : Type ℓ} → List A → Bool
no_entries [] = true
no_entries (_ ∷ _) = false

unfoldable pub contains_string : List Text → Text → Bool
contains_string values value = if no_entries values then true else any (λ v. text_eq v value) values

unfoldable pub contains_freshness : List Freshness → Freshness → Bool
contains_freshness values value =
    if no_entries values then value == freshness_active else any (λ v. v == value) values

unfoldable pub sources_match : List Text → List Text → Bool
sources_match filter sources =
    if no_entries filter then true else any (λ f. any (λ s. text_eq f s) sources) filter

-- The tests that the three functions begin with: domain, freshness, source and conflicts.
unfoldable pub meta_match : EntityMeta → TopologyFilter → Bool
unfolding contains_string contains_freshness sources_match
meta_match m f =
    if not (contains_string f.domain_ids m.domain_id)
      || not (contains_freshness f.freshness m.freshness)
      || not (sources_match f.source_peer_ids m.source_peer_ids)
    then false
    else if f.conflicts_only && no_entries m.conflicts
    then false
    else true

-- A non-empty list of numbers wants the entity's number among its own.
unfoldable pub number_match : List ℕ → ℕ → Bool
number_match wanted n = if no_entries wanted then true else any (λ p. p == n) wanted

unfoldable pub query_match : Text → List Text → Bool
query_match query fields =
    let q = to_lower query in is_empty q || any (λ f. contains (to_lower f) q) fields

unfoldable pub node_match : Node → Option TopologyFilter → Bool
unfolding meta_match number_match query_match
node_match n none = (get_meta n.meta).freshness == freshness_active
node_match n (some f) =
    if not (meta_match (get_meta n.meta) f)
    then false
    else if not (number_match f.protocols n.protocol)
    then false
    else query_match f.query (
        (get_meta n.meta).id
        ∷ n.name
        ∷ n.igp_router_id
        ∷ n.bgp_router_id
        ∷ n.ipv4_router_id
        ∷ n.ipv6_router_id
        ∷ [])

unfoldable pub link_match : Link → Option TopologyFilter → Bool
unfolding meta_match number_match query_match
link_match l none = (get_meta l.meta).freshness == freshness_active
link_match l (some f) =
    if not (meta_match (get_meta l.meta) f)
    then false
    else if not (number_match f.multi_topology_ids l.multi_topology_id)
    then false
    else query_match f.query (
        (get_meta l.meta).id
        ∷ l.local_address
        ∷ l.remote_address
        ∷ l.local_ipv4_address
        ∷ l.remote_ipv4_address
        ∷ l.local_ipv6_address
        ∷ l.remote_ipv6_address
        ∷ [])

unfoldable pub prefix_match : Prefix → Option TopologyFilter → Bool
unfolding meta_match number_match query_match
prefix_match p none = (get_meta p.meta).freshness == freshness_active
prefix_match p (some f) =
    if not (meta_match (get_meta p.meta) f)
    then false
    else if not (number_match f.multi_topology_ids p.multi_topology_id)
    then false
    else query_match f.query ((get_meta p.meta).id ∷ p.prefix ∷ p.forwarding_address ∷ [])
