-- ===== src/Api/Summary.antt =====
-- internal/api/topology.go: `GetSummary`, `Resolve` and `resolveNodeID`. The counters do not wrap: a
-- slice has fewer than 2 ^ 64 entities.
pub mod Counted
pub mod Longest
use bg_pls.Base.{
  ℕ, zero, suc, ◌+◌, Text, Option, none, some, List, [], ◌∷◌, ◌++◌, Bool, true, false, not, ◌&&◌,
  ◌||◌, ◌==◌, ltb, leb, length, any, find?, text_eq, is_empty, if◌then◌else◌,
}
use bg_pls.Base.Ascii.{to_lower, contains}
use bg_pls.Entities.{freshness_active, EntityMeta, get_meta, Node, Link, Prefix}
use bg_pls.Store.Pebble.{Pebble}
use bg_pls.Store.Json.{Json}
use bg_pls.Store.State.{Store}
use bg_pls.Store.Reads.{Snapshot, snapshot}
use bg_pls.Api.Filter.{TopologyFilter, no_entries, node_match, link_match, prefix_match}

pub record GetSummaryResponse : Type 0 where
  pub revision : ℕ
  pub observed_at : Option ℕ
  pub domain_count : ℕ
  pub node_count : ℕ
  pub link_count : ℕ
  pub prefix_count : ℕ
  pub peer_count : ℕ
  pub conflict_count : ℕ
  pub stale_count : ℕ

-- The counters that the three loops share; `domains` holds the keys of the map.
pub record Tally : Type 0 where
  pub domains : List Text
  pub conflicts : ℕ
  pub stale : ℕ

abbrev pub is_stale : EntityMeta → Bool
is_stale meta = not (meta.freshness == freshness_active)

abbrev pub has_conflicts : EntityMeta → Bool
has_conflicts meta = not (no_entries meta.conflicts)

unfoldable pub count_meta : EntityMeta → Tally → Tally
count_meta meta tally = record {
  domains =
      if any (λ d. text_eq d meta.domain_id) tally.domains
      then tally.domains
      else meta.domain_id ∷ tally.domains;
  conflicts = if has_conflicts meta then tally.conflicts + 1 else tally.conflicts;
  stale = if is_stale meta then tally.stale + 1 else tally.stale;
}

-- The loop over the entities of a kind.
unfoldable pub count_all :
    {A : Type 0} → (A → EntityMeta) → (A → Bool) → List A → ℕ × Tally → ℕ × Tally
unfolding count_meta
count_all meta matches [] (n, tally) = (n, tally)
count_all meta matches (v ∷ vs) (n, tally) =
    count_all meta matches vs (if matches v then (n + 1, count_meta (meta v) tally) else (n, tally))

unfoldable pub summary : Option TopologyFilter → Snapshot → GetSummaryResponse
unfolding count_all
summary f snap =
    let (nodes, one) =
      count_all (λ v. get_meta v.meta) (λ v. node_match v f) snap.nodes
        (0, record { domains = []; conflicts = 0; stale = 0 }) in
    let (links, two) = count_all (λ v. get_meta v.meta) (λ v. link_match v f) snap.links (0, one) in
    let (prefixes, three) =
      count_all (λ v. get_meta v.meta) (λ v. prefix_match v f) snap.prefixes (0, two) in
    record {
      revision = snap.revision;
      observed_at = snap.observed;
      domain_count = length three.domains;
      node_count = nodes;
      link_count = links;
      prefix_count = prefixes;
      peer_count = length snap.peers;
      conflict_count = three.conflicts;
      stale_count = three.stale;
    }

-- The loop over the entities of a kind in `Resolve`.
unfoldable pub find_some : {A : Type 0} → (A → Bool) → (A → Bool) → ℕ → List A → List A → List A
find_some in_domain hits limit [] out = out
find_some in_domain hits limit (v ∷ vs) out =
    let next = out ++ v ∷ [] in
    let skipped = find_some in_domain hits limit vs out in
    let rest = find_some in_domain hits limit vs next in
    if not (in_domain v)
    then skipped
    else if hits v
    then (if leb limit (length next) then next else rest)
    else skipped

abbrev pub in_text : Text → Text → Bool
in_text q t = contains (to_lower t) q

unfoldable pub node_hit : Text → Node → Bool
node_hit q n =
    in_text q (get_meta n.meta).id
    || in_text q n.name
    || in_text q n.igp_router_id
    || in_text q n.bgp_router_id
    || in_text q n.ipv4_router_id
    || in_text q n.ipv6_router_id

unfoldable pub link_hit : Text → Text → Link → Bool
link_hit query q l =
    in_text q (get_meta l.meta).id
    || text_eq l.local_address query
    || text_eq l.remote_address query
    || text_eq l.local_ipv4_address query
    || text_eq l.remote_ipv4_address query
    || text_eq l.local_ipv6_address query
    || text_eq l.remote_ipv6_address query

unfoldable pub prefix_hit : Text → Prefix → Bool
prefix_hit q p = in_text q (get_meta p.meta).id || in_text q p.prefix

abbrev pub in_domain : Text → EntityMeta → Bool
in_domain domain meta = is_empty domain || text_eq meta.domain_id domain

pub record ResolveResponse : Type 0 where
  pub revision : ℕ
  pub nodes : List Node
  pub links : List Link
  pub prefixes : List Prefix

abbrev pub resolve_limit : ℕ → ℕ
resolve_limit limit = if limit == 0 || ltb 100 limit then 20 else limit

unfoldable pub resolve : Text → Text → ℕ → Snapshot → ResolveResponse
unfolding find_some node_hit link_hit prefix_hit
resolve domain query limit snap =
    let most = resolve_limit limit in
    let q = to_lower query in
    record {
      revision = snap.revision;
      nodes = find_some (λ v. in_domain domain (get_meta v.meta)) (node_hit q) most snap.nodes [];
      links =
          find_some (λ v. in_domain domain (get_meta v.meta)) (link_hit query q) most snap.links [];
      prefixes =
          find_some (λ v. in_domain domain (get_meta v.meta)) (prefix_hit q) most snap.prefixes [];
    }

module _ (pebble : Pebble) (json : Json) where
  unfoldable pub get_summary : Option TopologyFilter → Store pebble json → GetSummaryResponse
  unfolding summary
  get_summary f s = summary f (snapshot pebble json s)

  unfoldable pub resolve_now : Text → Text → ℕ → Store pebble json → ResolveResponse
  unfolding resolve
  resolve_now domain query limit s = resolve domain query limit (snapshot pebble json s)

-- The node that a path request names.
unfoldable pub is_named : Text → Text → Node → Bool
is_named domain q n =
    text_eq (get_meta n.meta).domain_id domain
    && (text_eq (get_meta n.meta).id q
        || text_eq n.name q
        || text_eq n.igp_router_id q
        || text_eq n.bgp_router_id q
        || text_eq n.ipv4_router_id q
        || text_eq n.ipv6_router_id q)

-- `netip`: addresses, and prefixes with their length.
module _ {Addr IpPrefix : Type 0} (parse_addr : Text → Option Addr)
    (parse_prefix : Text → Option IpPrefix) (covers : IpPrefix → Addr → Bool)
    (bits : IpPrefix → ℕ) where
  -- The length of a prefix of the domain that contains the address.
  unfoldable pub match_bits : Text → Addr → Prefix → Option ℕ
  match_bits domain addr p =
      if not (text_eq (get_meta p.meta).domain_id domain)
      then none
      else elim (parse_prefix p.prefix) [
        | none ↦ none
        | some prefix ↦ if covers prefix addr then some (bits prefix) else none
      ]

  -- `bestBits` and `best`; no length is -1.
  unfoldable pub better : Option ℕ → Text → Option (ℕ × Text) → Option (ℕ × Text)
  better none origin best = best
  better (some n) origin none = some (n, origin)
  better (some n) origin (some best) = if ltb best.0 n then some (n, origin) else some best

  unfoldable pub longest : Text → Addr → List Prefix → Option (ℕ × Text) → Option (ℕ × Text)
  unfolding better match_bits
  longest domain addr [] best = best
  longest domain addr (p ∷ ps) best =
      longest domain addr ps (better (match_bits domain addr p) p.origin_node_id best)

  unfoldable pub origin_of : Option (ℕ × Text) → Text
  origin_of none = []
  origin_of (some best) = best.1

  -- The search among the prefixes, for a text that is an address.
  unfoldable pub resolve_addr : Snapshot → Text → Option Addr → Text
  unfolding longest origin_of
  resolve_addr snap domain none = []
  resolve_addr snap domain (some addr) = origin_of (longest domain addr snap.prefixes none)

  unfoldable pub resolve_named : Snapshot → Text → Text → Option Node → Text
  unfolding resolve_addr
  resolve_named snap domain q (some n) = (get_meta n.meta).id
  resolve_named snap domain q none = resolve_addr snap domain (parse_addr q)

  unfoldable pub resolve_node_id : Snapshot → Text → Text → Text
  unfolding is_named resolve_named
  resolve_node_id snap domain q = resolve_named snap domain q (find? (is_named domain q) snap.nodes)
