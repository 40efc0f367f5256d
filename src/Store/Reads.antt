-- ===== src/Store/Reads.antt =====
-- The reads of the store: `Snapshot`, `Events`, `OldestRevision` and `SnapshotAt`. Failures of the
-- database's iterators are not represented.
pub mod Run
pub mod Expired
use bg_pls.Base.{
  ℕ, zero, suc, ◌+◌, ◌*◌, ◌-◌, ◌%◌, Text, text, Option, none, some, List, [], ◌∷◌, ◌++◌, Bool, true,
  false, not, ◌&&◌, ◌||◌, ◌==◌, ltb, leb, length, take, drop, get_last?, sort, is_empty, text_lt,
  if◌then◌else◌,
}
use bg_pls.Base.Ascii.{starts_with}
use bg_pls.Base.Dict.{Dict, insert, values}
use bg_pls.Entities.{get_meta, Node, Link, Prefix, Peer, Domain}
use bg_pls.Store.Pebble.{Pebble}
use bg_pls.Store.Json.{Json, TopologyEvent}
use bg_pls.Store.Maps.{Maps, undo_entity}
use bg_pls.Store.State.{
  Store, Result, ok, err, require, ◌>>=◌, unmarshal_failed, revision_newer, revision_expired,
  out_of_fuel, event_key, next_revision, uint64_mod,
}

pub record Snapshot : Type 0 where
  pub revision : ℕ
  -- `none` is the zero time.
  pub observed : Option ℕ
  pub domains : List Domain
  pub nodes : List Node
  pub links : List Link
  pub prefixes : List Prefix
  pub peers : List Peer

abbrev pub node_key : Node → Text
node_key v = (get_meta v.meta).id

abbrev pub link_key : Link → Text
link_key v = (get_meta v.meta).id

abbrev pub prefix_key : Prefix → Text
prefix_key v = (get_meta v.meta).id

abbrev pub peer_key : Peer → Text
peer_key v = v.id

abbrev pub domain_key : Domain → Text
domain_key v = v.id

-- The order of every slice of a snapshot: by id.
abbrev pub by_key : {A : Type 0} → (A → Text) → A → A → Bool
by_key key a b = text_lt (key a) (key b)

-- The slices of the maps, each in the order of its ids.
unfoldable pub sorted_maps : ℕ → Option ℕ → Maps → Snapshot
sorted_maps revision observed maps = record {
  revision = revision;
  observed = observed;
  domains = sort (by_key domain_key) (values maps.domains);
  nodes = sort (by_key node_key) (values maps.nodes);
  links = sort (by_key link_key) (values maps.links);
  prefixes = sort (by_key prefix_key) (values maps.prefixes);
  peers = sort (by_key peer_key) (values maps.peers);
}

-- A loop that puts the entities of a slice into a map by their own ids.
unfoldable pub index_by : {A : Type 0} → (A → Text) → List A → Dict A → Dict A
index_by key [] m = m
index_by key (v ∷ vs) m = index_by key vs (insert (key v) v m)

unfoldable pub index_maps : Snapshot → Maps
unfolding index_by
index_maps snap = record {
  nodes = index_by node_key snap.nodes [];
  links = index_by link_key snap.links [];
  prefixes = index_by prefix_key snap.prefixes [];
  peers = index_by peer_key snap.peers [];
  domains = index_by domain_key snap.domains [];
}

abbrev pub event_prefix : Text
event_prefix = text "event/"

-- The last byte plus one.
unfoldable pub prefix_end : Text → Text
prefix_end [] = []
prefix_end (b ∷ []) = (b + 1) % 256 ∷ []
prefix_end (b ∷ c ∷ rest) = b ∷ prefix_end (c ∷ rest)

-- `strconv.ParseUint(s, 10, 64)` without its error: 0 where a byte is no digit, the greatest number
-- where the digits exceed it.
unfoldable pub parse_digits : ℕ → Text → ℕ
parse_digits n [] = n
parse_digits n (c ∷ rest) =
    let next = n * 10 + (c - b'0') in
    let parsed = parse_digits next rest in
    if not (leb b'0' c && leb c b'9')
    then 0
    else if ltb next uint64_mod
    then parsed
    else uint64_mod - 1

abbrev pub trim_prefix : Text → Text → Text
trim_prefix s prefix = if starts_with s prefix then drop (length prefix) s else s

module _ (pebble : Pebble) (json : Json) where
  unfoldable pub snapshot : Store pebble json → Snapshot
  unfolding sorted_maps
  snapshot s = sorted_maps s.revision s.observed s.maps

  unfoldable pub decode_events : List (Text × Text) → Result (List TopologyEvent)
  decode_events [] = ok []
  decode_events (e ∷ es) = do
    event ← require unmarshal_failed (json.unmarshal_event e.1)
    events ← decode_events es
    ok (event ∷ events)

  unfoldable pub events : ℕ → ℕ → ℕ → Store pebble json → Result (List TopologyEvent)
  unfolding decode_events prefix_end
  events after before limit s =
      let most = if limit == 0 || ltb 10000 limit then 1000 else limit in
      let upper =
        if not (before == 0) && not (before == uint64_mod - 1)
        then event_key (next_revision before)
        else prefix_end event_prefix in
      decode_events (take most (pebble.scan s.db (event_key (next_revision after)) upper))

  unfoldable pub oldest_revision : Store pebble json → ℕ
  unfolding prefix_end parse_digits
  oldest_revision s = elim (pebble.scan s.db event_prefix (prefix_end event_prefix)) [
    | [] ↦ 0
    | e ∷ more ↦ parse_digits 0 (trim_prefix e.0 event_prefix)
  ]

  -- The loop that reads the later events in chunks; it goes on behind the last event of a chunk.
  unfoldable pub later_events :
      ℕ → ℕ → ℕ → List TopologyEvent → Store pebble json → Result (List TopologyEvent)
  unfolding events
  later_events zero cursor last found s = err out_of_fuel
  later_events (suc fuel) cursor last found s =
      let next : Result (List TopologyEvent) = (do
        chunk ← events cursor last 10000 s
        elim (get_last? chunk) [
          | none ↦ ok found
          | some e ↦ later_events fuel e.revision last (found ++ chunk) s
        ]) in
      if ltb cursor last then next else ok found

  -- The loop from the last event to the first.
  unfoldable pub undo_all : List TopologyEvent → Maps → Maps
  undo_all [] maps = maps
  undo_all (e ∷ es) maps = undo_entity json e (undo_all es maps)

  -- The time of the one event of a revision; the time of an event without one is the epoch.
  unfoldable pub observed_at : ℕ → Store pebble json → Option ℕ
  unfolding events
  observed_at revision s = elim (events (revision - 1) revision 1 s) [
    | err e ↦ none
    | ok found ↦ elim found [
      | [] ↦ none
      | e ∷ more ↦ elim e.observed_at [ none ↦ some 0 | some t ↦ some t ]
    ]
  ]

  unfoldable pub snapshot_at : ℕ → Store pebble json → Result Snapshot
  unfolding snapshot oldest_revision later_events undo_all observed_at index_maps sorted_maps
  snapshot_at revision s =
      let snap = snapshot s in
      let oldest = oldest_revision s in
      if revision == 0 || revision == snap.revision
      then ok snap
      else if ltb snap.revision revision
      then err revision_newer
      else if not (oldest == 0) && ltb (next_revision revision) oldest
      then err revision_expired
      else do
        found ← later_events (suc (snap.revision - revision)) revision snap.revision [] s
        ok (sorted_maps revision (observed_at revision s) (undo_all found (index_maps snap)))
