-- ===== src/Api/History.antt =====
-- internal/api/topology.go: the changes of the topology, listed, compared and watched.
pub mod Changes
use bg_pls.Base.{
  ℕ, zero, suc, ◌+◌, ◌-◌, ◌*◌, ◌^◌, Text, Option, none, some, List, [], ◌∷◌, ◌++◌, Bool, true, not,
  ◌&&◌, ◌==◌, ltb, leb, length, take, get_last?, filter, is_empty, if◌then◌else◌,
}
use bg_pls.Base.Ascii.{sprint}
use bg_pls.Base.Base64.{decode, is_encoding}
use bg_pls.Store.Pebble.{Pebble}
use bg_pls.Store.Json.{Json, TopologyEvent}
use bg_pls.Store.State.{Store, Result, ok, err, ◌>>=◌, out_of_fuel, next_revision, uint64_mod}
use bg_pls.Store.Reads.{events, oldest_revision}
use bg_pls.Store.History.{Subscribed, subscribed, failed, stuck, subscribe}
use bg_pls.Api.Filter.{TopologyFilter, contains_string}
use bg_pls.Api.Page.{Page, page_bounds, next_token}
use bg_pls.Api.Peers.{Reply, reply, refuse, Code, api_error}

-- `strconv.ParseUint(s, 10, 64)`; `none` is its error.
unfoldable pub parse_digits_from : ℕ → Text → Option ℕ
parse_digits_from n [] = some n
parse_digits_from n (c ∷ rest) =
    let next = n * 10 + (c - b'0') in
    let parsed = parse_digits_from next rest in
    if not (leb b'0' c && leb c b'9') then none else if ltb next uint64_mod then parsed else none

unfoldable pub parse_uint : Text → Option ℕ
unfolding parse_digits_from
parse_uint s = if is_empty s then none else parse_digits_from 0 s

unfoldable pub of_domains : TopologyFilter → TopologyEvent → Bool
of_domains f e = contains_string f.domain_ids e.domain_id

-- The loops over events that drop those of other domains.
unfoldable pub of_filter : Option TopologyFilter → List TopologyEvent → List TopologyEvent
unfolding of_domains
of_filter none es = es
of_filter (some f) es = filter (of_domains f) es

-- The revision behind which the list goes on: the greater of the request's and the token's.
unfoldable pub changes_after : ℕ → Option Page → ℕ
unfolding parse_uint
changes_after after none = after
changes_after after (some page) =
    let cursor : ℕ = elim (parse_uint (decode page.page_token)) [
      | none ↦ after
      | some cursor ↦ if ltb after cursor then cursor else after
    ] in
    if not (is_empty page.page_token) && is_encoding page.page_token then cursor else after

pub record ListChangesResponse : Type 0 where
  pub events : List TopologyEvent
  pub next_page_token : Text
  pub revision : ℕ
  pub oldest_available_revision : ℕ

-- The events shown and the token of the next page.
unfoldable pub cut_events : ℕ → List TopologyEvent → List TopologyEvent × Text
cut_events size es =
    let more = ltb size (length es) in
    let shown = if more then take size es else es in
    (shown, elim (get_last? shown) [ none ↦ [] | some e ↦ next_token (sprint e.revision) more ])

module _ (pebble : Pebble) (json : Json) where
  -- The answer from the events that were read.
  unfoldable pub changes_page :
      ℕ
      → Option TopologyFilter
      → Store pebble json
      → Result (List TopologyEvent)
      → Reply ListChangesResponse
  unfolding of_filter cut_events api_error
  changes_page size f s (err e) = refuse (api_error e)
  changes_page size f s (ok found) =
      let (shown, token) = cut_events size (of_filter f found) in
      reply (record {
        events = shown;
        next_page_token = token;
        revision = s.revision;
        oldest_available_revision = oldest_revision pebble json s;
      })

  unfoldable pub list_changes :
      ℕ → ℕ → Option Page → Option TopologyFilter → Store pebble json → Reply ListChangesResponse
  unfolding changes_after changes_page
  list_changes after before page f s =
      let size = (page_bounds page).0 in
      changes_page size f s (events pebble json (changes_after after page) before (size + 1) s)

  -- The loop of `DiffTopology`; it goes on behind the last event of a chunk.
  unfoldable pub diff_events :
      ℕ
      → ℕ
      → ℕ
      → Option TopologyFilter
      → List TopologyEvent
      → Store pebble json
      → Result (List TopologyEvent)
  unfolding of_filter
  diff_events zero cursor to f out s = err out_of_fuel
  diff_events (suc fuel) cursor to f out s =
      let next : Result (List TopologyEvent) = (do
        chunk ← events pebble json cursor to 10000 s
        elim (get_last? chunk) [
          | none ↦ ok out
          | some e ↦ diff_events fuel e.revision to f (out ++ of_filter f chunk) s
        ]) in
      if ltb cursor to then next else ok out

  unfoldable pub diff_topology :
      ℕ → ℕ → Option TopologyFilter → Store pebble json → Reply (List TopologyEvent)
  unfolding diff_events api_error
  diff_topology from to f s =
      let found : Reply (List TopologyEvent) = elim (diff_events (suc (to - from)) from to f [] s) [
        | err e ↦ refuse (api_error e)
        | ok out ↦ reply out
      ] in
      if not (ltb from to) then refuse Code.invalid_argument else found

  -- The start of `WatchTopology`; of the events that the channel brings, `of_filter` are sent on.
  pub data Watching : Type 0 where
    watching : ℕ → Store pebble json → Watching
    denied : Code → Watching
    waiting : Watching

  unfoldable pub watch_topology : ℕ → Store pebble json → Watching
  unfolding api_error
  watch_topology after s =
      let oldest = oldest_revision pebble json s in
      let started : Watching = elim (subscribe pebble json after s) [
        | subscribed id s' ↦ watching id s'
        | failed e ↦ denied (api_error e)
        | stuck ↦ waiting
      ] in
      if not (oldest == 0) && ltb (next_revision after) oldest
      then denied Code.failed_precondition
      else started
