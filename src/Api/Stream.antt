-- ===== src/Api/Stream.antt =====
-- internal/api/topology.go: `StreamSnapshot`, which sends a snapshot in messages of at most 500
-- entities. A send that fails ends the stream with the messages that were sent before.
pub mod Whole
use bg_pls.Base.{
  ℕ, zero, suc, ◌+◌, Text, Option, none, some, List, [], ◌∷◌, ◌++◌, Bool, true, false, not, ◌&&◌,
  ◌||◌, ltb, length, map, if◌then◌else◌,
}
use bg_pls.Entities.{Node, Link, Prefix, Domain}
use bg_pls.Store.Pebble.{Pebble}
use bg_pls.Store.Json.{Json}
use bg_pls.Store.State.{Store, ok, err}
use bg_pls.Store.Reads.{Snapshot, snapshot_at}
use bg_pls.Api.Filter.{TopologyFilter, no_entries, node_match, link_match, prefix_match}
use bg_pls.Api.Peers.{Reply, reply, refuse, Code, api_error}

abbrev pub chunk_size : ℕ
chunk_size = 500

-- The entities of a snapshot that are still to be sent.
pub record Rest : Type 0 where
  pub nodes : List Node
  pub links : List Link
  pub prefixes : List Prefix

pub record StreamSnapshotResponse : Type 0 where
  pub revision : ℕ
  pub domains : List Domain
  pub nodes : List Node
  pub links : List Link
  pub prefixes : List Prefix
  pub last : Bool

-- One of the loops that fill a message which holds `n` entities: what it takes, and what it leaves.
unfoldable pub fill : {A : Type 0} → (A → Bool) → ℕ → List A → List A × List A
fill matches n [] = ([], [])
fill matches n (v ∷ vs) =
    let taken = fill matches (suc n) vs in
    let passed = fill matches n vs in
    if not (ltb n chunk_size)
    then ([], v ∷ vs)
    else if matches v
    then (v ∷ taken.0, taken.1)
    else passed

abbrev pub is_done : Rest → Bool
is_done r = no_entries r.nodes && no_entries r.links && no_entries r.prefixes

-- The body of the loop.
unfoldable pub next_message :
    Option TopologyFilter → ℕ → List Domain → Rest → StreamSnapshotResponse × Rest
unfolding fill
next_message f revision domains r =
    let (nodes, more_nodes) = fill (λ v. node_match v f) 0 r.nodes in
    let (links, more_links) = fill (λ v. link_match v f) (length nodes) r.links in
    let (prefixes, more_prefixes) =
      fill (λ v. prefix_match v f) (length nodes + length links) r.prefixes in
    let rest : Rest = record { nodes = more_nodes; links = more_links; prefixes = more_prefixes } in
    (
      record {
        revision = revision;
        domains = domains;
        nodes = nodes;
        links = links;
        prefixes = prefixes;
        last = is_done rest;
      },
      rest,
    )

-- The loop after the first message; `none` is out of fuel.
unfoldable pub messages :
    ℕ → Option TopologyFilter → ℕ → Rest → Option (List StreamSnapshotResponse)
unfolding next_message
messages zero f revision r = none
messages (suc fuel) f revision r =
    let (message, rest) = next_message f revision [] r in
    let more : Option (List StreamSnapshotResponse) = elim (messages fuel f revision rest) [
      | none ↦ none
      | some ms ↦ some (message ∷ ms)
    ] in
    if is_done r then some [] else more

unfoldable pub stream : Option TopologyFilter → Snapshot → Option (List StreamSnapshotResponse)
unfolding messages next_message
stream f snap =
    let all : Rest = record { nodes = snap.nodes; links = snap.links; prefixes = snap.prefixes } in
    let (message, rest) = next_message f snap.revision snap.domains all in
    elim (messages (suc (length rest.nodes + length rest.links + length rest.prefixes)) f
      snap.revision rest) [ none ↦ none | some ms ↦ some (message ∷ ms) ]

module _ (pebble : Pebble) (json : Json) where
  unfoldable pub stream_snapshot :
      ℕ → Option TopologyFilter → Store pebble json → Reply (Option (List StreamSnapshotResponse))
  unfolding stream api_error
  stream_snapshot revision f s = elim (snapshot_at pebble json revision s) [
    | err e ↦ refuse (api_error e)
    | ok snap ↦ reply (stream f snap)
  ]
