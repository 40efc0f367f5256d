-- ===== src/Store/Load.antt =====
-- `Open` and `load` of the store: its state is read back from the database. Failures of reads are not
-- represented.
pub mod Reopened
use bg_pls.Base.{
  ℕ, ◌+◌, ◌==◌, Text, text, Option, none, some, List, [], ◌∷◌, Bool, length, if◌then◌else◌,
}
use bg_pls.Base.Dict.{Dict, insert}
use bg_pls.Entities.{Domain, Node, Link, Prefix, Peer}
use bg_pls.Store.Pebble.{Pebble}
use bg_pls.Store.Json.{Json}
use bg_pls.Store.Maps.{Maps}
use bg_pls.Store.State.{
  Store, Result, ok, err, require, ◌>>=◌, unmarshal_failed, from_big_endian, meta_revision_key,
  event_key,
}
use bg_pls.Store.Reads.{prefix_end, node_key, link_key, prefix_key, peer_key, domain_key}

abbrev pub node_prefix : Text
node_prefix = text "node/"

abbrev pub link_prefix : Text
link_prefix = text "link/"

abbrev pub prefix_prefix : Text
prefix_prefix = text "prefix/"

abbrev pub peer_prefix : Text
peer_prefix = text "peer/"

abbrev pub domain_prefix : Text
domain_prefix = text "domain/"

-- The loop over the entries of a prefix.
unfoldable pub load_kind :
    {A : Type 0} → (Text → Option A) → (A → Text) → List (Text × Text) → Dict A → Result (Dict A)
load_kind read id [] m = ok m
load_kind read id (e ∷ es) m = elim (read e.1) [
  | none ↦ err unmarshal_failed
  | some v ↦ load_kind read id es (insert (id v) v m)
]

module _ (pebble : Pebble) (json : Json) where
  unfoldable pub load_revision : pebble.Db → ℕ
  unfolding from_big_endian
  load_revision db = elim (pebble.get db meta_revision_key) [
    | none ↦ 0
    | some v ↦ if length v == 8 then from_big_endian 0 v else 0
  ]

  unfoldable pub load_observed : pebble.Db → ℕ → Option ℕ
  load_observed db revision =
      let found : Option ℕ = elim (pebble.get db (event_key revision)) [
        | none ↦ none
        | some v ↦ elim (json.unmarshal_event v) [ none ↦ none | some e ↦ e.observed_at ]
      ] in
      if revision == 0 then none else found

  unfoldable pub entries : pebble.Db → Text → List (Text × Text)
  unfolding prefix_end
  entries db prefix = pebble.scan db prefix (prefix_end prefix)

  -- The store with the maps that were read.
  unfoldable pub opened : pebble.Db → Maps → Store pebble json
  unfolding load_revision load_observed
  opened db maps = record {
    db = db;
    revision = load_revision db;
    observed = load_observed db (load_revision db);
    maps = maps;
    next_sub = 0;
    subs = [];
    closed = [];
  }

  unfoldable pub open_store : pebble.Db → Result (Store pebble json)
  unfolding opened load_kind entries
  open_store db = do
    domains ← load_kind json.unmarshal_domain domain_key (entries db domain_prefix) []
    nodes ← load_kind json.unmarshal_node node_key (entries db node_prefix) []
    links ← load_kind json.unmarshal_link link_key (entries db link_prefix) []
    prefixes ← load_kind json.unmarshal_prefix prefix_key (entries db prefix_prefix) []
    peers ← load_kind json.unmarshal_peer peer_key (entries db peer_prefix) []
    ok (
        opened db (record {
          nodes = nodes;
          links = links;
          prefixes = prefixes;
          peers = peers;
          domains = domains;
        }))
