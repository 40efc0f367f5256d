-- ===== src/Topology/Reconcile.antt =====
-- internal/topology/reconcile.go: the reconciler keeps, for each entity, the advertisement of
-- each peer, and submits their canonical merge to the store.
pub mod Order
use mathlib.Core.Option
use bg_pls.Base.{
  ℕ, ◌+◌, Text, text, Option, none, some, List, [], ◌∷◌, ◌++◌, Bool, true, false, not, ◌&&◌, ◌||◌,
  ◌==◌, ltb, map, any, text_eq, text_lt, is_empty, sort, if◌then◌else◌,
}
use bg_pls.Base.Ascii.{sprint}
use bg_pls.Base.Dict.{Dict, lookup, insert, erase, values}
use bg_pls.Entities.{
  EntityKind, freshness_stale_source_lost, EntityMeta, get_meta, Node, Link, Prefix, Message,
  node_message, link_message, prefix_message, peer_message, domain_message,
}
use bg_pls.Store.Pebble.{Pebble}
use bg_pls.Store.Json.{Json}
use bg_pls.Store.Maps.{Mutation}
use bg_pls.Store.State
use bg_pls.Store.State.{Store, Applied, Result}
use bg_pls.Topology.Merge.{merge_entity, set_sources}

pub record Advertisement : Type 0 where
  pub kind : EntityKind
  pub id : Text
  pub domain_id : Text
  pub peer_id : Text
  pub preference : ℕ
  pub withdraw : Bool
  pub value : Option Message

abbrev kind_number : EntityKind → ℕ
kind_number EntityKind.unspecified = 0
kind_number EntityKind.node = 1
kind_number EntityKind.link = 2
kind_number EntityKind.prefix = 3
kind_number EntityKind.peer = 4
kind_number (EntityKind.other n) = n

-- The verb `%d` writes the number of the kind.
unfoldable pub source_key : EntityKind → Text → Text
source_key kind id = sprint (kind_number kind) ++ (text "/" ++ id)

-- The order of `sort.Slice`: by preference, the greatest first, then by peer.
unfoldable pub precedes : Advertisement → Advertisement → Bool
precedes a b =
    if a.preference == b.preference
    then text_lt a.peer_id b.peer_id
    else ltb b.preference a.preference

-- The advertisements of one entity, by peer.
abbrev pub Sources : Type 0
Sources = Dict Advertisement

unfoldable pub ordered : Sources → List Advertisement
unfolding precedes
ordered sources = sort precedes (values sources)

-- The merge loop: the others are merged into the selected value in order. A nil value is merged
-- with nothing.
unfoldable pub merge_all : Text → List Advertisement → Message → Message
unfolding merge_entity
merge_all selected_peer [] v = v
merge_all selected_peer (a ∷ rest) v =
    merge_all selected_peer rest
      (elim a.value [ none ↦ v | some w ↦ merge_entity selected_peer a.peer_id v w ])

-- The canonical value of the sources in order; `none` is a nil value.
unfoldable pub canonical : List Advertisement → Option Message
unfolding merge_all set_sources
canonical [] = none
canonical (first ∷ rest) = elim first.value [
  | none ↦ none
  | some v ↦
      some (set_sources (merge_all first.peer_id rest v) (map (λ a. a.peer_id) (first ∷ rest)))
]

-- `Reconciler.sources`.
abbrev pub SourceMap : Type 0
SourceMap = Dict Sources

pub data Outcome (A : Type 0) : Type 0 where
  stored : Result A → Outcome A
  id_and_peer_required : Outcome A
  value_required : Outcome A

unfoldable pub sources_of : SourceMap → Text → Sources
sources_of all key = elim (lookup key all) [ none ↦ [] | some sources ↦ sources ]

-- The sources of the advertised entity after the advertisement.
unfoldable pub updated : Advertisement → Sources → Sources
updated a sources = if a.withdraw then erase a.peer_id sources else insert a.peer_id a sources

-- The mutation that the new sources ask for.
unfoldable pub mutation_of : Advertisement → Sources → Mutation
unfolding ordered canonical
mutation_of a [] = record {
  kind = a.kind;
  id = a.id;
  domain_id = a.domain_id;
  peer_id = a.peer_id;
  reason = text "last source withdrawn";
  delete = true;
  value = none;
}
mutation_of a (source ∷ sources) = record {
  kind = a.kind;
  id = a.id;
  domain_id = a.domain_id;
  peer_id = a.peer_id;
  reason = text "canonical topology reconciled";
  delete = false;
  value = canonical (ordered (source ∷ sources));
}

-- An entity without sources loses its entry.
unfoldable pub set_entity_sources : Text → Sources → SourceMap → SourceMap
set_entity_sources key [] all = erase key all
set_entity_sources key (source ∷ sources) all = insert key (source ∷ sources) all

module _ (pebble : Pebble) (json : Json) where
  -- `Apply`: the sources change also where the store then refuses the mutation.
  unfoldable pub apply :
      Bool
      → ℕ
      → Advertisement
      → SourceMap
      → Store pebble json
      → SourceMap × Outcome (Applied pebble json)
  unfolding source_key sources_of updated mutation_of set_entity_sources
  apply is_cancelled now a all store =
      if is_empty a.id || is_empty a.peer_id
      then (all, id_and_peer_required)
      else if not a.withdraw && (elim a.value [ none ↦ true | some _ ↦ false ])
      then (all, value_required)
      else let key = source_key a.kind a.id in
        let sources = updated a (sources_of all key) in
        (
          set_entity_sources key sources all,
          stored (State.apply pebble json is_cancelled now (mutation_of a sources) store),
        )

-- `x.Meta.Freshness = STALE_SOURCE_LOST`; `none` is the panic on a nil `Meta`.
stale_meta : Option EntityMeta → Option EntityMeta
stale_meta none = none
stale_meta (some m) = some (record m { freshness = freshness_stale_source_lost })

unfoldable pub mark_stale : Message → Option Message
unfolding stale_meta
mark_stale (node_message x) =
    Option.map (λ m. node_message (record x { meta = some m })) (stale_meta x.meta)
mark_stale (link_message x) =
    Option.map (λ m. link_message (record x { meta = some m })) (stale_meta x.meta)
mark_stale (prefix_message x) =
    Option.map (λ m. prefix_message (record x { meta = some m })) (stale_meta x.meta)
mark_stale (peer_message x) = some (peer_message x)
mark_stale (domain_message x) = some (domain_message x)

unfoldable pub stale_source : Text → Sources → Option Sources
unfolding mark_stale
stale_source peer_id sources = elim (lookup peer_id sources) [
  | none ↦ some sources
  | some a ↦ elim a.value [
    | none ↦ some sources
    | some v ↦ Option.map (λ w. insert peer_id (record a { value = some w }) sources) (mark_stale v)
  ]
]

-- `MarkPeerStale`: the loop over the entities.
unfoldable pub mark_peer_stale : Text → SourceMap → Option SourceMap
unfolding stale_source
mark_peer_stale peer_id [] = some []
mark_peer_stale peer_id ((key, sources) ∷ all) =
    let rest = mark_peer_stale peer_id all in
    Option.bind (stale_source peer_id sources)
      (λ marked. Option.map (λ more. (key, marked) ∷ more) rest)
