-- ===== src/Topology/Merge.antt =====
-- internal/topology/reconcile.go: how the value of a less preferred source is merged into the
-- selected one. A function that writes through a pointer returns the new value beside the
-- conflicts of the entity.
use bg_pls.Base.{
  ℕ, Text, text, Option, some, List, [], ◌∷◌, ◌++◌, Bool, not, ◌&&◌, ◌==◌, any, text_eq, is_empty,
  if◌then◌else◌,
}
use bg_pls.Base.Ascii.{sprint}
use bg_pls.Entities.{
  RawTlv, Conflict, EntityMeta, get_meta, Node, Link, Prefix, Message, node_message, link_message,
  prefix_message, peer_message, domain_message,
}

conflict_of : Text → Text → Text → Text → Text → Conflict
conflict_of field selected selected_peer other other_peer = record {
  field = field;
  selected_value = selected;
  selected_peer_id = selected_peer;
  rejected_value = other;
  rejected_peer_id = other_peer;
}

module _ (selected_peer other_peer : Text) where
  unfoldable pub merge_string : Text → Text → Text → List Conflict → Text × List Conflict
  unfolding conflict_of
  merge_string field selected other conflicts =
      if is_empty selected
      then (other, conflicts)
      else if not (is_empty other) && not (text_eq selected other)
      then (selected, conflicts ++ conflict_of field selected selected_peer other other_peer ∷ [])
      else (selected, conflicts)

  unfoldable pub merge_uint64 : Text → ℕ → ℕ → List Conflict → ℕ × List Conflict
  unfolding conflict_of
  merge_uint64 field selected other conflicts =
      if selected == 0
      then (other, conflicts)
      else if not (other == 0) && not (selected == other)
      then (
        selected,
        conflicts
            ++ conflict_of field (sprint selected) selected_peer (sprint other) other_peer ∷ [],
      )
      else (selected, conflicts)

-- `fmt.Sprintf("%s/%d/%s", v.Registry, v.Type, v.Value)`
unfoldable pub tlv_key : RawTlv → Text
tlv_key v = v.registry ++ (text "/" ++ (sprint v.tlv_type ++ (text "/" ++ v.value)))

abbrev pub seen_key : RawTlv → List RawTlv → Bool
seen_key v = any (λ w. text_eq (tlv_key w) (tlv_key v))

-- `seen` holds the keys of what `selected` holds, so it is read off that list.
unfoldable pub merge_tlvs : List RawTlv → List RawTlv → List RawTlv
merge_tlvs selected [] = selected
merge_tlvs selected (v ∷ other) =
    merge_tlvs (if seen_key v selected then selected else selected ++ v ∷ []) other

-- The selected entity's meta with the conflicts found and the merged TLVs.
merged_meta : EntityMeta → List Conflict → Option EntityMeta → Option EntityMeta
unfolding merge_tlvs
merged_meta m conflicts other = some (record m {
  conflicts = conflicts;
  decoded_tlvs = merge_tlvs m.decoded_tlvs (get_meta other).decoded_tlvs;
})

module _ (selected_peer other_peer : Text) where
  abbrev string : Text → Text → Text → List Conflict → Text × List Conflict
  string = merge_string selected_peer other_peer

  abbrev number : Text → ℕ → ℕ → List Conflict → ℕ × List Conflict
  number = merge_uint64 selected_peer other_peer

  unfoldable pub merge_node : Node → Node → Node
  unfolding merged_meta
  merge_node a b =
      let m = get_meta a.meta in
      let (name, c1) = string (text "name") a.name b.name m.conflicts in
      let (igp_router_id, c2) = string (text "igp_router_id") a.igp_router_id b.igp_router_id c1 in
      let (bgp_router_id, c3) = string (text "bgp_router_id") a.bgp_router_id b.bgp_router_id c2 in
      let (ipv4, c4) = string (text "ipv4_router_id") a.ipv4_router_id b.ipv4_router_id c3 in
      let (ipv6, c5) = string (text "ipv6_router_id") a.ipv6_router_id b.ipv6_router_id c4 in
      let (area_id, c6) = string (text "area_id") a.area_id b.area_id c5 in
      record a {
        meta = merged_meta m c6 b.meta;
        name = name;
        igp_router_id = igp_router_id;
        bgp_router_id = bgp_router_id;
        ipv4_router_id = ipv4;
        ipv6_router_id = ipv6;
        area_id = area_id;
      }

  unfoldable pub merge_link : Link → Link → Link
  unfolding merged_meta
  merge_link a b =
      let m = get_meta a.meta in
      let (local, c1) = string (text "local_address") a.local_address b.local_address m.conflicts in
      let (remote, c2) = string (text "remote_address") a.remote_address b.remote_address c1 in
      let (local4, c3) =
        string (text "local_ipv4_address") a.local_ipv4_address b.local_ipv4_address c2 in
      let (remote4, c4) =
        string (text "remote_ipv4_address") a.remote_ipv4_address b.remote_ipv4_address c3 in
      let (local6, c5) =
        string (text "local_ipv6_address") a.local_ipv6_address b.local_ipv6_address c4 in
      let (remote6, c6) =
        string (text "remote_ipv6_address") a.remote_ipv6_address b.remote_ipv6_address c5 in
      let (igp, c7) = number (text "igp_metric") a.igp_metric b.igp_metric c6 in
      let (te, c8) = number (text "te_metric") a.te_metric b.te_metric c7 in
      let (delay, c9) =
        number (text "delay_microseconds") a.delay_microseconds b.delay_microseconds c8 in
      record a {
        meta = merged_meta m c9 b.meta;
        local_address = local;
        remote_address = remote;
        local_ipv4_address = local4;
        remote_ipv4_address = remote4;
        local_ipv6_address = local6;
        remote_ipv6_address = remote6;
        igp_metric = igp;
        te_metric = te;
        delay_microseconds = delay;
      }

  unfoldable pub merge_prefix : Prefix → Prefix → Prefix
  unfolding merged_meta
  merge_prefix a b =
      let m = get_meta a.meta in
      let (metric, c1) = number (text "metric") a.metric b.metric m.conflicts in
      let (address, c2) =
        string (text "forwarding_address") a.forwarding_address b.forwarding_address c1 in
      record a { meta = merged_meta m c2 b.meta; metric = metric; forwarding_address = address }

  -- Values of different types are not merged, and other types are left alone.
  unfoldable pub merge_entity : Message → Message → Message
  merge_entity (node_message a) (node_message b) = node_message (merge_node a b)
  merge_entity (link_message a) (link_message b) = link_message (merge_link a b)
  merge_entity (prefix_message a) (prefix_message b) = prefix_message (merge_prefix a b)
  merge_entity selected other = selected

unfoldable pub set_sources : Message → List Text → Message
set_sources (node_message x) sources =
    node_message (record x { meta = some (record (get_meta x.meta) { source_peer_ids = sources }) })
set_sources (link_message x) sources =
    link_message (record x { meta = some (record (get_meta x.meta) { source_peer_ids = sources }) })
set_sources (prefix_message x) sources =
    prefix_message
      (record x { meta = some (record (get_meta x.meta) { source_peer_ids = sources }) })
set_sources (peer_message x) sources = peer_message x
set_sources (domain_message x) sources = domain_message x
