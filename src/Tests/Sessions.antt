-- ===== src/Tests/Sessions.antt =====
-- A rejected update and then a session event of one peer.
use bg_pls.Base.{◌+◌, ◌%◌, ◌^◌, ◌≡◌, refl, text, none, some, [], true, false, text_eq}
use bg_pls.Base.Dict.{lookup, insert}
use bg_pls.Entities.{Peer}
use bg_pls.Store.Maps.{set_revision, lookup_locked, apply_memory_locked, upsert_entity}
use bg_pls.Store.State
use bg_pls.Store.State.{
  Store, Applied, Result, ok, err, stamp, before_image, after_image, event_of, batch_of, send,
  event_key, big_endian,
}
use bg_pls.Bgp.Collector.{known, upsert, peer_for_address}
use bg_pls.Bgp.Session.{
  FsmState, PeerEvent, done, told, peer_update, handle_peer, increment_rejected,
}
use bg_pls.Bgp.Session.Overwrite.{one_more, Takes, rejected_count_lost}
use bg_pls.Tests.Api.{engine, one_known, old_peer, one_peer}
use bg_pls.Tests.Memory.{memory, codec, commit}

abbrev up : PeerEvent
up = record {
  is_state = true;
  neighbor_address = text "10.0.0.1";
  session_state = FsmState.established;
  router_id = text "2.2.2.2";
  disconnect_message = [];
}

abbrev before : Store memory codec
before = one_peer.store

abbrev applied_or : Result (Applied memory codec) → Applied memory codec
applied_or (ok r) = r
applied_or (err e) = record {
  store = before;
  event = event_of (peer_update old_peer []) 0 0 [] [];
  value = none;
}

abbrev counted : Applied memory codec
counted = applied_or (
    State.apply memory codec false 60
      (peer_update (one_more memory codec old_peer) (text "BGP-LS update rejected")) before)

abbrev told_peer : Peer
told_peer = told up 70 old_peer

abbrev changed : Applied memory codec
changed = applied_or (
    State.apply memory codec false 70 (peer_update told_peer (text "BGP session state changed"))
      counted.store)

count_taken :
    Takes memory codec 60
      (one_more memory codec old_peer)
      (text "BGP-LS update rejected")
      before
      counted
unfolding State.apply stamp before_image after_image event_of batch_of send lookup_locked
    set_revision apply_memory_locked upsert_entity event_key big_endian commit text_eq lookup insert
count_taken = refl

change_taken :
    Takes memory codec 70 told_peer (text "BGP session state changed") counted.store changed
unfolding State.apply stamp before_image after_image event_of batch_of send lookup_locked
    set_revision apply_memory_locked upsert_entity event_key big_endian commit text_eq lookup insert
    told
change_taken = refl

found : peer_for_address engine (text "10.0.0.1") one_known ≡ known old_peer
unfolding peer_for_address upsert lookup insert text_eq
found = refl

held : lookup (text "p") before.maps.peers ≡ some old_peer
unfolding lookup text_eq
held = refl

rejected_count_lost_example :
    (u : Peer) × (lookup (text "p") (increment_rejected memory codec 60 old_peer before).maps.peers
      ≡ some u)
    × (u.rejected_updates ≡ (old_peer.rejected_updates + 1) % 2 ^ 64)
    × (v : Peer) × (handle_peer memory codec engine one_known
          (some up)
          70
          70
          (increment_rejected memory codec 60 old_peer before)
        ≡ done changed.store)
    × (lookup (text "p") changed.store.maps.peers ≡ some v)
    × (v.rejected_updates ≡ old_peer.rejected_updates)
rejected_count_lost_example =
    rejected_count_lost memory codec engine one_known up 70 60 70 old_peer old_peer before counted
      changed refl found held refl count_taken change_taken
