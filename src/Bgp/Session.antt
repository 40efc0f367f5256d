-- ===== src/Bgp/Session.antt =====
-- internal/bgp/collector.go: what the collector writes to the store on a change of a session and on
-- a rejected update. A failed `Apply` is only logged.
pub mod Overwrite
use bg_pls.Base.{
  ℕ, ◌+◌, ◌%◌, ◌^◌, Text, text, Option, none, some, [], Bool, true, false, not, if◌then◌else◌,
}
use bg_pls.Base.Dict.{lookup}
use bg_pls.Entities.{EntityKind, PeerSessionState, Peer, Message, peer_message}
use bg_pls.Store.Pebble.{Pebble}
use bg_pls.Store.Json.{Json}
use bg_pls.Store.Maps.{Mutation}
use bg_pls.Store.State
use bg_pls.Store.State.{Store, Applied, Result, ok, err}
use bg_pls.Bgp.Collector.{Engine, Collector, Found, unknown, nil_peer, known, peer_for_address}

-- The states of GoBGP's state machine that `mapFSM` names, and any other.
pub data FsmState : Type 0 where
  idle connect active open_sent open_confirm established unnamed : FsmState

unfoldable pub map_fsm : FsmState → PeerSessionState
map_fsm FsmState.idle = PeerSessionState.idle
map_fsm FsmState.connect = PeerSessionState.connect
map_fsm FsmState.active = PeerSessionState.active
map_fsm FsmState.open_sent = PeerSessionState.open_sent
map_fsm FsmState.open_confirm = PeerSessionState.open_confirm
map_fsm FsmState.established = PeerSessionState.established
map_fsm FsmState.unnamed = PeerSessionState.unspecified

-- The parts of a peer event that the collector reads, addresses as `String` and `formatAddr` write
-- them.
pub record PeerEvent : Type 0 where
  pub is_state : Bool
  pub neighbor_address : Text
  pub session_state : FsmState
  pub router_id : Text
  pub disconnect_message : Text

-- What becomes of a handler: the store, or a panic at a nil peer.
pub data Handled (A : Type 0) : Type 0 where
  done : A → Handled A
  panicked : Handled A

abbrev established_now : FsmState → Bool
established_now FsmState.established = true
established_now _ = false

-- The peer with the session that the event tells.
unfoldable pub told : PeerEvent → ℕ → Peer → Peer
unfolding map_fsm
told e observed p = record p {
  session_state = map_fsm e.session_state;
  router_id = e.router_id;
  last_state_change = some observed;
  last_error = e.disconnect_message;
  established_at = if established_now e.session_state then some observed else p.established_at;
}

abbrev pub peer_update : Peer → Text → Mutation
peer_update p reason = record {
  kind = EntityKind.peer;
  id = p.id;
  domain_id = p.domain_id;
  peer_id = [];
  reason = reason;
  delete = false;
  value = some (peer_message p);
}

module _ (pebble : Pebble) (json : Json) where
  -- The store after an `Apply` whose error is not returned.
  unfoldable pub apply_logged : ℕ → Mutation → Store pebble json → Store pebble json
  apply_logged now m s = elim (State.apply pebble json false now m s) [ err e ↦ s | ok r ↦ r.store ]

  -- `handlePeer`, with the clock's reading at the `Apply`.
  unfoldable pub handle_peer :
      (engine : Engine)
      → Collector engine
      → Option PeerEvent
      → ℕ
      → ℕ
      → Store pebble json
      → Handled (Store pebble json)
  unfolding told apply_logged peer_for_address
  handle_peer engine c none observed now s = done s
  handle_peer engine c (some e) observed now s =
      if not e.is_state then done s else elim (peer_for_address engine e.neighbor_address c) [
        | unknown ↦ done s
        | nil_peer ↦ panicked
        | known p ↦ done (
            apply_logged now (peer_update (told e observed p) (text "BGP session state changed")) s)
      ]

  -- `incrementRejected`
  unfoldable pub increment_rejected : ℕ → Peer → Store pebble json → Store pebble json
  unfolding apply_logged
  increment_rejected now peer s = elim (lookup peer.id s.maps.peers) [
    | none ↦ s
    | some p ↦
        apply_logged now
          (peer_update (record p { rejected_updates = (p.rejected_updates + 1) % 2 ^ 64 })
            (text "BGP-LS update rejected"))
          s
  ]
