-- ===== src/Api/Peers/Create.antt =====
-- CreatePeer stores the peer before the manager takes it.
use bg_pls.Base.{
  ℕ, Text, text, none, some, [], Bool, false, ◌≡◌, refl, ap, ◌∙◌, if◌then◌else◌, arith,
}
use bg_pls.Base.Dict.{lookup, values}
use bg_pls.Entities.{PeerSessionState, Peer, peer_message}
use bg_pls.Store.Pebble.{Pebble}
use bg_pls.Store.Json.{Json}
use bg_pls.Store.State
use bg_pls.Store.State.{Applied, ok, err}
use bg_pls.Api.Peers.{
  PeerManager, ManagerError, Reply, refuse, already_exists, stamped_peer, manager_error,
  peer_mutation, World, get_peer, hand_over, save, create_valid, create_peer, validate_peer,
}
use bg_pls.Api.Peers.Laws.{versioned, invalid, apply-peer, lookup-insert_self}

module _ (pebble : Pebble) (json : Json) (manager : PeerManager) (parse_addr : Text → Bool)
    (c : Bool) (now : ℕ) where
  -- The peer as CreatePeer submits it.
  abbrev pub submitted : Peer → Peer
  submitted p = record p {
    session_state = if p.enabled then PeerSessionState.idle else PeerSessionState.disabled;
  }

  abbrev pub create : Peer → World pebble json manager → World pebble json manager × Reply Peer
  create p = create_peer pebble json manager parse_addr c now (some p)

  -- What the store answers to the peer.
  abbrev pub stored_as : Peer → World pebble json manager → State.Result (Applied pebble json)
  stored_as p w =
      State.apply pebble json c now
        (peer_mutation (submitted p) false (text "peer created")
          (some (peer_message (submitted p))))
        w.store

  hand_over-failed :
      (p : Peer) (w : World pebble json manager) (r : Applied pebble json) (e : ManagerError)
      → (manager.upsert w.peers (stamped_peer p r.value)).1 ≡ some e
      → (w' : World pebble json manager) × (hand_over pebble json manager p w (ok r)
          ≡ (w', refuse (manager_error e)))
        × (w'.store ≡ r.store)
  unfolding hand_over
  hand_over-failed p w r e h = (
    record { store = r.store; peers = (manager.upsert w.peers (stamped_peer p r.value)).0 },
    rw h refl,
    refl,
  )

  create-present :
      (p q : Peer) (w : World pebble json manager)
      → invalid pebble json manager parse_addr c now p w ≡ []
      → lookup p.id w.store.maps.peers ≡ some q
      → create p w ≡ (w, refuse already_exists)
  unfolding create_peer create_valid get_peer
  create-present p q w fine there = ground arith

  create-absent :
      (p : Peer) (w : World pebble json manager)
      → invalid pebble json manager parse_addr c now p w ≡ []
      → lookup p.id w.store.maps.peers ≡ none
      → create p w ≡ hand_over pebble json manager (submitted p) w (stored_as p w)
  unfolding create_peer create_valid get_peer save
  create-absent p w fine gone = ground arith

  -- Where the store takes a valid new peer and the manager then fails, CreatePeer answers the
  -- manager's error but leaves the peer in the store, and the same request again is refused because
  -- the peer exists.
  pub create_retry_refused :
      (p : Peer) (w : World pebble json manager) (r : Applied pebble json) (e : ManagerError)
      → invalid pebble json manager parse_addr c now p w ≡ []
      → lookup p.id w.store.maps.peers ≡ none
      → stored_as p w ≡ ok r
      → (manager.upsert w.peers (versioned pebble json manager (submitted p) w.store.revision)).1
        ≡ some e
      → (w' : World pebble json manager) × (create p w ≡ (w', refuse (manager_error e)))
        × (lookup p.id w'.store.maps.peers
            ≡ some (versioned pebble json manager (submitted p) w.store.revision))
        × (create p w' ≡ (w', refuse already_exists))
  unfolding stamped_peer
  create_retry_refused p w r e fine gone taken failed =
      let (value, peers, domains) =
        apply-peer pebble json manager c now (text "peer created") (submitted p) w.store r taken in
      let (w', answer, kept) =
        hand_over-failed (submitted p) w r e
          (ap (λ v. (manager.upsert w.peers (stamped_peer (submitted p) v)).1) value ∙ failed) in
      let there : lookup p.id w'.store.maps.peers
          ≡ some (versioned pebble json manager (submitted p) w.store.revision) =
        ap (λ s. lookup p.id s.maps.peers) kept
        ∙ ap (lookup p.id) peers
        ∙ lookup-insert_self p.id (versioned pebble json manager (submitted p) w.store.revision)
            w.store.maps.peers in
      let still_fine : invalid pebble json manager parse_addr c now p w' ≡ [] =
        ap (λ d. validate_peer parse_addr (some p) (values d))
          (ap (λ s. s.maps.domains) kept ∙ domains)
        ∙ fine in
      (
        w',
        create-absent p w fine gone
            ∙ ap (hand_over pebble json manager (submitted p) w) taken
            ∙ answer,
        there,
        create-present p (versioned pebble json manager (submitted p) w.store.revision) w'
            still_fine there,
      )
