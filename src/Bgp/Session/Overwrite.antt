-- ===== src/Bgp/Session/Overwrite.antt =====
-- A change of a session writes the collector's own copy of the peer over the store's.
use bg_pls.Base.{ℕ, ◌+◌, ◌%◌, ◌^◌, ◌≡◌, refl, sym, ap, ◌∙◌, Text, text, some, true, false, arith}
use bg_pls.Base.Dict.{lookup}
use bg_pls.Entities.{Peer}
use bg_pls.Store.Pebble.{Pebble}
use bg_pls.Store.Json.{Json}
use bg_pls.Store.State
use bg_pls.Store.State.{Store, Applied, Result, ok, err, next_revision}
use bg_pls.Api.Peers.{noop_manager}
use bg_pls.Api.Peers.Laws.{apply-peer, lookup-insert_self}
use bg_pls.Bgp.Collector.{Engine, Collector, known, peer_for_address}
use bg_pls.Bgp.Session.{
  PeerEvent, done, told, peer_update, apply_logged, handle_peer, increment_rejected,
}

module _ (pebble : Pebble) (json : Json) where
  -- The peer with one more rejected update.
  abbrev pub one_more : Peer → Peer
  one_more p = record p { rejected_updates = (p.rejected_updates + 1) % 2 ^ 64 }

  -- The store takes a peer.
  abbrev pub Takes : ℕ → Peer → Text → Store pebble json → Applied pebble json → Type 0
  Takes now p reason s r = State.apply pebble json false now (peer_update p reason) s ≡ ok r

  stored_peer :
      (now : ℕ) (p : Peer) (reason : Text) (s : Store pebble json) (r : Applied pebble json)
      → Takes now p reason s r
      → lookup p.id r.store.maps.peers
        ≡ some (record p { resource_version = next_revision s.revision })
  stored_peer now p reason s r h =
      let (value, peers, domains) = apply-peer pebble json noop_manager false now reason p s r h in
      ap (lookup p.id) peers ∙ lookup-insert_self p.id _ s.maps.peers

  increment_rejected-store :
      (now : ℕ) (p q : Peer) (s : Store pebble json) (r : Applied pebble json)
      → lookup p.id s.maps.peers ≡ some q
      → Takes now (one_more q) (text "BGP-LS update rejected") s r
      → increment_rejected pebble json now p s ≡ r.store
  unfolding increment_rejected apply_logged
  increment_rejected-store now p q s r there taken = ground arith

  handle_peer-store :
      (engine : Engine) (c : Collector engine) (e : PeerEvent) (observed now : ℕ) (p : Peer)
      (s : Store pebble json) (r : Applied pebble json)
      → e.is_state ≡ true
      → peer_for_address engine e.neighbor_address c ≡ known p
      → Takes now (told e observed p) (text "BGP session state changed") s r
      → handle_peer pebble json engine c (some e) observed now s ≡ done r.store
  unfolding handle_peer apply_logged
  handle_peer-store engine c e observed now p s r state there taken = ground arith

  -- A rejected update of a peer that the store holds under its own id is counted in the store; a
  -- session event of the same peer that the store takes after it sets the count back to the one that
  -- the collector's own copy has.
  pub rejected_count_lost :
      (engine : Engine) (c : Collector engine) (e : PeerEvent) (observed counted now : ℕ)
      (p q : Peer) (s : Store pebble json) (r r' : Applied pebble json)
      → e.is_state ≡ true
      → peer_for_address engine e.neighbor_address c ≡ known p
      → lookup p.id s.maps.peers ≡ some q
      → q.id ≡ p.id
      → Takes counted (one_more q) (text "BGP-LS update rejected") s r
      → Takes now (told e observed p) (text "BGP session state changed") r.store r'
      → (u : Peer) × (lookup p.id (increment_rejected pebble json counted p s).maps.peers ≡ some u)
        × (u.rejected_updates ≡ (q.rejected_updates + 1) % 2 ^ 64)
        × (v : Peer) × (handle_peer pebble json engine c
              (some e)
              observed
              now
              (increment_rejected pebble json counted p s)
            ≡ done r'.store)
        × (lookup p.id r'.store.maps.peers ≡ some v)
        × (v.rejected_updates ≡ p.rejected_updates)
  unfolding told
  rejected_count_lost engine c e observed counted now p q s r r' state there held same counted_it
        taken =
      let kept = increment_rejected-store counted p q s r held counted_it in
      (
        record (one_more q) { resource_version = next_revision s.revision },
        ap (λ t. lookup p.id t.maps.peers) kept
            ∙ ap (λ k. lookup k r.store.maps.peers) (sym same)
            ∙ stored_peer counted (one_more q) (text "BGP-LS update rejected") s r counted_it,
        refl,
        record (told e observed p) { resource_version = next_revision r.store.revision },
        ap (handle_peer pebble json engine c (some e) observed now) kept
            ∙ handle_peer-store engine c e observed now p r.store r' state there taken,
        stored_peer now (told e observed p) (text "BGP session state changed") r.store r' taken,
        refl,
      )
