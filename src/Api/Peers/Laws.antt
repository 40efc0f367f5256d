-- ===== src/Api/Peers/Laws.antt =====
-- What the peer operations leave in the store: optimistic concurrency, secrets, and the failure
-- of the peer manager after the store has accepted a peer.
use bg_pls.Base.{
  ℕ, ◌+◌, ◌%◌, ◌^◌, Text, text, Option, some, List, [], Bool, false, ◌≡◌, ◌≢◌, refl, sym, ap, ◌∙◌,
  inl, inr, text_eq_refl, arith, Option-cases, Bool-cases, List-cases, ◌==◌,
}
use bg_pls.Base.Dict.{Dict, lookup, insert, lookup-insert}
use bg_pls.Entities.{Peer, Message, peer_message}
use bg_pls.Store.Pebble.{Pebble}
use bg_pls.Store.Json.{Json}
use bg_pls.Store.Maps.{set_revision, apply_memory_locked, upsert_entity}
use bg_pls.Store.State
use bg_pls.Store.State.{Store, Applied, Result, ok, err, stamp, next_revision}
use bg_pls.Store.State.Journal.{apply-Steps}
use bg_pls.Api.Peers.{
  PeerManager, Reply, reply, refuse, aborted, redact_peer, stamped_peer, peer_mutation, World,
  get_peer, hand_over, save, problems, updated_peer, update_valid, update_peer,
}

pub lookup-insert_self {ℓ} :
    {V : Type ℓ} (k : Text) (v : V) (m : Dict V) → lookup k (insert k v m) ≡ some v
lookup-insert_self k v m = lookup-insert k k v m ∙ rw (text_eq_refl k) refl

-- What an update with the request `p` makes of the peer `old`.
pub record Updated (p old : Peer) (revision : ℕ) (stored : Peer) : Type 0 where
  pub settings :
      (stored.id ≡ p.id)
      × (stored.domain_id ≡ p.domain_id)
      × (stored.name ≡ p.name)
      × (stored.remote_address ≡ p.remote_address)
      × (stored.local_address ≡ p.local_address)
  pub numbers :
      (stored.local_as ≡ p.local_as)
      × (stored.remote_as ≡ p.remote_as)
      × (stored.source_preference ≡ p.source_preference)
      × (stored.multihop_ttl ≡ p.multihop_ttl)
  pub switches :
      (stored.enabled ≡ p.enabled)
      × (stored.passive ≡ p.passive)
      × (stored.ebgp_multihop ≡ p.ebgp_multihop)
      × (stored.gtsm ≡ p.gtsm)
  pub session_kept :
      (stored.session_state ≡ old.session_state)
      × (stored.received_updates ≡ old.received_updates)
      × (stored.rejected_updates ≡ old.rejected_updates)
  pub old_secret : p.tcp_md5_secret ≡ [] → stored.tcp_md5_secret ≡ old.tcp_md5_secret
  pub new_secret : p.tcp_md5_secret ≢ [] → stored.tcp_md5_secret ≡ p.tcp_md5_secret
  pub version : stored.resource_version ≡ (revision + 1) % 2 ^ 64

module _ (pebble : Pebble) (json : Json) (manager : PeerManager) where
  -- The peer as `Apply` stamps it.
  abbrev pub versioned : Peer → ℕ → Peer
  versioned p rev = record p { resource_version = next_revision rev }

  updated_lem : (p old : Peer) (rev : ℕ) → Updated p old rev (versioned (updated_peer p old) rev)
  unfolding updated_peer
  updated_lem p old rev = record {
    settings = (refl, refl, refl, refl, refl);
    numbers = (refl, refl, refl, refl);
    switches = (refl, refl, refl, refl);
    session_kept = (refl, refl, refl);
    old_secret = λ h. rw h refl;
    new_secret = λ h. elim (List-cases p.tcp_md5_secret) [
      | inl none_given ↦ absurd (h none_given)
      | inr (c, rest, given) ↦ rw given refl
    ];
    version = refl;
  }

  stamped_value :
      (p : Peer) (reason : Text) (rev now : ℕ) (value : Option Message)
      → stamp (peer_mutation p false reason (some (peer_message p))) rev now ≡ ok value
      → value ≡ some (peer_message (record p { resource_version = rev }))
  unfolding stamp set_revision
  stamped_value p reason rev now value h = ground arith

  pub apply-peer :
      (c : Bool) (now : ℕ) (reason : Text) (p : Peer) (s : Store pebble json)
      (r : Applied pebble json)
      → State.apply pebble json c now (peer_mutation p false reason (some (peer_message p))) s
        ≡ ok r
      → (r.value ≡ some (peer_message (versioned p s.revision)))
        × (r.store.maps.peers ≡ insert p.id (versioned p s.revision) s.maps.peers)
        × (r.store.maps.domains ≡ s.maps.domains)
  unfolding apply_memory_locked upsert_entity
  apply-peer c now reason p s r h =
      let m = peer_mutation p false reason (some (peer_message p)) in
      let t = apply-Steps pebble json c now m s r h in
      let e = stamped_value p reason (next_revision s.revision) now r.value t.stamped in
      let maps = t.remembered ∙ ap (λ v. apply_memory_locked m v s.maps) e in
      (e, ap (λ x. x.peers) maps, ap (λ x. x.domains) maps)

  hand_over-reply :
      (p q : Peer) (w w' : World pebble json manager) (res : Result (Applied pebble json))
      → hand_over pebble json manager p w res ≡ (w', reply q)
      → (r : Applied pebble json) × (res ≡ ok r)
        × ((record { store = r.store; peers = (manager.upsert w.peers (stamped_peer p r.value)).0 }
              ≡ w')
            × (q ≡ redact_peer (stamped_peer p r.value)))
  unfolding hand_over
  hand_over-reply p q w w' (err e) h = absurd (cc)
  hand_over-reply p q w w' (ok r) h =
      elim (Option-cases (manager.upsert w.peers (stamped_peer p r.value)).1) [
        | inl fine ↦ (r, refl, (ap (λ x. x.0) h, ground arith))
        | inr (e, failed) ↦ absurd (ground arith)
      ]

  -- A reply of `save` means that the store holds the stamped peer, and it shows no secret.
  save-reply :
      (c : Bool) (now : ℕ) (reason : Text) (p q : Peer) (w w' : World pebble json manager)
      → save pebble json manager c now reason p w ≡ (w', reply q)
      → (lookup p.id w'.store.maps.peers ≡ some (versioned p w.store.revision))
        × (q ≡ redact_peer (versioned p w.store.revision))
  unfolding save
  save-reply c now reason p q w w' h =
      let (r, e, shown) = hand_over-reply p q w w' _ h in
      let (value, peers, _) = apply-peer c now reason p w.store r e in
      (
        ap (λ x. lookup p.id x.store.maps.peers) (sym shown.0)
            ∙ ap (lookup p.id) peers
            ∙ lookup-insert_self p.id (versioned p w.store.revision) w.store.maps.peers,
        shown.1 ∙ ap (λ v. redact_peer (stamped_peer p v)) value,
      )

  module _ (parse_addr : Text → Bool) (c : Bool) (now : ℕ) where
    abbrev pub update :
        Option Peer → ℕ → World pebble json manager → World pebble json manager × Reply Peer
    update = update_peer pebble json manager parse_addr c now

    abbrev pub invalid : Peer → World pebble json manager → List Text
    invalid p w = problems pebble json manager parse_addr (some p) w

    update_valid-reply :
        (p q : Peer) (expected : ℕ) (w w' : World pebble json manager)
        → update_valid pebble json manager parse_addr c now p expected w ≡ (w', reply q)
        → (old : Peer) × (lookup p.id w.store.maps.peers ≡ some old)
          × (expected ≡ old.resource_version)
          × (save pebble json manager c now (text "peer updated") (updated_peer p old) w
              ≡ (w', reply q))
    unfolding update_valid get_peer
    update_valid-reply p q expected w w' h = elim (Option-cases (lookup p.id w.store.maps.peers)) [
      | inl gone ↦ absurd (ground arith)
      | inr (old, there) ↦ elim (Bool-cases (expected == old.resource_version)) [
        | inl same ↦ (old, there, ground arith, ground arith)
        | inr other ↦ absurd (ground arith)
      ]
    ]

    update_peer-stored :
        (p q : Peer) (expected : ℕ) (w w' : World pebble json manager)
        → update (some p) expected w ≡ (w', reply q)
        → (old : Peer) × (lookup p.id w.store.maps.peers ≡ some old)
          × (expected ≡ old.resource_version)
          × (lookup p.id w'.store.maps.peers
              ≡ some (versioned (updated_peer p old) w.store.revision))
          × (q ≡ redact_peer (versioned (updated_peer p old) w.store.revision))
    unfolding update_peer updated_peer
    update_peer-stored p q expected w w' h = elim (List-cases (invalid p w)) [
      | inr (e, es, bad) ↦ absurd (ground arith)
      | inl fine ↦
          let accepted : update_valid pebble json manager parse_addr c now p expected w
              ≡ (w', reply q) =
            ground arith in
          let (old, there, same, saved) = update_valid-reply p q expected w w' accepted in
          let (now_there, shown) =
            save-reply c now (text "peer updated") (updated_peer p old) q w w' saved in
          (old, there, same, now_there, shown)
    ]

    -- An update that answers had the version that the store held. It leaves the settings of the
    -- request, with the session state and the counters of the old peer, the old secret where the
    -- request has none and the new one where it has one, and the store's next revision as version;
    -- the answer is that peer without its secret.
    pub update_peer-reply :
        (p q : Peer) (expected : ℕ) (w w' : World pebble json manager)
        → update (some p) expected w ≡ (w', reply q)
        → (old : Peer) × (lookup p.id w.store.maps.peers ≡ some old)
          × (expected ≡ old.resource_version)
          × (stored : Peer) × (lookup p.id w'.store.maps.peers ≡ some stored)
          × Updated p old w.store.revision stored
          × (q ≡ record stored { tcp_md5_secret = [] })
    unfolding redact_peer
    update_peer-reply p q expected w w' h =
        let (old, there, same, now_there, shown) = update_peer-stored p q expected w w' h in
        let stored = versioned (updated_peer p old) w.store.revision in
        (old, there, same, stored, now_there, updated_lem p old w.store.revision, shown)

    -- After an update has answered, a second valid one of the same peer with the version that the
    -- first was given is aborted and changes nothing, as long as the revision has not come round to
    -- that version.
    pub stale_update_aborted :
        (p p' q : Peer) (expected : ℕ) (w w' : World pebble json manager)
        → update (some p) expected w ≡ (w', reply q)
        → p'.id ≡ p.id
        → invalid p' w' ≡ []
        → expected ≢ next_revision w.store.revision
        → update (some p') expected w' ≡ (w', refuse aborted)
    unfolding update_peer update_valid get_peer
    stale_update_aborted p p' q expected w w' h same_id fine fresh =
        let (old, there, same, now_there, shown) = update_peer-stored p q expected w w' h in
        let found = ap (λ k. lookup k w'.store.maps.peers) same_id ∙ now_there in
        ground (arith, fine, found, fresh)
