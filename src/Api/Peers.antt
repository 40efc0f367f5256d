-- ===== src/Api/Peers.antt =====
-- internal/api/collector.go: the peer operations of the collector service. The state is the store
-- with that of the peer manager, the BGP collector or `NoopPeerManager`, which is an argument; so is
-- `netip.ParseAddr`. A handler returns the state that it leaves also where it fails.
pub mod Laws
pub mod Create
use bg_pls.Base.{
  ℕ, zero, suc, ◌+◌, Text, text, Option, none, some, List, [], ◌∷◌, ◌++◌, Bool, true, false, not,
  ◌&&◌, ◌||◌, ◌==◌, ltb, map, any, text_eq, is_empty, if◌then◌else◌,
}
use bg_pls.Base.Dict.{values, lookup}
use bg_pls.Entities.{EntityKind, PeerSessionState, Peer, Domain, Message, peer_message}
use bg_pls.Store.Pebble.{Pebble}
use bg_pls.Store.Json.{Json}
use bg_pls.Store.Maps.{Mutation}
use bg_pls.Store.State
use bg_pls.Store.State.{Store, Applied, StoreError, Result, ok, err}

pub data ManagerError : Type 0 where
  not_found failed : ManagerError

-- `PeerManager`, with its state; `none` is no error.
pub record PeerManager : Type 1 where
  pub State : Type 0
  pub upsert : State → Peer → State × Option ManagerError
  pub delete : State → Text → State × Option ManagerError
  pub reset : State → Text → Bool → State × Option ManagerError

-- `NoopPeerManager`
abbrev pub noop_manager : PeerManager
noop_manager = record {
  State = Unit {0};
  upsert = λ s p. (s, none);
  delete = λ s id. (s, none);
  reset = λ s id soft. (s, none);
}

-- The codes of connect errors that the handlers use.
pub data Code : Type 0 where
  invalid_argument already_exists aborted not_found failed_precondition internal : Code

pub data Reply (A : Type 0) : Type 0 where
  reply : A → Reply A
  refuse : Code → Reply A

-- `apiError`
unfoldable pub api_error : StoreError → Code
api_error State.not_found = Code.not_found
api_error e = internal

unfoldable pub manager_error : ManagerError → Code
manager_error ManagerError.not_found = Code.not_found
manager_error failed = internal

unfoldable pub redact_peer : Peer → Peer
redact_peer p = record p { tcp_md5_secret = [] }

abbrev when : Bool → Text → List Text
when true message = message ∷ []
when false message = []

module _ (parse_addr : Text → Bool) where
  unfoldable pub validate_peer : Option Peer → List Domain → List Text
  validate_peer none domains = text "peer is required" ∷ []
  validate_peer (some p) domains =
      when (is_empty p.id) (text "id is required")
      ++ (when (is_empty p.domain_id) (text "domain_id is required")
          ++ (when (not (any (λ d. text_eq d.id p.domain_id) domains))
                (text "domain_id does not exist")
              ++ (when (not (parse_addr p.remote_address))
                    (text "remote_address must be an IPv4 or IPv6 address")
                  ++ (when (not (is_empty p.local_address) && not (parse_addr p.local_address))
                        (text "local_address must be an IPv4 or IPv6 address")
                      ++ (when (p.local_as == 0 || p.remote_as == 0)
                            (text "local_as and remote_as must be non-zero")
                          ++ (when (p.gtsm && p.ebgp_multihop)
                                (text "gtsm and ebgp_multihop cannot both be enabled")
                              ++ when
                                  (p.ebgp_multihop
                                    && (ltb p.multihop_ttl 2 || ltb 255 p.multihop_ttl))
                                  (text "multihop_ttl must be between 2 and 255")))))))

abbrev pub peer_mutation : Peer → Bool → Text → Option Message → Mutation
peer_mutation p delete reason value = record {
  kind = EntityKind.peer;
  id = p.id;
  domain_id = p.domain_id;
  peer_id = [];
  reason = reason;
  delete = delete;
  value = value;
}

-- The peer behind the pointer that `Apply` stamped.
unfoldable pub stamped_peer : Peer → Option Message → Peer
stamped_peer p (some (peer_message q)) = q
stamped_peer p _ = p

-- The value that an update stores: secret, session state and counters of the existing peer.
unfoldable pub updated_peer : Peer → Peer → Peer
updated_peer p existing = record p {
  tcp_md5_secret = if is_empty p.tcp_md5_secret then existing.tcp_md5_secret else p.tcp_md5_secret;
  session_state = existing.session_state;
  received_updates = existing.received_updates;
  rejected_updates = existing.rejected_updates;
}

module _ (pebble : Pebble) (json : Json) (manager : PeerManager) where
  pub record World : Type 0 where
    pub store : Store pebble json
    pub peers : manager.State

  -- `c.Store.Get(ENTITY_KIND_PEER, id)` and the conversion to a peer.
  unfoldable pub get_peer : Text → World → Result Peer
  get_peer id w = elim (lookup id w.store.maps.peers) [ none ↦ err State.not_found | some p ↦ ok p ]

  -- What follows `Apply` of a peer's value: `Upsert`, which may fail after the store has accepted.
  unfoldable pub hand_over : Peer → World → Result (Applied pebble json) → World × Reply Peer
  unfolding api_error manager_error redact_peer stamped_peer
  hand_over p w (err e) = (w, refuse (api_error e))
  hand_over p w (ok applied) =
      let q = stamped_peer p applied.value in
      let (peers, failure) = manager.upsert w.peers q in
      (
        record { store = applied.store; peers = peers },
        elim failure [ none ↦ reply (redact_peer q) | some e ↦ refuse (manager_error e) ],
      )

  unfoldable pub save : Bool → ℕ → Text → Peer → World → World × Reply Peer
  unfolding hand_over
  save cancelled now reason p w = hand_over p w (
      State.apply pebble json cancelled now (peer_mutation p false reason (some (peer_message p)))
        w.store)

  abbrev pub problems : (Text → Bool) → Option Peer → World → List Text
  problems parse_addr p w = validate_peer parse_addr p (values w.store.maps.domains)

  module _ (parse_addr : Text → Bool) (cancelled : Bool) (now : ℕ) where
    unfoldable pub create_valid : Peer → World → World × Reply Peer
    create_valid p w = elim (get_peer p.id w) [
      | ok old ↦ (w, refuse already_exists)
      | err e ↦
          save cancelled now (text "peer created")
            (record p {
              session_state =
                  if p.enabled then PeerSessionState.idle else PeerSessionState.disabled;
            })
            w
    ]

    -- A nil peer is refused by the validation.
    unfoldable pub create_peer : Option Peer → World → World × Reply Peer
    unfolding create_valid
    create_peer request w = elim (problems parse_addr request w) [
      | message ∷ more ↦ (w, refuse invalid_argument)
      | [] ↦ elim request [ none ↦ (w, refuse invalid_argument) | some p ↦ create_valid p w ]
    ]

    unfoldable pub update_valid : Peer → ℕ → World → World × Reply Peer
    update_valid p expected w = elim (get_peer p.id w) [
      | err e ↦ (w, refuse (api_error e))
      | ok existing ↦
          if not (expected == existing.resource_version)
          then (w, refuse aborted)
          else save cancelled now (text "peer updated") (updated_peer p existing) w
    ]

    unfoldable pub update_peer : Option Peer → ℕ → World → World × Reply Peer
    unfolding update_valid
    update_peer request expected w = elim (problems parse_addr request w) [
      | message ∷ more ↦ (w, refuse invalid_argument)
      | [] ↦ elim request [
        | none ↦ (w, refuse invalid_argument)
        | some p ↦ update_valid p expected w
      ]
    ]

    -- The manager forgets the peer first; a store that then fails still holds it.
    unfoldable pub delete_peer : Text → ℕ → World → World × Reply (Unit {0})
    unfolding get_peer api_error manager_error
    delete_peer id expected w = elim (get_peer id w) [
      | err e ↦ (w, refuse (api_error e))
      | ok p ↦
          let (peers, failure) = manager.delete w.peers p.id in
          let after = record w { peers = peers } in
          if not (expected == p.resource_version) then (w, refuse aborted) else elim failure [
            | some e ↦ (after, refuse (manager_error e))
            | none ↦
                elim (State.apply pebble json cancelled now
                  (peer_mutation p true (text "peer deleted") none) w.store) [
                    | err e ↦ (after, refuse (api_error e))
                    | ok applied ↦ (record { store = applied.store; peers = peers }, reply tt)
                  ]
          ]
    ]

    unfoldable pub set_peer_admin_state : Text → ℕ → Bool → World → World × Reply Peer
    unfolding get_peer api_error save
    set_peer_admin_state id expected enabled w = elim (get_peer id w) [
      | err e ↦ (w, refuse (api_error e))
      | ok p ↦
          if not (expected == p.resource_version)
          then (w, refuse aborted)
          else save cancelled now (text "peer administrative state changed")
              (record p {
                enabled = enabled;
                session_state = if enabled then p.session_state else PeerSessionState.disabled;
              })
              w
    ]

    unfoldable pub reset_peer : Text → Bool → World → World × Reply Peer
    unfolding get_peer api_error manager_error redact_peer
    reset_peer id soft w = elim (get_peer id w) [
      | err e ↦ (w, refuse (api_error e))
      | ok p ↦
          let (peers, failure) = manager.reset w.peers id soft in
          (
            record w { peers = peers },
            elim failure [ none ↦ reply (redact_peer p) | some e ↦ refuse (manager_error e) ],
          )
    ]
