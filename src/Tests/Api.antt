-- ===== src/Tests/Api.antt =====
-- The request handlers and the collector at concrete inputs.
use mathlib.Core.Bool.{false≢true}
use bg_pls.Base.{
  ℕ, suc, sym, ap, ◌≤◌, ◌≡◌, ◌≢◌, ◌⊎◌, inl, inr, refl, Text, text, Option, none, some, List, [],
  ◌∷◌, Bool, true, false, not, All, Any, is_empty, text_eq, text_lt, filter, ◌&&◌, arith,
}
use bg_pls.Base.Ascii.{lower_byte}
use bg_pls.Base.Base64
use bg_pls.Base.Dict.{lookup, insert}
use bg_pls.Configuration.{negsuc}
use bg_pls.Entities.{PeerSessionState, Peer, Domain}
use bg_pls.Store.Maps.{empty_maps, set_revision, upsert_entity, lookup_locked, apply_memory_locked}
use bg_pls.Store.State
use bg_pls.Store.State.{
  Applied, ok, err, Store, next_revision, stamp, before_image, after_image, event_of, batch_of,
  send, event_key, big_endian,
}
use bg_pls.Api.Page.{list_page}
use bg_pls.Api.Page.Walk.{walk, walk_lem}
use bg_pls.Api.Auth.{
  RoleMapping, Certificate, Authorizer, Request, forbidden, role_none, role_value, role_of,
  middleware,
}
use bg_pls.Api.Auth.Roles.{Grants, role_of_greatest, stranger_forbidden}
use bg_pls.Api.Peers.Create.{submitted, create, stored_as, create_retry_refused}
use bg_pls.Api.Peers.{
  PeerManager, ManagerError, manager_error, already_exists, peer_mutation, World, noop_manager,
  Reply, reply, refuse, aborted, updated_peer, redact_peer, update_peer, update_valid, get_peer,
  save, hand_over, validate_peer, stamped_peer,
}
use bg_pls.Api.Peers.Laws.{
  Updated, versioned, update, invalid, update_peer-reply, stale_update_aborted,
}
use bg_pls.Bgp.Collector.{Engine, Collector, nil_peer, upsert, delete, peer_for_address}
use bg_pls.Bgp.Collector.Linked.{IsLinked, upsert-IsLinked, delete-IsLinked, moved_peer_dangles}
use bg_pls.Tests.Memory.{memory, codec, commit}

-- Three domains, listed in pages of two.
abbrev pub domain_named : Text → Domain
domain_named id = record { id = id; name = []; description = []; revision = 1 }

abbrev three_domains : List Domain
three_domains = domain_named (text "a") ∷ domain_named (text "b") ∷ domain_named (text "c") ∷ []

first_page : list_page (λ (d : Domain). d.id) (λ d. true) none three_domains ≡ (three_domains, [])
unfolding list_page text_lt
first_page = refl

abbrev domain_id : Domain → Text
domain_id d = d.id

abbrev every : Domain → Bool
every d = true

abbrev behind_start : List Domain
behind_start = filter (λ d. text_lt (Base64.decode []) d.id && true) three_domains

walk_lem_example : walk domain_id every 4 2 [] three_domains ≡ some behind_start
unfolding text_lt Base64.decode
walk_lem_example =
    walk_lem domain_id every three_domains ((refl, (refl, tt)), ((refl, tt), (tt, tt)))
      ((omega arith, tt), ((omega arith, tt), ((omega arith, tt), tt))) 4 2 [] (omega arith)
      (omega arith) (omega arith)

-- A glob without special characters matches itself.
abbrev plain_glob : Text → Text → Option Bool
plain_glob pattern value = some (text_eq pattern value)

abbrev operator_mapping : RoleMapping
operator_mapping = record { role = text "Operator"; uri_sans = []; dns_sans = text "ops" ∷ [] }

abbrev strict : Authorizer
strict = record { mappings = operator_mapping ∷ []; insecure = false; anonymous_reader = true }

abbrev ops_cert : Certificate
ops_cert = record { uris = []; dns_names = text "ops" ∷ [] }

abbrev guest_cert : Certificate
guest_cert = record { uris = []; dns_names = [] }

ops_role : role_of plain_glob strict ops_cert ≡ 2
unfolding role_of text_eq lower_byte
ops_role = refl

role_of_greatest_example :
    All
      (λ m. Grants plain_glob ops_cert m → role_value m.role ≤ role_of plain_glob strict ops_cert)
      strict.mappings
    × ((role_of plain_glob strict ops_cert ≡ role_none)
        ⊎ Any
            (λ m.
              Grants plain_glob ops_cert m
              × (role_of plain_glob strict ops_cert ≡ role_value m.role))
            strict.mappings)
role_of_greatest_example = role_of_greatest plain_glob strict ops_cert

abbrev read_request : Request
read_request = record { tls = none; path = text "/ListNodes" }

abbrev guest_request : Request
guest_request = record { tls = some ((guest_cert ∷ []) ∷ []); path = text "/ListNodes" }

stranger_forbidden_example : middleware plain_glob strict guest_request ≡ forbidden
stranger_forbidden_example =
    stranger_forbidden plain_glob strict guest_request guest_cert [] [] refl
      (λ g. elim g [ inl h ↦ h | inr h ↦ h ], tt)

-- A store with one peer.
abbrev pub old_peer : Peer
old_peer = record {
  id = text "p";
  domain_id = text "d";
  name = [];
  remote_address = text "10.0.0.1";
  local_address = [];
  local_as = 1;
  remote_as = 2;
  source_preference = 0;
  enabled = true;
  passive = false;
  ebgp_multihop = false;
  multihop_ttl = 0;
  gtsm = false;
  tcp_md5_secret = text "secret";
  session_state = PeerSessionState.established;
  router_id = [];
  established_at = none;
  last_state_change = none;
  last_error = [];
  received_updates = 7;
  rejected_updates = 0;
  resource_version = 1;
  capabilities = [];
}

abbrev new_peer : Peer
new_peer = record old_peer {
  name = text "edge";
  remote_address = text "10.0.0.2";
  tcp_md5_secret = [];
  resource_version = 0;
}

abbrev pub one_peer : World memory codec noop_manager
one_peer = record {
  store = record {
    db = [];
    revision = 1;
    observed = none;
    maps = record empty_maps {
      peers = (text "p", old_peer) ∷ [];
      domains = (text "d", domain_named (text "d")) ∷ [];
    };
    next_sub = 0;
    subs = [];
    closed = [];
  };
  peers = tt;
}

abbrev has_address : Text → Bool
has_address a = not (is_empty a)

abbrev after_update : World memory codec noop_manager × Reply Peer
after_update = update memory codec noop_manager has_address false 50 (some new_peer) 1 one_peer

abbrev answered : Peer
answered = redact_peer (versioned memory codec noop_manager (updated_peer new_peer old_peer) 1)

updated : after_update ≡ (after_update.0, reply answered)
unfolding update_peer update_valid get_peer save hand_over State.apply stamp before_image
    after_image event_of batch_of send lookup_locked set_revision apply_memory_locked upsert_entity
    event_key big_endian commit text_eq lookup insert validate_peer stamped_peer redact_peer
    updated_peer
updated = refl

-- The same update again, with the version that the first one was given.
still_valid : invalid memory codec noop_manager has_address false 50 new_peer after_update.0 ≡ []
unfolding update_peer update_valid get_peer save hand_over State.apply stamp before_image
    after_image event_of batch_of send lookup_locked set_revision apply_memory_locked upsert_entity
    event_key big_endian commit text_eq lookup insert validate_peer stamped_peer redact_peer
    updated_peer
still_valid = refl

update_peer-reply_example :
    (old : Peer) × (lookup new_peer.id one_peer.store.maps.peers ≡ some old)
    × (1 ≡ old.resource_version)
    × (stored : Peer) × (lookup new_peer.id after_update.0.store.maps.peers ≡ some stored)
    × Updated new_peer old one_peer.store.revision stored
    × (answered ≡ record stored { tcp_md5_secret = [] })
update_peer-reply_example =
    update_peer-reply memory codec noop_manager has_address false 50 new_peer answered 1 one_peer
      after_update.0 updated

stale_update_aborted_example :
    update memory codec noop_manager has_address false 50 (some new_peer) 1 after_update.0
    ≡ (after_update.0, refuse aborted)
stale_update_aborted_example =
    stale_update_aborted memory codec noop_manager has_address false 50 new_peer new_peer answered 1
      one_peer after_update.0 updated refl still_valid (λ h. absurd (omega arith))

-- An engine that accepts everything and counts the calls.
abbrev pub engine : Engine
engine = record {
  State = ℕ;
  start = λ n g. (suc n, true);
  watch = λ n. (suc n, true);
  stop = λ n. (suc n, true);
  add_peer = λ n p. (suc n, true);
  delete_peer = λ n a. (suc n, true);
  reset_peer = λ n a soft. (suc n, true);
}

abbrev pub idle : Collector engine
idle = record {
  server = 0;
  peers = [];
  by_address = [];
  cfg = record { router_id = text "1.1.1.1"; listen_port = negsuc 0; listen_addresses = [] };
  started = true;
}

idle-IsLinked : IsLinked engine idle
unfolding lookup
idle-IsLinked a id h = absurd (cc)

abbrev pub one_known : Collector engine
one_known = (upsert engine old_peer idle).0

one_known-IsLinked : IsLinked engine one_known
unfolding lookup
one_known-IsLinked = upsert-IsLinked engine old_peer idle idle-IsLinked (inl refl)

upsert-IsLinked_example : IsLinked engine (upsert engine old_peer idle).0
unfolding lookup
upsert-IsLinked_example = upsert-IsLinked engine old_peer idle idle-IsLinked (inl refl)

delete-IsLinked_example : IsLinked engine (delete engine (text "p") one_known).0
delete-IsLinked_example = delete-IsLinked engine (text "p") one_known one_known-IsLinked

held : lookup (text "p") one_known.peers ≡ some old_peer
unfolding upsert lookup insert text_eq
held = refl

held_at : lookup old_peer.remote_address one_known.by_address ≡ some (text "p")
unfolding upsert lookup insert text_eq
held_at = refl

moved : (upsert engine new_peer one_known).1 ≡ none
unfolding upsert
moved = refl

removed : (delete engine (text "p") (upsert engine new_peer one_known).0).1 ≡ none
unfolding upsert delete lookup insert text_eq
removed = refl

text_ne : text "10.0.0.1" ≢ text "10.0.0.2"
unfolding text_eq
text_ne h = absurd (false≢true (ap (λ t. text_eq t (text "10.0.0.1")) (sym h)))

moved_peer_dangles_example :
    peer_for_address engine
      (text "10.0.0.1")
      (delete engine (text "p") (upsert engine new_peer one_known).0).0
    ≡ nil_peer
moved_peer_dangles_example =
    moved_peer_dangles engine new_peer old_peer one_known held held_at text_ne moved removed

-- A manager that accepts no peer.
abbrev broken : PeerManager
broken = record {
  State = Unit {0};
  upsert = λ s p. (s, some ManagerError.failed);
  delete = λ s id. (s, some ManagerError.failed);
  reset = λ s id soft. (s, some ManagerError.failed);
}

abbrev no_peers : World memory codec broken
no_peers = record {
  store = record one_peer.store {
    maps = record empty_maps { domains = (text "d", domain_named (text "d")) ∷ [] };
  };
  peers = tt;
}

abbrev applied_or : State.Result (Applied memory codec) → Applied memory codec
applied_or (ok r) = r
applied_or (err e) = record {
  store = no_peers.store;
  event = event_of (peer_mutation old_peer true [] none) 0 0 [] [];
  value = none;
}

abbrev stored_peer : Applied memory codec
stored_peer = applied_or (stored_as memory codec broken has_address false 50 old_peer no_peers)

store_takes : stored_as memory codec broken has_address false 50 old_peer no_peers ≡ ok stored_peer
unfolding State.apply stamp before_image after_image event_of batch_of send lookup_locked
    set_revision apply_memory_locked upsert_entity event_key big_endian commit text_eq lookup insert
store_takes = refl

valid_new : invalid memory codec broken has_address false 50 old_peer no_peers ≡ []
unfolding validate_peer text_eq
valid_new = refl

create_retry_refused_example :
    (w' : World memory codec broken) × (create memory codec broken has_address false 50 old_peer
        no_peers
      ≡ (w', refuse (manager_error ManagerError.failed)))
    × (lookup (text "p") w'.store.maps.peers
        ≡ some (
            versioned memory codec broken
              (submitted memory codec broken has_address false 50 old_peer)
              1))
    × (create memory codec broken has_address false 50 old_peer w' ≡ (w', refuse already_exists))
unfolding lookup
create_retry_refused_example =
    create_retry_refused memory codec broken has_address false 50 old_peer no_peers stored_peer
      ManagerError.failed valid_new refl store_takes refl
