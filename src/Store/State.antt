-- ===== src/Store/State.antt =====
-- The state of a `Store`, its byte keys, and `Apply`: one mutation is one batch that holds the
-- entity, the event and the new revision.
pub mod Journal
pub mod Durable
use bg_pls.Base.{
  ℕ, suc, ◌+◌, ◌*◌, ◌/◌, ◌%◌, ◌^◌, zero, Text, text, Option, none, some, List, [], ◌∷◌, ◌++◌, Bool,
  true, false, ◌≡◌, refl, ltb, length, text_eq, is_empty, if◌then◌else◌,
}
pub use bg_pls.Base.Fallible.{Fallible, ok, err, ◌>>=◌, fail_if, require}
use bg_pls.Entities.{EntityKind, Message}
use bg_pls.Store.Pebble.{Pebble, BatchOp, set, remove}
use bg_pls.Store.Json.{Json, TopologyEvent}
use bg_pls.Store.Maps.{
  Maps, Mutation, Lookup, hit, miss, unsupported, lookup_locked, set_revision, apply_memory_locked,
}

abbrev pub uint64_mod : ℕ
uint64_mod = 2 ^ 64

-- `rev + 1` on uint64.
abbrev pub next_revision : ℕ → ℕ
next_revision rev = (rev + 1) % uint64_mod

-- The last `w` decimal digits of a number, with leading zeros.
unfoldable pub padded : ℕ → ℕ → Text
padded zero n = []
padded (suc w) n = padded w (n / 10) ++ (b'0' + n % 10) ∷ []

-- `eventKey`: `%020d` writes a uint64 with exactly twenty digits.
unfoldable pub event_key : ℕ → Text
unfolding padded
event_key rev = text "event/" ++ padded 20 rev

-- `binary.BigEndian.PutUint64`: the last `w` bytes of a number.
unfoldable pub big_endian : ℕ → ℕ → Text
big_endian zero n = []
big_endian (suc w) n = big_endian w (n / 256) ++ (n % 256) ∷ []

-- `binary.BigEndian.Uint64`.
unfoldable pub from_big_endian : ℕ → Text → ℕ
from_big_endian acc [] = acc
from_big_endian acc (b ∷ bs) = from_big_endian (acc * 256 + b) bs

abbrev pub meta_revision_key : Text
meta_revision_key = text "meta/revision"

-- A channel with room for 256 events.
pub record Subscription : Type 0 where
  pub id : ℕ
  pub buffered : List TopologyEvent

pub data StoreError : Type 0 where
  cancelled mutation_id_required unsupported_kind mutation_value_required marshal_failed
        commit_failed not_found unmarshal_failed revision_newer revision_expired out_of_fuel :
      StoreError

abbrev pub Result : Type 0 → Type 0
Result = Fallible StoreError

-- The stamped value: a deletion leaves the value as it came.
unfoldable pub stamp : Mutation → ℕ → ℕ → Result (Option Message)
stamp m rev now = if m.delete then ok m.value else elim m.value [
  | none ↦ err mutation_value_required
  | some v ↦ ok (some (set_revision v rev now))
]

-- The send that does not block, and the loop over the subscriptions: those whose channel is
-- full are dropped and closed.
unfoldable pub has_room : Subscription → Bool
has_room s = ltb (length s.buffered) 256

unfoldable pub send : TopologyEvent → List Subscription → List Subscription
unfolding has_room
send e [] = []
send e (s ∷ ss) =
    if has_room s then record s { buffered = s.buffered ++ e ∷ [] } ∷ send e ss else send e ss

unfoldable pub overrun : List Subscription → List Subscription
unfolding has_room
overrun [] = []
overrun (s ∷ ss) = if has_room s then overrun ss else s ∷ overrun ss

unfoldable pub event_of : Mutation → ℕ → ℕ → Text → Text → TopologyEvent
event_of m rev now before after = record {
  revision = rev;
  observed_at = some now;
  entity_kind = m.kind;
  entity_id = m.id;
  domain_id = m.domain_id;
  operation = if m.delete then text "DELETE" else text "UPSERT";
  source_peer_id = m.peer_id;
  before_json = before;
  after_json = if m.delete then [] else after;
  reason = m.reason;
}

unfoldable pub batch_of : Mutation → Text → Text → Text → ℕ → List BatchOp
batch_of m prefix after event_bytes rev =
    (if m.delete then remove (prefix ++ m.id) else set (prefix ++ m.id) after)
    ∷ set (event_key rev) event_bytes
    ∷ set meta_revision_key (big_endian 8 rev)
    ∷ []

module _ (json : Json) where
  -- `prefix, current, err := lookupLocked(...)`, with the marshalled current entity.
  unfoldable pub before_image : Lookup → Result (Text × Text)
  before_image (hit prefix v) = ok (prefix, elim (json.marshal v) [ none ↦ [] | some b ↦ b ])
  before_image (miss prefix) = ok (prefix, text "null")
  before_image unsupported = err unsupported_kind

  -- `marshal(m.Value)`; a nil value is `null`.
  unfoldable pub after_image : Option Message → Result Text
  after_image none = ok (text "null")
  after_image (some v) = require marshal_failed (json.marshal v)

module _ (pebble : Pebble) (json : Json) where
  pub record Store : Type 0 where
    pub db : pebble.Db
    pub revision : ℕ
    -- `none` is the zero time.
    pub observed : Option ℕ
    pub maps : Maps
    pub next_sub : ℕ
    pub subs : List Subscription
    -- Channels that the store has closed; a receiver still drains them.
    pub closed : List Subscription

  -- What a successful `Apply` leaves: the store, the event, and the value that it stamped.
  pub record Applied : Type 0 where
    pub store : Store
    pub event : TopologyEvent
    pub value : Option Message

  -- `Apply`; `is_cancelled` is `ctx.Err() != nil` and `now` the clock's reading.
  unfoldable pub apply : Bool → ℕ → Mutation → Store → Result Applied
  apply is_cancelled now m s = do
    _ ← fail_if is_cancelled cancelled
    _ ← fail_if (is_empty m.id) mutation_id_required
    (prefix, before) ← before_image json (lookup_locked s.maps m.kind m.id)
    let rev = next_revision s.revision
    value ← stamp m rev now
    after ← after_image json value
    let event = event_of m rev now before after
    event_bytes ← require marshal_failed (json.marshal_event event)
    db ← require commit_failed (pebble.commit s.db (batch_of m prefix after event_bytes rev))
    ok (record {
      store = record s {
        db = db;
        revision = rev;
        observed = some now;
        maps = apply_memory_locked m value s.maps;
        subs = send event s.subs;
        closed = s.closed ++ overrun s.subs;
      };
      event = event;
      value = value;
    })

  -- `Get`: no entity is `ErrNotFound`.
  unfoldable pub get : EntityKind → Text → Store → Result Message
  get kind id s = elim (lookup_locked s.maps kind id) [
    | hit prefix v ↦ ok v
    | miss prefix ↦ err not_found
    | unsupported ↦ err unsupported_kind
  ]
