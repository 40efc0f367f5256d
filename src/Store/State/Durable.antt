-- ===== src/Store/State/Durable.antt =====
-- What the batch of a successful `Apply` leaves in the database.
use bg_pls.Base.{
  ℕ, Text, text, Option, none, some, [], ◌++◌, Bool, true, false, ◌≡◌, ◌≢◌, ◌⊎◌, refl, sym, ap, ◌∙◌,
  inl, inr, text_eq, eq_of_text_eq, text_eq_refl, if◌then◌else◌, arith, Option-cases, Bool-cases,
}
use bg_pls.Entities.{EntityKind, Message}
use bg_pls.Store.Pebble.{Pebble, written}
use bg_pls.Store.Json.{Json}
use bg_pls.Store.Maps.{Maps, Mutation, lookup_locked, set_revision}
use bg_pls.Store.State.{
  event_key, big_endian, meta_revision_key, ok, Store, Applied, before_image, after_image, batch_of,
  apply, stamp, next_revision,
}
use bg_pls.Store.State.Journal.{apply-Steps}

-- The key of an entity in the database.
abbrev pub kind_prefix : EntityKind → Text
kind_prefix EntityKind.node = text "node/"
kind_prefix EntityKind.link = text "link/"
kind_prefix EntityKind.prefix = text "prefix/"
kind_prefix EntityKind.peer = text "peer/"
kind_prefix EntityKind.unspecified = text "domain/"
kind_prefix (EntityKind.other n) = []

abbrev pub entity_key : Mutation → Text
entity_key m = kind_prefix m.kind ++ m.id

text_eq-ne : (s t : Text) → s ≢ t → text_eq s t ≡ false
text_eq-ne s t h = elim (Bool-cases (text_eq s t)) [
  | inl e ↦ absurd (h (eq_of_text_eq s t e))
  | inr e ↦ e
]

event_key-ne-meta : (rev : ℕ) → text_eq meta_revision_key (event_key rev) ≡ false
unfolding event_key text_eq
event_key-ne-meta rev = refl

-- What stands at a key after the writes of a revision, its event and an entity.
abbrev pub after_batch : ℕ → Option Text → Text → Option Text → Text → Option Text → Option Text
after_batch rev event key entity k old =
    if text_eq meta_revision_key k
    then some (big_endian 8 rev)
    else if text_eq (event_key rev) k
    then event
    else if text_eq key k
    then entity
    else old

written-batch :
    (m : Mutation) (prefix after bytes : Text) (rev : ℕ) (k : Text) (old : Option Text)
    → written k (batch_of m prefix after bytes rev) old
      ≡ after_batch rev (some bytes) (prefix ++ m.id) (if m.delete then none else some after) k old
unfolding batch_of
written-batch m prefix after bytes rev k old = elim (Bool-cases m.delete) [
  | inl gone ↦ rw gone refl
  | inr kept ↦ rw kept refl
]

module _ (json : Json) where
  image_prefix :
      (s : Maps) (kind : EntityKind) (id : Text) {prefix before : Text}
      → before_image json (lookup_locked s kind id) ≡ ok (prefix, before)
      → (prefix ≡ kind_prefix kind)
        × ((rev : ℕ) → text_eq (event_key rev) (kind_prefix kind ++ id) ≡ false)
        × (text_eq meta_revision_key (kind_prefix kind ++ id) ≡ false)
  unfolding before_image lookup_locked text_eq event_key
  image_prefix s EntityKind.node id h = ground arith
  image_prefix s EntityKind.link id h = ground arith
  image_prefix s EntityKind.prefix id h = ground arith
  image_prefix s EntityKind.peer id h = ground arith
  image_prefix s EntityKind.unspecified id h = ground arith
  image_prefix s (EntityKind.other n) id h = ground arith

module _ (pebble : Pebble) (json : Json) where
  -- The entity as the database keeps it: gone, or the marshalled value.
  abbrev pub stored : Mutation → Option Message → Option Text
  stored m none = none
  stored m (some v) = if m.delete then none else json.marshal v

  stored-after :
      (m : Mutation) (value : Option Message) (after : Text) (old : Option Text)
      → after_image json value ≡ ok after
      → m.delete ≡ true ⊎ ((v : Message) × (value ≡ some v))
      → (if m.delete then none else some after) ≡ stored m value
  unfolding after_image
  stored-after m none after old h (inl gone) = rw gone refl
  stored-after m none after old h (inr (v, e)) = absurd (cc)
  stored-after m (some v) after old h k = elim (Option-cases (json.marshal v)) [
    | inl e ↦ absurd (ground arith)
    | inr (b, e) ↦ ground arith
  ]

  stamp-cases :
      (m : Mutation) (value : Option Message) (rev now : ℕ)
      → stamp m rev now ≡ ok value
      → m.delete ≡ true ⊎ ((v : Message) × (value ≡ some v))
  unfolding stamp
  stamp-cases m value rev now h = elim (Bool-cases m.delete) [
    | inl gone ↦ inl gone
    | inr kept ↦ elim (Option-cases m.value) [
      | inl empty ↦ absurd (ground arith)
      | inr (v, e) ↦ inr (set_revision v rev now, ground arith)
    ]
  ]

  -- Every key of the database after the batch.
  get-apply :
      (c : Bool) (now : ℕ) (m : Mutation) (s : Store pebble json) (r : Applied pebble json)
      → apply pebble json c now m s ≡ ok r
      → (k : Text)
      → pebble.get r.store.db k
        ≡ after_batch r.store.revision
            (json.marshal_event r.event)
            (entity_key m)
            (stored m r.value)
            k
            (pebble.get s.db k)
  get-apply c now m s r h k =
      let t = apply-Steps pebble json c now m s r h in
      let same_prefix = (image_prefix json s.maps m.kind m.id t.looked_up).0 in
      let kept =
        stored-after m r.value t.after (pebble.get s.db k) t.imaged
          (stamp-cases m r.value (next_revision s.revision) now t.stamped) in
      let old = pebble.get s.db k in
      let entity = if m.delete then none else some t.after in
      pebble.get-commit k t.committed
      ∙ written-batch m t.prefix t.after t.bytes (next_revision s.revision) k old
      ∙ ap (λ p. after_batch (next_revision s.revision) (some t.bytes) (p ++ m.id) entity k old)
          same_prefix
      ∙ ap (λ x. after_batch (next_revision s.revision) (some t.bytes) (entity_key m) x k old) kept
      ∙ ap (λ e. after_batch (next_revision s.revision) e (entity_key m) (stored m r.value) k old)
          (sym t.journaled)
      ∙ ap
          (λ rev.
            after_batch rev (json.marshal_event r.event) (entity_key m) (stored m r.value) k old)
          (sym t.revised)

  pub record Written (m : Mutation) (s : Store pebble json) (r : Applied pebble json) : Type 0 where
    pub event : pebble.get r.store.db (event_key r.store.revision) ≡ json.marshal_event r.event
    pub revision : pebble.get r.store.db meta_revision_key ≡ some (big_endian 8 r.store.revision)
    pub entity : pebble.get r.store.db (entity_key m) ≡ stored m r.value
    pub others :
        (k : Text)
        → pebble.get r.store.db k
          ≡ after_batch r.store.revision
              (json.marshal_event r.event)
              (entity_key m)
              (stored m r.value)
              k
              (pebble.get s.db k)

  -- A successful `Apply` leaves in the database its event under the new revision's key, the new
  -- revision, and the entity as the caller gets it back (or no entity after a deletion), and
  -- every other key as it was.
  pub apply-Written :
      (c : Bool) (now : ℕ) (m : Mutation) (s : Store pebble json) (r : Applied pebble json)
      → apply pebble json c now m s ≡ ok r
      → Written m s r
  apply-Written c now m s r h =
      let t = apply-Steps pebble json c now m s r h in
      let (_, not_event, not_meta) = image_prefix json s.maps m.kind m.id t.looked_up in
      let rev = r.store.revision in
      let at = get-apply c now m s r h in
      record {
        event = at (event_key rev) ∙ rw (event_key-ne-meta rev, text_eq_refl (event_key rev)) refl;
        revision = at meta_revision_key ∙ rw (text_eq_refl meta_revision_key) refl;
        entity = at (entity_key m) ∙ rw (not_meta, not_event rev, text_eq_refl (entity_key m)) refl;
        others = at;
      }
