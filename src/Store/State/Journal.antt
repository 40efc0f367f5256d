-- ===== src/Store/State/Journal.antt =====
-- What a successful `Apply` writes, and that its event undoes it.
use bg_pls.Base.{
  ℕ, Text, Option, none, some, Bool, false, ◌≡◌, refl, sym, ap, ◌∙◌, subst, inl, inr, is_empty,
  arith, Option-cases, Bool-cases,
}
use mathlib.Core.Path.{ap₂}
use bg_pls.Base.Fallible.{passed, ok-injective, require-eq-ok}
use bg_pls.Entities.{
  EntityKind, Message, node_message, link_message, prefix_message, peer_message, domain_message,
}
use bg_pls.Store.Pebble.{Pebble}
use bg_pls.Store.Json.{Json}
use bg_pls.Store.Maps.{
  Maps, Mutation, Lookup, hit, miss, unsupported, lookup_locked, set_revision, apply_memory_locked,
  undo_entity, undo_with,
}
use bg_pls.Store.Maps.Undo.{SameMaps, kind_of, Before, absent, present, OfKind, change, undo-change}
use bg_pls.Store.State.{
  next_revision, ok, cancelled, mutation_id_required, marshal_failed, commit_failed, fail_if,
  require, Store, Applied, before_image, stamp, after_image, event_of, batch_of, apply,
}

module _ (pebble : Pebble) (json : Json) where
  -- The values that a successful `Apply` computes on its way.
  pub record Steps (now : ℕ) (m : Mutation) (s : Store pebble json) (r : Applied pebble json)
      : Type 0 where
    pub prefix : Text
    pub before : Text
    pub after : Text
    pub bytes : Text
    pub looked_up : before_image json (lookup_locked s.maps m.kind m.id) ≡ ok (prefix, before)
    pub stamped : stamp m (next_revision s.revision) now ≡ ok r.value
    pub imaged : after_image json r.value ≡ ok after
    pub recorded : r.event ≡ event_of m (next_revision s.revision) now before after
    pub journaled : json.marshal_event r.event ≡ some bytes
    pub committed :
        pebble.commit s.db (batch_of m prefix after bytes (next_revision s.revision))
        ≡ some r.store.db
    pub revised : r.store.revision ≡ next_revision s.revision
    pub remembered : r.store.maps ≡ apply_memory_locked m r.value s.maps
    pub named : is_empty m.id ≡ false

  pub apply-Steps :
      (c : Bool) (now : ℕ) (m : Mutation) (s : Store pebble json) (r : Applied pebble json)
      → apply pebble json c now m s ≡ ok r
      → Steps now m s r
  unfolding apply
  apply-Steps c now m s r h =
      let (_, e1, h1) = passed (fail_if c cancelled) _ h in
      let (_, e2, h2) = passed (fail_if (is_empty m.id) mutation_id_required) _ h1 in
      let ((prefix, before), e3, h3) =
        passed (before_image json (lookup_locked s.maps m.kind m.id)) _ h2 in
      let (value, e4, h4) = passed (stamp m (next_revision s.revision) now) _ h3 in
      let (after, e5, h5) = passed (after_image json value) _ h4 in
      let rev = next_revision s.revision in
      let event = event_of m rev now before after in
      let (bytes, e6, h6) = passed (require marshal_failed (json.marshal_event event)) _ h5 in
      let (db, e7, h7) =
        passed (require commit_failed (pebble.commit s.db (batch_of m prefix after bytes rev))) _
          h6 in
      let q = ok-injective h7 in
      record {
        prefix = prefix;
        before = before;
        after = after;
        bytes = bytes;
        looked_up = e3;
        stamped = e4 ∙ ap (λ x. ok x.value) q;
        imaged = ap (λ x. after_image json x.value) (sym q) ∙ e5;
        recorded = ap (λ x. x.event) (sym q);
        journaled =
            ap (λ x. json.marshal_event x.event) (sym q) ∙ require-eq-ok marshal_failed _ e6;
        committed = require-eq-ok commit_failed _ e7 ∙ ap (λ x. some x.store.db) q;
        revised = ap (λ x. x.store.revision) (sym q);
        remembered =
            ap (λ x. x.store.maps) (sym q) ∙ ap (λ x. apply_memory_locked m x.value s.maps) q;
        named = ground (arith, e2);
      }

  -- What the maps hold for the mutation's key can be written and read back.
  abbrev pub IsReadable : Maps → EntityKind → Text → Type 0
  IsReadable s kind id =
      (prefix : Text) (v : Message)
      → lookup_locked s kind id ≡ hit prefix v
      → json.IsPlain v × ((b : Text) × (json.marshal v ≡ some b))

  Before-image :
      (s : Maps) (kind : EntityKind) (id : Text) (lk : Lookup) {prefix before : Text}
      → lookup_locked s kind id ≡ lk
      → IsReadable s kind id
      → before_image json lk ≡ ok (prefix, before)
      → Before json s kind id before
  unfolding before_image
  Before-image s kind id (hit p v) {prefix} {before} e readable h =
      let (plain, (b, written)) = readable p v e in present p v e (ground arith) plain
  Before-image s kind id (miss p) e readable h = absent p e (ground arith)
  Before-image s kind id unsupported e readable h = absurd (cc)

  kind_of-set_revision : (v : Message) (rev now : ℕ) → kind_of (set_revision v rev now) ≡ kind_of v
  unfolding set_revision
  kind_of-set_revision (node_message v) rev now = refl
  kind_of-set_revision (link_message v) rev now = refl
  kind_of-set_revision (prefix_message v) rev now = refl
  kind_of-set_revision (peer_message v) rev now = refl
  kind_of-set_revision (domain_message v) rev now = refl

  -- In memory the mutation is the change that it asks for.
  memory-change :
      (m : Mutation) (value : Option Message) (rev now : ℕ) (s : Maps)
      → stamp m rev now ≡ ok value
      → OfKind json m.kind m.value
      → (o : Option Message) × (apply_memory_locked m value s ≡ change json m.kind m.id o s)
        × OfKind json m.kind o
  unfolding apply_memory_locked stamp
  memory-change m value rev now s h k = elim (Bool-cases m.delete) [
    | inl gone ↦ (none, rw gone refl, tt)
    | inr kept ↦ elim (Option-cases m.value) [
      | inl empty ↦ absurd (ground arith)
      | inr (v, e) ↦
          let stamped : value ≡ some (set_revision v rev now) = ground arith in
          (
            some (set_revision v rev now),
            rw (kept, stamped) refl,
            kind_of-set_revision v rev now ∙ (rw e at k),
          )
    ]
  ]

  -- Undoing the event of a successful `Apply` on the new maps gives the old ones, key for key: for
  -- a creation, a replacement and a deletion, of every kind, where the value is of the mutation's
  -- kind and the entity that it replaces or deletes, if any, can be written and read back.
  pub undo-apply :
      (c : Bool) (now : ℕ) (m : Mutation) (s : Store pebble json) (r : Applied pebble json)
      → apply pebble json c now m s ≡ ok r
      → OfKind json m.kind m.value
      → IsReadable s.maps m.kind m.id
      → SameMaps (undo_entity json r.event r.store.maps) s.maps
  unfolding undo_entity event_of
  undo-apply c now m s r h kind readable =
      let t = apply-Steps c now m s r h in
      let (o, changed, fits) =
        memory-change m r.value (next_revision s.revision) now s.maps t.stamped kind in
      let e : undo_entity json r.event r.store.maps
          ≡ undo_with json m.kind m.id t.before (change json m.kind m.id o s.maps) =
        ap₂ (undo_entity json) t.recorded (t.remembered ∙ changed) in
      subst (λ maps. SameMaps maps s.maps) (sym e)
        (undo-change json m.kind m.id t.before o s.maps
          (Before-image s.maps m.kind m.id (lookup_locked s.maps m.kind m.id) refl readable
            t.looked_up)
          fits)
