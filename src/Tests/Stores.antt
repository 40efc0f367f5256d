-- ===== src/Tests/Stores.antt =====
-- The store at concrete mutations.
use bg_pls.Base.{Text, text, none, some, [], ◌∷◌, false, ◌≡◌, refl, text_eq, arith, subst}
use bg_pls.Base.Dict.{lookup, insert}
use bg_pls.Entities.{EntityKind, Domain, Message, domain_message}
use bg_pls.Store.Maps.{
  Mutation, empty_maps, set_revision, upsert_entity, lookup_locked, hit, apply_memory_locked,
  undo_entity,
}
use bg_pls.Store.Maps.Undo.{SameMaps}
use bg_pls.Store.State
use bg_pls.Store.State.{
  Store, Applied, Result, ok, err, stamp, before_image, after_image, event_of, batch_of, send,
  event_key, big_endian,
}
use bg_pls.Store.State.Journal.{undo-apply}
use bg_pls.Store.State.Durable.{Written, apply-Written}
use bg_pls.Store.Reads.{undo_all}
use bg_pls.Store.Reads.Run.{Run, undo_all-Run}
use bg_pls.Tests.Memory.{memory, codec, commit}

abbrev first_domain : Domain
first_domain = record { id = text "d"; name = []; description = []; revision = 1 }

abbrev one_domain : Store memory codec
one_domain = record {
  db = [];
  revision = 1;
  observed = none;
  maps = record empty_maps { domains = (text "d", first_domain) ∷ [] };
  next_sub = 0;
  subs = [];
  closed = [];
}

-- A replacement of the domain.
abbrev replace : Mutation
replace = record {
  kind = EntityKind.unspecified;
  id = text "d";
  domain_id = text "d";
  peer_id = [];
  reason = text "test";
  delete = false;
  value = some (domain_message first_domain);
}

abbrev fallback : Applied memory codec
fallback = record { store = one_domain; event = event_of replace 0 0 [] []; value = none }

abbrev applied_or : Result (Applied memory codec) → Applied memory codec
applied_or (ok r) = r
applied_or (err e) = fallback

abbrev replaced : Applied memory codec
replaced = applied_or (State.apply memory codec false 50 replace one_domain)

replace_succeeds : State.apply memory codec false 50 replace one_domain ≡ ok replaced
unfolding State.apply stamp before_image after_image event_of batch_of send lookup_locked
    set_revision apply_memory_locked upsert_entity event_key big_endian commit text_eq lookup insert
replace_succeeds = refl

found_plain :
    (prefix : Text) (v : Message)
    → lookup_locked one_domain.maps EntityKind.unspecified (text "d") ≡ hit prefix v
    → codec.IsPlain v × ((b : Text) × (codec.marshal v ≡ some b))
unfolding lookup_locked lookup text_eq
found_plain prefix v h =
    let same : domain_message first_domain ≡ v = ground arith in
    subst (λ x. codec.IsPlain x × ((b : Text) × (codec.marshal x ≡ some b))) same
      ((refl, refl), (_, refl))

undo-apply_example : SameMaps (undo_entity codec replaced.event replaced.store.maps) one_domain.maps
undo-apply_example =
    undo-apply memory codec false 50 replace one_domain replaced replace_succeeds refl found_plain

apply-Written_example : Written memory codec replace one_domain replaced
apply-Written_example =
    apply-Written memory codec false 50 replace one_domain replaced replace_succeeds

one_step : Run memory codec one_domain (replaced.event ∷ []) replaced.store
one_step = Run.step false 50 replace replaced replace_succeeds refl found_plain Run.stay

undo_all-Run_example :
    SameMaps (undo_all memory codec (replaced.event ∷ []) replaced.store.maps) one_domain.maps
undo_all-Run_example = undo_all-Run memory codec one_step
