-- ===== src/Store/Maps/Undo.antt =====
-- Undoing the event of a mutation brings the maps back.
use bg_pls.Base.{
  Text, text, Option, none, some, [], ◌∷◌, true, false, ◌||◌, ◌≡◌, refl, sym, ap, ◌∙◌, subst, inl,
  inr, text_eq, eq_of_text_eq, is_empty, arith, Option-cases, Bool-cases,
}
use bg_pls.Base.Dict.{lookup, put, put_back}
use bg_pls.Entities.{
  EntityKind, Node, Link, Prefix, Peer, Domain, Message, node_message, link_message, prefix_message,
  peer_message, domain_message,
}
use bg_pls.Store.Json.{Json}
use bg_pls.Store.Maps.{Maps, hit, miss, lookup_locked, delete_entity, upsert_entity, undo_with}

-- The same entity at every key of every map.
pub record SameMaps (s t : Maps) : Type 0 where
  pub nodes : (k : Text) → lookup k s.nodes ≡ lookup k t.nodes
  pub links : (k : Text) → lookup k s.links ≡ lookup k t.links
  pub prefixes : (k : Text) → lookup k s.prefixes ≡ lookup k t.prefixes
  pub peers : (k : Text) → lookup k s.peers ≡ lookup k t.peers
  pub domains : (k : Text) → lookup k s.domains ≡ lookup k t.domains

pub SameMaps-refl : (s : Maps) → SameMaps s s
SameMaps-refl s = record {
  nodes = λ k. refl;
  links = λ k. refl;
  prefixes = λ k. refl;
  peers = λ k. refl;
  domains = λ k. refl;
}

pub SameMaps-trans : {s t u : Maps} → SameMaps s t → SameMaps t u → SameMaps s u
SameMaps-trans h g = record {
  nodes = λ k. h.nodes k ∙ g.nodes k;
  links = λ k. h.links k ∙ g.links k;
  prefixes = λ k. h.prefixes k ∙ g.prefixes k;
  peers = λ k. h.peers k ∙ g.peers k;
  domains = λ k. h.domains k ∙ g.domains k;
}

abbrev pub kind_of : Message → EntityKind
kind_of (node_message _) = EntityKind.node
kind_of (link_message _) = EntityKind.link
kind_of (prefix_message _) = EntityKind.prefix
kind_of (peer_message _) = EntityKind.peer
kind_of (domain_message _) = EntityKind.unspecified

module _ (json : Json) where
  -- The before-image of what the maps hold for a kind and an id.
  pub data Before (s : Maps) (kind : EntityKind) (id : Text) (before : Text) : Type 0 where
    absent :
        (prefix : Text)
        → lookup_locked s kind id ≡ miss prefix
        → before ≡ text "null"
        → Before s kind id before
    present :
        (prefix : Text) (v : Message)
        → lookup_locked s kind id ≡ hit prefix v
        → json.marshal v ≡ some before
        → json.IsPlain v
        → Before s kind id before

  null_image : is_empty (text "null") || text_eq (text "null") (text "null") ≡ true
  unfolding text_eq
  null_image = refl

  not-null_image :
      (v : Message) (b : Text)
      → json.marshal v ≡ some b
      → is_empty b || text_eq b (text "null") ≡ false
  not-null_image v [] e = absurd (json.marshal-ne-nil v e)
  not-null_image v (c ∷ b) e = elim (Bool-cases (text_eq (c ∷ b) (text "null"))) [
    | inl same ↦ absurd (json.marshal-ne-null v (e ∙ ap some (eq_of_text_eq _ _ same)))
    | inr other ↦ other
  ]

  -- Undoing puts back what the maps held, whatever stands there now.
  undo_with-node :
      (s t : Maps) (id before : Text)
      → Before s EntityKind.node id before
      → undo_with json EntityKind.node id before t
        ≡ record t { nodes = put id (lookup id s.nodes) t.nodes }
  unfolding undo_with lookup_locked
  undo_with-node s t id before (absent p e n) =
      let gone : lookup id s.nodes ≡ none = ground arith in rw (n, null_image, gone) refl
  undo_with-node s t id before (present p v e b plain) = elim (Option-cases (lookup id s.nodes)) [
    | inl gone ↦ absurd (ground arith)
    | inr (w, there) ↦
        let same : v ≡ node_message w = ground arith in
        let read : json.unmarshal_node before ≡ some w =
          json.unmarshal_node-marshal w before (subst json.IsPlain same plain)
            (ap json.marshal (sym same) ∙ b) in
        rw (not-null_image v before b, read, there) refl
  ]

  undo_with-link :
      (s t : Maps) (id before : Text)
      → Before s EntityKind.link id before
      → undo_with json EntityKind.link id before t
        ≡ record t { links = put id (lookup id s.links) t.links }
  unfolding undo_with lookup_locked
  undo_with-link s t id before (absent p e n) =
      let gone : lookup id s.links ≡ none = ground arith in rw (n, null_image, gone) refl
  undo_with-link s t id before (present p v e b plain) = elim (Option-cases (lookup id s.links)) [
    | inl gone ↦ absurd (ground arith)
    | inr (w, there) ↦
        let same : v ≡ link_message w = ground arith in
        let read : json.unmarshal_link before ≡ some w =
          json.unmarshal_link-marshal w before (subst json.IsPlain same plain)
            (ap json.marshal (sym same) ∙ b) in
        rw (not-null_image v before b, read, there) refl
  ]

  undo_with-prefix :
      (s t : Maps) (id before : Text)
      → Before s EntityKind.prefix id before
      → undo_with json EntityKind.prefix id before t
        ≡ record t { prefixes = put id (lookup id s.prefixes) t.prefixes }
  unfolding undo_with lookup_locked
  undo_with-prefix s t id before (absent p e n) =
      let gone : lookup id s.prefixes ≡ none = ground arith in rw (n, null_image, gone) refl
  undo_with-prefix s t id before (present p v e b plain) =
      elim (Option-cases (lookup id s.prefixes)) [
        | inl gone ↦ absurd (ground arith)
        | inr (w, there) ↦
            let same : v ≡ prefix_message w = ground arith in
            let read : json.unmarshal_prefix before ≡ some w =
              json.unmarshal_prefix-marshal w before (subst json.IsPlain same plain)
                (ap json.marshal (sym same) ∙ b) in
            rw (not-null_image v before b, read, there) refl
      ]

  undo_with-peer :
      (s t : Maps) (id before : Text)
      → Before s EntityKind.peer id before
      → undo_with json EntityKind.peer id before t
        ≡ record t { peers = put id (lookup id s.peers) t.peers }
  unfolding undo_with lookup_locked
  undo_with-peer s t id before (absent p e n) =
      let gone : lookup id s.peers ≡ none = ground arith in rw (n, null_image, gone) refl
  undo_with-peer s t id before (present p v e b plain) = elim (Option-cases (lookup id s.peers)) [
    | inl gone ↦ absurd (ground arith)
    | inr (w, there) ↦
        let same : v ≡ peer_message w = ground arith in
        let read : json.unmarshal_peer before ≡ some w =
          json.unmarshal_peer-marshal w before (subst json.IsPlain same plain)
            (ap json.marshal (sym same) ∙ b) in
        rw (not-null_image v before b, read, there) refl
  ]

  undo_with-domain :
      (s t : Maps) (id before : Text)
      → Before s EntityKind.unspecified id before
      → undo_with json EntityKind.unspecified id before t
        ≡ record t { domains = put id (lookup id s.domains) t.domains }
  unfolding undo_with lookup_locked
  undo_with-domain s t id before (absent p e n) =
      let gone : lookup id s.domains ≡ none = ground arith in rw (n, null_image, gone) refl
  undo_with-domain s t id before (present p v e b plain) =
      elim (Option-cases (lookup id s.domains)) [
        | inl gone ↦ absurd (ground arith)
        | inr (w, there) ↦
            let same : v ≡ domain_message w = ground arith in
            let read : json.unmarshal_domain before ≡ some w =
              json.unmarshal_domain-marshal w before (subst json.IsPlain same plain)
                (ap json.marshal (sym same) ∙ b) in
            rw (not-null_image v before b, read, there) refl
      ]

  -- A deletion, or an upsert of a value.
  abbrev pub change : EntityKind → Text → Option Message → Maps → Maps
  change kind id none s = delete_entity kind id s
  change kind id (some v) s = upsert_entity id v s

  abbrev pub OfKind : EntityKind → Option Message → Type 0
  OfKind kind none = Unit
  OfKind kind (some v) = kind_of v ≡ kind

  same_nodes :
      (s : Maps) (id : Text) (o : Option Node)
      → SameMaps (record s { nodes = put id (lookup id s.nodes) (put id o s.nodes) }) s
  same_nodes s id o = record {
    nodes = λ k. put_back id k o s.nodes;
    links = λ k. refl;
    prefixes = λ k. refl;
    peers = λ k. refl;
    domains = λ k. refl;
  }

  same_links :
      (s : Maps) (id : Text) (o : Option Link)
      → SameMaps (record s { links = put id (lookup id s.links) (put id o s.links) }) s
  same_links s id o = record {
    nodes = λ k. refl;
    links = λ k. put_back id k o s.links;
    prefixes = λ k. refl;
    peers = λ k. refl;
    domains = λ k. refl;
  }

  same_prefixes :
      (s : Maps) (id : Text) (o : Option Prefix)
      → SameMaps (record s { prefixes = put id (lookup id s.prefixes) (put id o s.prefixes) }) s
  same_prefixes s id o = record {
    nodes = λ k. refl;
    links = λ k. refl;
    prefixes = λ k. put_back id k o s.prefixes;
    peers = λ k. refl;
    domains = λ k. refl;
  }

  same_peers :
      (s : Maps) (id : Text) (o : Option Peer)
      → SameMaps (record s { peers = put id (lookup id s.peers) (put id o s.peers) }) s
  same_peers s id o = record {
    nodes = λ k. refl;
    links = λ k. refl;
    prefixes = λ k. refl;
    peers = λ k. put_back id k o s.peers;
    domains = λ k. refl;
  }

  same_domains :
      (s : Maps) (id : Text) (o : Option Domain)
      → SameMaps (record s { domains = put id (lookup id s.domains) (put id o s.domains) }) s
  same_domains s id o = record {
    nodes = λ k. refl;
    links = λ k. refl;
    prefixes = λ k. refl;
    peers = λ k. refl;
    domains = λ k. put_back id k o s.domains;
  }

  pub undo-change :
      (kind : EntityKind) (id before : Text) (o : Option Message) (s : Maps)
      → Before s kind id before
      → OfKind kind o
      → SameMaps (undo_with json kind id before (change kind id o s)) s
  unfolding delete_entity upsert_entity lookup_locked
  undo-change EntityKind.node id before none s b h =
      rw (undo_with-node s (change EntityKind.node id none s) id before b) (same_nodes s id none)
  undo-change EntityKind.node id before (some (node_message v)) s b h =
      rw (undo_with-node s (change EntityKind.node id (some (node_message v)) s) id before b)
        (same_nodes s id (some v))
  undo-change EntityKind.link id before none s b h =
      rw (undo_with-link s (change EntityKind.link id none s) id before b) (same_links s id none)
  undo-change EntityKind.link id before (some (link_message v)) s b h =
      rw (undo_with-link s (change EntityKind.link id (some (link_message v)) s) id before b)
        (same_links s id (some v))
  undo-change EntityKind.prefix id before none s b h =
      rw (undo_with-prefix s (change EntityKind.prefix id none s) id before b)
        (same_prefixes s id none)
  undo-change EntityKind.prefix id before (some (prefix_message v)) s b h =
      rw (undo_with-prefix s (change EntityKind.prefix id (some (prefix_message v)) s) id before b)
        (same_prefixes s id (some v))
  undo-change EntityKind.peer id before none s b h =
      rw (undo_with-peer s (change EntityKind.peer id none s) id before b) (same_peers s id none)
  undo-change EntityKind.peer id before (some (peer_message v)) s b h =
      rw (undo_with-peer s (change EntityKind.peer id (some (peer_message v)) s) id before b)
        (same_peers s id (some v))
  undo-change EntityKind.unspecified id before none s b h =
      rw (undo_with-domain s (change EntityKind.unspecified id none s) id before b)
        (same_domains s id none)
  undo-change EntityKind.unspecified id before (some (domain_message v)) s b h =
      rw
        (undo_with-domain s (change EntityKind.unspecified id (some (domain_message v)) s) id before
          b)
        (same_domains s id (some v))
  undo-change (EntityKind.other n) id before o s (absent p e q) h = absurd (cc)
  undo-change (EntityKind.other n) id before o s (present p v e q plain) h = absurd (cc)
  undo-change kind id before (some v) s b h = absurd (cc)
