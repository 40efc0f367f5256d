-- ===== src/Store/Load/Reopened.antt =====
-- A store that is opened holds what its database holds.
use bg_pls.Base.{
  ◌≡◌, ◌≢◌, refl, sym, ap, ◌∙◌, inl, inr, Text, Option, none, some, List, [], ◌∷◌, ◌++◌, true,
  false, drop, All, Any, All-map, All-of-Any, text_eq, text_eq_iff, eq_of_text_eq, text_lt,
  text_lt_irrefl, Bool-cases, Option-cases,
}
use bg_pls.Base.Dict.{Dict, lookup, insert, lookup-insert}
use bg_pls.Store.Pebble.{Pebble, IsAscending}
use bg_pls.Store.Json.{Json}
use bg_pls.Store.Maps.{Maps}
use bg_pls.Store.State.{Store, Result, ok, err, unmarshal_failed}
use bg_pls.Store.Reads.{prefix_end, domain_key, node_key, link_key, prefix_key, peer_key}
use bg_pls.Store.Load.{
  load_kind, entries, domain_prefix, node_prefix, link_prefix, prefix_prefix, peer_prefix, opened,
  open_store,
}

append-cancel : (p x y : Text) → p ++ x ≡ p ++ y → x ≡ y
append-cancel [] x y h = h
append-cancel (c ∷ p) x y h = append-cancel p x y (ap (drop 1) h)

module _ {A : Type 0} (read : Text → Option A) (id : A → Text) (prefix : Text) where
  -- An entry decodes to an entity under whose id it stands.
  abbrev pub IsKeyed : Text × Text → Type 0
  IsKeyed e = (v : A) × (read e.1 ≡ some v) × (e.0 ≡ prefix ++ id v)

  load_kind-cons :
      (e : Text × Text) (es : List (Text × Text)) (m : Dict A) (v : A)
      → read e.1 ≡ some v
      → load_kind read id es (insert (id v) v m) ≡ load_kind read id (e ∷ es) m
  unfolding load_kind
  load_kind-cons e es m v h =
      let next : Option A → Result (Dict A) = λ o. elim o [
        | none ↦ err unmarshal_failed
        | some w ↦ load_kind read id es (insert (id w) w m)
      ] in
      ap next (sym h)

  -- What the loop over the entries of a prefix makes.
  record Loaded (es : List (Text × Text)) (m out : Dict A) : Type 0 where
    listed : (k b : Text) → Any (λ e. e ≡ (prefix ++ k, b)) es → lookup k out ≡ read b
    other : (k : Text) → All (λ e. e.0 ≢ prefix ++ k) es → lookup k out ≡ lookup k m

  load_kind-Loaded :
      (es : List (Text × Text)) (m : Dict A)
      → IsAscending es
      → All IsKeyed es
      → (out : Dict A) × (load_kind read id es m ≡ ok out) × Loaded es m out
  unfolding load_kind
  load_kind-Loaded [] m ascending keyed =
      (m, refl, record { listed = λ k b h. absurd h; other = λ k h. refl })
  load_kind-Loaded (e ∷ es) m ascending keyed =
      let (v, decoded, at_id) = keyed.0 in
      let (out, ran, rest) = load_kind-Loaded es (insert (id v) v m) ascending.1 keyed.1 in
      (
        out,
        sym (load_kind-cons e es m v decoded) ∙ ran,
        record {
          listed = λ k b h. elim h [
            | inr later ↦ rest.listed k b later
            | inl same ↦
                let here = append-cancel prefix (id v) k (sym at_id ∙ ap (λ x. x.0) same) in
                let past =
                  All-map _ (λ f. f.0 ≢ prefix ++ k) es
                    (λ f above clash.
                      let wrong = text_lt_irrefl e.0 in
                      absurd (cc (ap (text_lt e.0) (clash ∙ sym (ap (λ x. x.0) same)))))
                    ascending.0 in
                rest.other k past
                ∙ (lookup-insert (id v) k v m
                    ∙ rw ((text_eq_iff (id v) k).1 here)
                        (sym decoded ∙ ap read (ap (λ x. x.1) same)))
          ];
          other = λ k h.
              rest.other k h.1
              ∙ (lookup-insert (id v) k v m ∙ elim (Bool-cases (text_eq (id v) k)) [
                | inl clash ↦
                    absurd (h.0 (at_id ∙ ap (λ x. prefix ++ x) (eq_of_text_eq (id v) k clash)))
                | inr apart ↦ rw apart refl
              ]);
        },
      )

  module _ (pebble : Pebble) (json : Json) (db : pebble.Db) where
    -- Every key of the database under the prefix holds an entity that stands under its id.
    abbrev pub IsWellKeyed : Type 0
    IsWellKeyed =
        (k b : Text)
        → pebble.get db k ≡ some b
        → text_lt k prefix ≡ false
        → text_lt k (prefix_end prefix) ≡ true
        → IsKeyed (k, b)

    abbrev pub decoded : Option Text → Option A
    decoded none = none
    decoded (some b) = read b

    pub load_kind_lem :
        ((k : Text) → text_lt (prefix ++ k) prefix ≡ false)
        → ((k : Text) → text_lt (prefix ++ k) (prefix_end prefix) ≡ true)
        → IsWellKeyed
        → (out : Dict A) × (load_kind read id (entries pebble json db prefix) [] ≡ ok out)
          × ((k : Text) → lookup k out ≡ decoded (pebble.get db (prefix ++ k)))
    unfolding entries lookup
    load_kind_lem low high keyed =
        let es = pebble.scan db prefix (prefix_end prefix) in
        let all = All-of-Any IsKeyed es (λ e m.
          let (held, above, below) = (pebble.mem-scan db prefix (prefix_end prefix) e.0 e.1).0 m in
          keyed e.0 e.1 held above below) in
        let (out, ran, loaded) =
          load_kind-Loaded es [] (pebble.scan-IsAscending db prefix (prefix_end prefix)) all in
        (
          out,
          ran,
          (λ k. elim (Option-cases (pebble.get db (prefix ++ k))) [
            | inl absent ↦
                loaded.other k (
                  All-of-Any (λ e. e.0 ≢ prefix ++ k) es
                    (λ e m same.
                      let (held, _, _) =
                        (pebble.mem-scan db prefix (prefix_end prefix) e.0 e.1).0 m in
                      absurd (cc (ap (pebble.get db) same))))
                ∙ ap decoded (sym absent)
            | inr (b, held) ↦
                loaded.listed k b (
                  (pebble.mem-scan db prefix (prefix_end prefix) (prefix ++ k) b).1
                    (held, low k, high k))
                ∙ ap decoded (sym held)
          ]),
        )

module _ (pebble : Pebble) (json : Json) (db : pebble.Db) where
  -- What a store holds under an id is what the database holds under its key.
  abbrev pub Mirrors : {A : Type 0} → (Text → Option A) → Text → Dict A → Type 0
  Mirrors read prefix m =
      (k : Text) → lookup k m ≡ elim (pebble.get db (prefix ++ k)) [ none ↦ none | some b ↦ read b ]

  -- A database in which every key of an entity holds the entity of that id opens to a store that holds
  -- under each id what the database holds under its key, for every kind of entity.
  pub open_store-Mirrors :
      IsWellKeyed json.unmarshal_domain domain_key domain_prefix pebble json db
      → IsWellKeyed json.unmarshal_node node_key node_prefix pebble json db
      → IsWellKeyed json.unmarshal_link link_key link_prefix pebble json db
      → IsWellKeyed json.unmarshal_prefix prefix_key prefix_prefix pebble json db
      → IsWellKeyed json.unmarshal_peer peer_key peer_prefix pebble json db
      → (s : Store pebble json) × (open_store pebble json db ≡ ok s)
        × (s.db ≡ db)
        × Mirrors json.unmarshal_domain domain_prefix s.maps.domains
        × Mirrors json.unmarshal_node node_prefix s.maps.nodes
        × Mirrors json.unmarshal_link link_prefix s.maps.links
        × Mirrors json.unmarshal_prefix prefix_prefix s.maps.prefixes
        × Mirrors json.unmarshal_peer peer_prefix s.maps.peers
  unfolding open_store text_lt prefix_end
  open_store-Mirrors domains_keyed nodes_keyed links_keyed prefixes_keyed peers_keyed =
      let (domains, read_domains, d) =
        load_kind_lem json.unmarshal_domain domain_key domain_prefix pebble json db (λ k. refl)
          (λ k. refl) domains_keyed in
      let (nodes, read_nodes, n) =
        load_kind_lem json.unmarshal_node node_key node_prefix pebble json db (λ k. refl)
          (λ k. refl) nodes_keyed in
      let (links, read_links, l) =
        load_kind_lem json.unmarshal_link link_key link_prefix pebble json db (λ k. refl)
          (λ k. refl) links_keyed in
      let (prefixes, read_prefixes, x) =
        load_kind_lem json.unmarshal_prefix prefix_key prefix_prefix pebble json db (λ k. refl)
          (λ k. refl) prefixes_keyed in
      let (peers, read_peers, p) =
        load_kind_lem json.unmarshal_peer peer_key peer_prefix pebble json db (λ k. refl)
          (λ k. refl) peers_keyed in
      let maps : Maps = record {
        nodes = nodes;
        links = links;
        prefixes = prefixes;
        peers = peers;
        domains = domains;
      } in
      (
        opened pebble json db maps,
        rw (read_domains, read_nodes, read_links, read_prefixes, read_peers) refl,
        refl,
        d,
        n,
        l,
        x,
        p,
      )
