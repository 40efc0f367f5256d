-- ===== src/Bgp/Collector/Linked.antt =====
-- Every address leads to a peer with that address, unless an update has changed an address.
use mathlib.Core.Path.{subst₂}
use bg_pls.Base.{
  Text, none, some, false, ◌≡◌, ◌≢◌, refl, sym, ap, ◌∙◌, inl, inr, ◌⊎◌, text_eq, text_eq_iff,
  eq_of_text_eq, text_eq_refl, arith, Option-cases, Bool-cases,
}
use bg_pls.Base.Dict.{Dict, lookup, insert, erase, lookup-insert, lookup-erase}
use bg_pls.Entities.{Peer}
use bg_pls.Bgp.Collector.{Engine, Collector, nil_peer, upsert, delete, peer_for_address}

module _ (engine : Engine) where
  abbrev pub LinkedTables : Dict Peer → Dict Text → Type 0
  LinkedTables peers by_address =
      (a id : Text)
      → lookup a by_address ≡ some id
      → (p : Peer) × (lookup id peers ≡ some p) × (p.remote_address ≡ a)

  -- Every address in use leads to a peer that has it.
  abbrev pub IsLinked : Collector engine → Type 0
  IsLinked c = LinkedTables c.peers c.by_address

  -- An update does not move a peer that the collector already has.
  abbrev pub KeepsAddress : Peer → Collector engine → Type 0
  KeepsAddress p c =
      (lookup p.id c.peers ≡ none)
      ⊎ ((old : Peer) × (lookup p.id c.peers ≡ some old) × (old.remote_address ≡ p.remote_address))

  -- An address that the update does not concern does not lead to the updated peer.
  pub unmoved :
      (p : Peer) (c : Collector engine)
      → IsLinked c
      → KeepsAddress p c
      → (a id : Text) → lookup a c.by_address ≡ some id
      → text_eq p.remote_address a ≡ false
      → text_eq p.id id ≡ false
  unmoved p c linked keeps a id used other =
      let (q, there, there_addr) = linked a id used in
      elim (Bool-cases (text_eq p.id id)) [
        | inr apart ↦ apart
        | inl moved ↦
            absurd (ground (arith, keeps, eq_of_text_eq p.id id, text_eq_iff p.remote_address a))
      ]

  linked-insert :
      (p : Peer) (c : Collector engine)
      → IsLinked c
      → KeepsAddress p c
      → (a id : Text) → lookup a (insert p.remote_address p.id c.by_address) ≡ some id
      → (q : Peer) × (lookup id (insert p.id p c.peers) ≡ some q) × (q.remote_address ≡ a)
  linked-insert p c linked keeps a id h =
      let by_addr = lookup-insert p.remote_address a p.id c.by_address in
      let by_id = lookup-insert p.id id p c.peers in
      elim (Bool-cases (text_eq p.remote_address a)) [
        | inl same ↦
            (p, ground (arith, by_addr, by_id, text_eq_iff p.id id), eq_of_text_eq _ _ same)
        | inr other ↦
            let used : lookup a c.by_address ≡ some id = ground (arith, by_addr) in
            let (q, there, there_addr) = linked a id used in
            let apart = unmoved p c linked keeps a id used other in
            (q, ground (arith, by_id), there_addr)
      ]

  linked-erase :
      (id : Text) (p : Peer) (c : Collector engine)
      → IsLinked c
      → lookup id c.peers ≡ some p
      → (a j : Text) → lookup a (erase p.remote_address c.by_address) ≡ some j
      → (q : Peer) × (lookup j (erase id c.peers) ≡ some q) × (q.remote_address ≡ a)
  linked-erase id p c linked there a j h =
      let by_addr = lookup-erase p.remote_address a c.by_address in
      let by_id = lookup-erase id j c.peers in
      elim (Bool-cases (text_eq p.remote_address a)) [
        | inl same ↦ absurd (ground (arith, by_addr))
        | inr other ↦
            let (q, q_there, q_addr) = linked a j (ground (arith, by_addr)) in
            elim (Bool-cases (text_eq id j)) [
              | inl gone ↦
                  absurd (ground (arith, eq_of_text_eq id j, text_eq_iff p.remote_address a))
              | inr apart ↦ (q, ground (arith, by_id), q_addr)
            ]
      ]

  upsert_cases :
      (p : Peer) (c : Collector engine)
      → (((upsert engine p c).0.peers ≡ c.peers)
          × ((upsert engine p c).0.by_address ≡ c.by_address))
        ⊎ (((upsert engine p c).0.peers ≡ insert p.id p c.peers)
            × ((upsert engine p c).0.by_address ≡ insert p.remote_address p.id c.by_address))
  unfolding upsert
  upsert_cases p c = ground arith

  delete_cases :
      (id : Text) (c : Collector engine)
      → (((delete engine id c).0.peers ≡ c.peers)
          × ((delete engine id c).0.by_address ≡ c.by_address))
        ⊎ ((p : Peer) × (lookup id c.peers ≡ some p)
            × ((delete engine id c).0.peers ≡ erase id c.peers)
            × ((delete engine id c).0.by_address ≡ erase p.remote_address c.by_address))
  unfolding delete
  delete_cases id c = elim (Option-cases (lookup id c.peers)) [
    | inl gone ↦ inl (ground arith)
    | inr (p, there) ↦ elim (Bool-cases (engine.delete_peer c.server p.remote_address).1) [
      | inl done ↦ inr (p, there, ground arith, ground arith)
      | inr refused ↦ inl (ground arith)
    ]
  ]

  -- An update of a new peer, or of one at the address that it had, keeps every address linked,
  -- whether or not the engine takes the peer.
  pub upsert-IsLinked :
      (p : Peer) (c : Collector engine)
      → IsLinked c
      → KeepsAddress p c
      → IsLinked (upsert engine p c).0
  upsert-IsLinked p c linked keeps = elim (upsert_cases p c) [
    | inl (peers, addresses) ↦ subst₂ LinkedTables (sym peers) (sym addresses) linked
    | inr (peers, addresses) ↦
        subst₂ LinkedTables (sym peers) (sym addresses) (linked-insert p c linked keeps)
  ]

  -- A deletion keeps every address linked, whether or not there is such a peer and the engine
  -- lets it go.
  pub delete-IsLinked :
      (id : Text) (c : Collector engine) → IsLinked c → IsLinked (delete engine id c).0
  delete-IsLinked id c linked = elim (delete_cases id c) [
    | inl (peers, addresses) ↦ subst₂ LinkedTables (sym peers) (sym addresses) linked
    | inr (p, there, peers, addresses) ↦
        subst₂ LinkedTables (sym peers) (sym addresses) (linked-erase id p c linked there)
  ]

  pub upsert_done :
      (p : Peer) (c : Collector engine)
      → (upsert engine p c).1 ≡ none
      → ((upsert engine p c).0.peers ≡ insert p.id p c.peers)
        × ((upsert engine p c).0.by_address ≡ insert p.remote_address p.id c.by_address)
  unfolding upsert
  upsert_done p c h = ground arith

  pub delete_done :
      (id : Text) (q : Peer) (c : Collector engine)
      → lookup id c.peers ≡ some q
      → (delete engine id c).1 ≡ none
      → ((delete engine id c).0.peers ≡ erase id c.peers)
        × ((delete engine id c).0.by_address ≡ erase q.remote_address c.by_address)
  unfolding delete
  delete_done id q c there h = ground arith

  dangling :
      (a id : Text) (c : Collector engine)
      → lookup a c.by_address ≡ some id
      → lookup id c.peers ≡ none
      → peer_for_address engine a c ≡ nil_peer
  unfolding peer_for_address
  dangling a id c used gone = ground arith

  -- After a peer that the collector had at another address, by which it was found, has been updated
  -- and then deleted, with the engine accepting both, its first address leads to a nil peer.
  pub moved_peer_dangles :
      (p old : Peer) (c : Collector engine)
      → lookup p.id c.peers ≡ some old
      → lookup old.remote_address c.by_address ≡ some p.id
      → old.remote_address ≢ p.remote_address
      → (upsert engine p c).1 ≡ none
      → (delete engine p.id (upsert engine p c).0).1 ≡ none
      → peer_for_address engine old.remote_address (delete engine p.id (upsert engine p c).0).0
        ≡ nil_peer
  moved_peer_dangles p old c had at_old moved upserted deleted =
      let c' = (upsert engine p c).0 in
      let (peers, addresses) = upsert_done p c upserted in
      let there : lookup p.id c'.peers ≡ some p =
        ap (lookup p.id) peers ∙ lookup-insert p.id p.id p c.peers ∙ rw (text_eq_refl p.id) refl in
      let (peers', addresses') = delete_done p.id p c' there deleted in
      let kept : lookup old.remote_address c'.by_address ≡ some p.id =
        ap (lookup old.remote_address) addresses
        ∙ ground (
          arith,
          lookup-insert p.remote_address old.remote_address p.id c.by_address,
          text_eq_iff p.remote_address old.remote_address,
        ) in
      dangling old.remote_address p.id (delete engine p.id c').0
        (ap (lookup old.remote_address) addresses'
          ∙ ground (
            arith,
            lookup-erase p.remote_address old.remote_address c'.by_address,
            text_eq_iff p.remote_address old.remote_address,
          ))
        (ap (lookup p.id) peers' ∙ lookup-erase p.id p.id c'.peers ∙ rw (text_eq_refl p.id) refl)
