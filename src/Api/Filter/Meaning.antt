-- ===== src/Api/Filter/Meaning.antt =====
-- What a topology filter asks of a node.
use mathlib.Core.Bool.{false≢true}
use bg_pls.Base.{
  sym, ℕ, ◌≡◌, ◌≢◌, ◌↔◌, ◌⊎◌, inl, inr, refl, Text, some, List, [], ◌∷◌, Bool, true, false, ◌&&◌,
  ◌==◌, any, Any, text_eq, text_eq_iff, arith,
}
use bg_pls.Base.Anys.{any-true}
use bg_pls.Base.Ascii.{to_lower, contains}
use bg_pls.Entities.{Freshness, freshness_active, EntityMeta, get_meta, Node}
use bg_pls.Api.Filter.{
  TopologyFilter, no_entries, contains_string, contains_freshness, sources_match, meta_match,
  number_match, query_match, node_match,
}

-- An empty list asks for nothing; another wants the value among its own.
abbrev pub Among : {A : Type 0} → A → List A → Type 0
Among v wanted = (wanted ≡ []) ⊎ Any (λ w. w ≡ v) wanted

pub contains_string_iff :
    (wanted : List Text) (v : Text) → (contains_string wanted v ≡ true) ↔ Among v wanted
unfolding contains_string
contains_string_iff [] v = (λ h. inl refl, λ h. refl)
contains_string_iff (w ∷ ws) v =
    ground (arith, any-true (λ x. text_eq x v) (λ x. x ≡ v) (λ x. text_eq_iff x v) (w ∷ ws))

number_match_iff : (wanted : List ℕ) (n : ℕ) → (number_match wanted n ≡ true) ↔ Among n wanted
unfolding number_match
number_match_iff [] n = (λ h. inl refl, λ h. refl)
number_match_iff (w ∷ ws) n =
    ground (arith, any-true (λ x. x == n) (λ x. x ≡ n) (λ x. ground arith) (w ∷ ws))

contains_freshness_iff :
    (wanted : List Freshness) (v : Freshness)
    → (contains_freshness wanted v ≡ true)
      ↔ (((wanted ≡ []) × (v ≡ freshness_active)) ⊎ Any (λ w. w ≡ v) wanted)
unfolding contains_freshness
contains_freshness_iff [] v = ground arith
contains_freshness_iff (w ∷ ws) v =
    ground (arith, any-true (λ x. x == v) (λ x. x ≡ v) (λ x. ground arith) (w ∷ ws))

sources_match_iff :
    (wanted sources : List Text)
    → (sources_match wanted sources ≡ true)
      ↔ ((wanted ≡ []) ⊎ Any (λ w. Any (λ s. w ≡ s) sources) wanted)
unfolding sources_match
sources_match_iff [] sources = (λ h. inl refl, λ h. refl)
sources_match_iff (w ∷ ws) sources = ground (
  arith,
  any-true (λ x. any (λ s. text_eq x s) sources) (λ x. Any (λ s. x ≡ s) sources)
      (λ x. any-true (λ s. text_eq x s) (λ s. x ≡ s) (λ s. text_eq_iff x s) sources) (w ∷ ws),
)

-- One of the fields contains the query, whatever the case of their letters.
abbrev pub Mentions : Text → List Text → Type 0
Mentions query fields =
    (query ≡ []) ⊎ Any (λ t. contains (to_lower t) (to_lower query) ≡ true) fields

query_match_iff :
    (query : Text) (fields : List Text) → (query_match query fields ≡ true) ↔ Mentions query fields
unfolding query_match
query_match_iff [] fields = (λ h. inl refl, λ h. refl)
query_match_iff (q ∷ qs) fields = ground (
  arith,
  any-true (λ t. contains (to_lower t) (to_lower (q ∷ qs)))
      (λ t. contains (to_lower t) (to_lower (q ∷ qs)) ≡ true) (λ t. (λ h. h, λ h. h)) fields,
)

-- What a filter asks of an entity's metadata, in words of the request.
pub record MetaAdmits (f : TopologyFilter) (m : EntityMeta) : Type 0 where
  pub domain : Among m.domain_id f.domain_ids
  pub fresh :
      ((f.freshness ≡ []) × (m.freshness ≡ freshness_active))
      ⊎ Any (λ w. w ≡ m.freshness) f.freshness
  pub source :
      (f.source_peer_ids ≡ []) ⊎ Any (λ w. Any (λ s. w ≡ s) m.source_peer_ids) f.source_peer_ids
  pub conflicting : (f.conflicts_only ≡ false) ⊎ (m.conflicts ≢ [])

conflicting_iff {ℓ} :
    {A : Type ℓ} (only : Bool) (xs : List A)
    → (only && no_entries xs ≡ false) ↔ ((only ≡ false) ⊎ (xs ≢ []))
conflicting_iff false xs = (λ h. inl refl, λ h. refl)
conflicting_iff true [] = (
  λ h. absurd (false≢true (sym h)),
  λ h. elim h [ inl e ↦ absurd (false≢true (sym e)) | inr k ↦ absurd (k refl) ],
)
conflicting_iff true (x ∷ xs) = (λ h. inr (λ e. cc), λ h. refl)

meta_match_iff : (f : TopologyFilter) (m : EntityMeta) → (meta_match m f ≡ true) ↔ MetaAdmits f m
unfolding meta_match
meta_match_iff f m =
    let domain = contains_string_iff f.domain_ids m.domain_id in
    let fresh = contains_freshness_iff f.freshness m.freshness in
    let source = sources_match_iff f.source_peer_ids m.source_peer_ids in
    (
      λ h. record {
        domain = domain.0 (ground arith);
        fresh = fresh.0 (ground arith);
        source = source.0 (ground arith);
        conflicting = (conflicting_iff f.conflicts_only m.conflicts).0 (ground arith);
      },
      λ h.
          let in_domain = domain.1 h.domain in
          let is_fresh = fresh.1 h.fresh in
          let from_source = source.1 h.source in
          let conflicted = (conflicting_iff f.conflicts_only m.conflicts).1 h.conflicting in
          ground arith,
    )

-- What a filter asks of a node.
pub record NodeAdmits (f : TopologyFilter) (n : Node) : Type 0 where
  pub meta : MetaAdmits f (get_meta n.meta)
  pub protocol : Among n.protocol f.protocols
  pub mentioned : Mentions f.query (
      (get_meta n.meta).id
      ∷ n.name
      ∷ n.igp_router_id
      ∷ n.bgp_router_id
      ∷ n.ipv4_router_id
      ∷ n.ipv6_router_id
      ∷ [])

-- A node passes a filter exactly if the filter's domains, freshness, sources, conflicts, protocols
-- and query all admit it, where an empty list of domains, sources or protocols admits everything, an
-- empty list of freshness only active nodes, and the query is looked for in the node's id, names
-- and router ids whatever the case of ASCII letters.
pub node_match_iff :
    (n : Node) (f : TopologyFilter) → (node_match n (some f) ≡ true) ↔ NodeAdmits f n
unfolding node_match
node_match_iff n f =
    let meta = meta_match_iff f (get_meta n.meta) in
    let protocol = number_match_iff f.protocols n.protocol in
    let mentioned = query_match_iff f.query (
      (get_meta n.meta).id
      ∷ n.name
      ∷ n.igp_router_id
      ∷ n.bgp_router_id
      ∷ n.ipv4_router_id
      ∷ n.ipv6_router_id
      ∷ []) in
    (
      λ h. record {
        meta = meta.0 (ground arith);
        protocol = protocol.0 (ground arith);
        mentioned = mentioned.0 (ground arith);
      },
      λ h.
          let meta_fits = meta.1 h.meta in
          let protocol_fits = protocol.1 h.protocol in
          let query_fits = mentioned.1 h.mentioned in ground arith,
    )
