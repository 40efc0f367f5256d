-- ===== src/Tests/Reopen.antt =====
-- A store that is opened on a database with one domain.
use mathlib.Core.Bool.{false≢true}
use bg_pls.Base.{
  ◌≡◌, refl, sym, ap, ◌∙◌, inl, inr, Text, text, some, [], ◌∷◌, true, false, text_eq, text_lt,
  eq_of_text_eq, Bool-cases, arith,
}
use bg_pls.Base.Dict.{Dict, lookup}
use bg_pls.Store.State.{Store, ok}
use bg_pls.Store.Reads.{domain_key}
use bg_pls.Store.Load.{
  domain_prefix, node_prefix, link_prefix, prefix_prefix, peer_prefix, open_store,
}
use bg_pls.Store.Load.Reopened.{IsWellKeyed, Mirrors, open_store-Mirrors}
use bg_pls.Tests.Memory.{memory, codec, read_domain}

abbrev written : Text
written = b'{' ∷ 7 ∷ text "d"

abbrev filed : Dict Text
filed = (text "domain/d", written) ∷ []

get-filed : (k b : Text) → lookup k filed ≡ some b → (text "domain/d" ≡ k) × (written ≡ b)
unfolding lookup
get-filed k b h = elim (Bool-cases (text_eq (text "domain/d") k)) [
  | inl same ↦ (eq_of_text_eq (text "domain/d") k same, ground arith)
  | inr other ↦ absurd (ground arith)
]

domains_keyed : IsWellKeyed read_domain domain_key domain_prefix memory codec filed
domains_keyed k b held above below =
    let (at, value) = get-filed k b held in
    (
      record { id = text "d"; name = []; description = []; revision = 7 },
      ap read_domain (sym value),
      sym at,
    )

-- No key of the database lies above `domain/d`.
none_above :
    {B : Type 0} (lo k b : Text)
    → text_lt (text "domain/d") lo ≡ true
    → lookup k filed ≡ some b
    → text_lt k lo ≡ false
    → B
none_above lo k b past held above =
    let (at, value) = get-filed k b held in
    absurd (false≢true (sym above ∙ ap (λ x. text_lt x lo) (sym at) ∙ past))

open_store-Mirrors_example :
    (s : Store memory codec) × (open_store memory codec filed ≡ ok s)
    × (s.db ≡ filed)
    × Mirrors memory codec filed read_domain domain_prefix s.maps.domains
    × Mirrors memory codec filed codec.unmarshal_node node_prefix s.maps.nodes
    × Mirrors memory codec filed codec.unmarshal_link link_prefix s.maps.links
    × Mirrors memory codec filed codec.unmarshal_prefix prefix_prefix s.maps.prefixes
    × Mirrors memory codec filed codec.unmarshal_peer peer_prefix s.maps.peers
unfolding text_lt
open_store-Mirrors_example =
    open_store-Mirrors memory codec filed domains_keyed
      (λ k b held above below. none_above node_prefix k b refl held above)
      (λ k b held above below. none_above link_prefix k b refl held above)
      (λ k b held above below. none_above prefix_prefix k b refl held above)
      (λ k b held above below. none_above peer_prefix k b refl held above)
