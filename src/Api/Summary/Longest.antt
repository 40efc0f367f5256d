-- ===== src/Api/Summary/Longest.antt =====
-- The node that an address resolves to.
use bg_pls.Base.{
  ℕ, ◌≤◌, ◌≡◌, refl, ap, ◌∙◌, subst, inl, inr, ◌⊎◌, ◌↔◌, true, text_eq_iff, Text, Option, none,
  some, List, [], ◌∷◌, Bool, ltb, find?, All, Any, All-map, Any-map, arith, Bool-cases,
  Option-cases,
}
use bg_pls.Entities.{get_meta, Prefix}
use bg_pls.Store.Reads.{Snapshot}
use bg_pls.Api.Summary.{
  is_named, match_bits, better, longest, origin_of, resolve_addr, resolve_named, resolve_node_id,
}

module _ {Addr IpPrefix : Type 0} (parse_addr : Text → Option Addr)
    (parse_prefix : Text → Option IpPrefix) (covers : IpPrefix → Addr → Bool) (bits : IpPrefix → ℕ)
    (domain : Text) (addr : Addr) where
  abbrev bits_of : Prefix → Option ℕ
  bits_of = match_bits parse_addr parse_prefix covers bits domain addr

  -- The prefix is of the domain and contains the address, with a length of `n`.
  abbrev pub Contains : Prefix → ℕ → Type 0
  Contains p n =
      ((get_meta p.meta).domain_id ≡ domain)
      × (range : IpPrefix) × (parse_prefix p.prefix ≡ some range)
      × (covers range addr ≡ true)
      × (bits range ≡ n)

  bits_of-some : (p : Prefix) (n : ℕ) → (bits_of p ≡ some n) ↔ Contains p n
  unfolding match_bits
  bits_of-some p n =
      let same = text_eq_iff (get_meta p.meta).domain_id domain in
      elim (Option-cases (parse_prefix p.prefix)) [
        | inl bad ↦ (λ h. absurd (ground (arith, same)), λ h. absurd (ground arith))
        | inr (range, parsed) ↦ (
          λ h. (ground (arith, same), range, parsed, ground (arith, same), ground (arith, same)),
          λ (here, other, parsed', inside, size).
              let e : range ≡ other = cc in ground (arith, same, ap covers e, ap bits e),
        )
      ]

  abbrev choose : Option ℕ → Text → Option (ℕ × Text) → Option (ℕ × Text)
  choose = better parse_addr parse_prefix covers bits

  -- A best match is at least as long as another.
  abbrev IsAbove : Option (ℕ × Text) → ℕ → Type 0
  IsAbove none n = ⊥
  IsAbove (some best) n = n ≤ best.0

  better_cases :
      (o : Option ℕ) (origin : Text) (best : Option (ℕ × Text))
      → (((n : ℕ) → o ≡ some n → IsAbove (choose o origin best) n)
          × ((n : ℕ) → IsAbove best n → IsAbove (choose o origin best) n))
        × ((choose o origin best ≡ best)
            ⊎ ((n : ℕ) × (o ≡ some n) × (choose o origin best ≡ some (n, origin))))
  unfolding better
  better_cases none origin best = (((λ n h. absurd (cc)), (λ n h. h)), inl refl)
  better_cases (some n) origin none =
      (((λ m h. let e : n ≡ m = cc in omega (arith, e)), (λ m h. absurd h)), inr (n, refl, refl))
  better_cases (some n) origin (some best) = elim (Bool-cases (ltb best.0 n)) [
    | inl longer ↦ rw longer (
      ((λ m h. let e : n ≡ m = cc in omega (arith, e)), (λ m h. ground arith)),
      inr (n, refl, refl),
    )
    | inr shorter ↦
        rw shorter (((λ m h. let e : n ≡ m = cc in ground (arith, e)), (λ m h. h)), inl refl)
  ]

  -- What the loop over the prefixes has found.
  record Longest (ps : List Prefix) (best out : Option (ℕ × Text)) : Type 0 where
    above_all : All (λ p. (n : ℕ) → bits_of p ≡ some n → IsAbove out n) ps
    above_best : (n : ℕ) → IsAbove best n → IsAbove out n
    source :
        (out ≡ best)
        ⊎ Any (λ p. (n : ℕ) × (bits_of p ≡ some n) × (out ≡ some (n, p.origin_node_id))) ps

  longest-Longest :
      (ps : List Prefix) (best : Option (ℕ × Text))
      → Longest ps best (longest parse_addr parse_prefix covers bits domain addr ps best)
  unfolding longest
  longest-Longest [] best = record { above_all = tt; above_best = λ n h. h; source = inl refl }
  longest-Longest (p ∷ ps) best =
      let ((here, before), from) = better_cases (bits_of p) p.origin_node_id best in
      let next = choose (bits_of p) p.origin_node_id best in
      let rest = longest-Longest ps next in
      record {
        above_all = ((λ n h. rest.above_best n (here n h)), rest.above_all);
        above_best = λ n h. rest.above_best n (before n h);
        source = elim rest.source [
          | inr later ↦ inr (inr later)
          | inl same ↦ elim from [
            | inl old ↦ inl (same ∙ old)
            | inr (n, e, chosen) ↦ inr (inl (n, e, same ∙ chosen))
          ]
        ];
      }

  resolve-some :
      (snap : Snapshot) (q : Text) (out : Option (ℕ × Text))
      → find? (is_named domain q) snap.nodes ≡ none
      → parse_addr q ≡ some addr
      → longest parse_addr parse_prefix covers bits domain addr snap.prefixes none ≡ out
      → resolve_node_id parse_addr parse_prefix covers bits snap domain q
        ≡ origin_of parse_addr parse_prefix covers bits out
  unfolding resolve_node_id resolve_named resolve_addr
  resolve-some snap q out unnamed parsed found =
      ap (resolve_named parse_addr parse_prefix covers bits snap domain q) unnamed
      ∙ (ap (resolve_addr parse_addr parse_prefix covers bits snap domain) parsed
          ∙ ap (origin_of parse_addr parse_prefix covers bits) found)

  -- An address that names no node of the domain resolves to the origin of a longest prefix of the domain
  -- that contains it, and to nothing when no prefix of the domain contains it.
  pub resolve_node_id_lem :
      (snap : Snapshot) (q : Text)
      → find? (is_named domain q) snap.nodes ≡ none
      → parse_addr q ≡ some addr
      → (Any
          (λ p.
            (n : ℕ) × Contains p n
            × (resolve_node_id parse_addr parse_prefix covers bits snap domain q ≡ p.origin_node_id)
            × All (λ r. (m : ℕ) → Contains r m → m ≤ n) snap.prefixes)
          snap.prefixes)
        ⊎ ((resolve_node_id parse_addr parse_prefix covers bits snap domain q ≡ [])
            × All (λ r. (m : ℕ) → ¬ Contains r m) snap.prefixes)
  unfolding origin_of
  resolve_node_id_lem snap q unnamed parsed =
      let l = longest-Longest snap.prefixes none in
      let out = longest parse_addr parse_prefix covers bits domain addr snap.prefixes none in
      elim l.source [
        | inl nothing ↦ inr (
          resolve-some snap q none unnamed parsed nothing,
          All-map _ _ snap.prefixes
              (λ p h n inside. subst (λ x. IsAbove x n) nothing (h n ((bits_of-some p n).1 inside)))
              l.above_all,
        )
        | inr found ↦ inl (
            Any-map _ _ snap.prefixes
              (λ p (n, e, chosen). (
                n,
                (bits_of-some p n).0 e,
                resolve-some snap q (some (n, p.origin_node_id)) unnamed parsed chosen,
                All-map _ _ snap.prefixes
                    (λ r h m hm. subst (λ x. IsAbove x m) chosen (h m ((bits_of-some r m).1 hm)))
                    l.above_all,
              ))
              found)
      ]
