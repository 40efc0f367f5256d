-- ===== src/Api/Summary/Counted.antt =====
-- What the summary counts and what Resolve finds.
use bg_pls.Base.{
  ℕ, zero, suc, ◌+◌, ◌-◌, ◌<◌, ◌≡◌, refl, sym, ap, ◌∙◌, subst, inl, inr, Text, Option, List, [],
  ◌∷◌, ◌++◌, Bool, true, false, ◌&&◌, leb, length, length-append, filter, take, append-nil,
  append_assoc, arith, Bool-cases, if◌then◌else◌,
}
use bg_pls.Base.Ascii.{to_lower}
use bg_pls.Entities.{EntityMeta, get_meta, Node, Link, Prefix}
use bg_pls.Store.Reads.{Snapshot}
use bg_pls.Api.Filter.{TopologyFilter, node_match, link_match, prefix_match}
use bg_pls.Api.Summary.{
  Tally, is_stale, has_conflicts, count_meta, count_all, summary, find_some, in_domain, node_hit,
  link_hit, prefix_hit, resolve_limit, resolve,
}

-- How many entities pass two tests.
abbrev pub number : {A : Type 0} → (A → Bool) → (A → Bool) → List A → ℕ
number matches counts vs = length (filter counts (filter matches vs))

length-filter-cons :
    {A : Type 0} (p : A → Bool) (v : A) (vs : List A) (k : ℕ)
    → length (filter p (v ∷ vs)) + k ≡ length (filter p vs) + (if p v then k + 1 else k)
length-filter-cons p v vs k = elim (Bool-cases (p v)) [
  | inl yes_it ↦ rw yes_it (omega arith)
  | inr not_it ↦ rw not_it refl
]

-- What a loop has counted of the entities that the filter admits.
record CountsOf {A : Type 0} (meta : A → EntityMeta) (n : ℕ) (tally : Tally) (admitted : List A)
    (out : ℕ × Tally) : Type 0 where
  all : out.0 ≡ n + length admitted
  conflicts :
      out.1.conflicts ≡ tally.conflicts + length (filter (λ v. has_conflicts (meta v)) admitted)
  stale : out.1.stale ≡ tally.stale + length (filter (λ v. is_stale (meta v)) admitted)

count_all-CountsOf :
    {A : Type 0} (meta : A → EntityMeta) (matches : A → Bool) (vs : List A) (n : ℕ) (tally : Tally)
    → CountsOf meta n tally (filter matches vs) (count_all meta matches vs (n, tally))
unfolding count_all count_meta
count_all-CountsOf meta matches [] n tally = record {
  all = omega arith;
  conflicts = omega arith;
  stale = omega arith;
}
count_all-CountsOf meta matches (v ∷ vs) n tally = elim (Bool-cases (matches v)) [
  | inr other ↦ let ih = count_all-CountsOf meta matches vs n tally in rw other ih
  | inl match ↦
      let next = count_meta (meta v) tally in
      let ih = count_all-CountsOf meta matches vs (n + 1) next in
      let c : next.conflicts
          ≡ (if has_conflicts (meta v) then tally.conflicts + 1 else tally.conflicts) =
        refl in
      let d : next.stale ≡ (if is_stale (meta v) then tally.stale + 1 else tally.stale) = refl in
      rw match (record {
        all = omega (arith, ih.all);
        conflicts = omega (
          arith,
          ih.conflicts,
          c,
          length-filter-cons (λ x. has_conflicts (meta x)) v (filter matches vs) tally.conflicts,
        );
        stale = omega (
          arith,
          ih.stale,
          d,
          length-filter-cons (λ x. is_stale (meta x)) v (filter matches vs) tally.stale,
        );
      })
]

-- The summary counts the entities that the lists of nodes, links and prefixes show, and among them those
-- with conflicts and those that are not active.
pub summary_lem :
    (f : Option TopologyFilter) (snap : Snapshot)
    → ((summary f snap).node_count ≡ length (filter (λ v. node_match v f) snap.nodes))
      × ((summary f snap).link_count ≡ length (filter (λ v. link_match v f) snap.links))
      × ((summary f snap).prefix_count ≡ length (filter (λ v. prefix_match v f) snap.prefixes))
      × ((summary f snap).conflict_count
          ≡ number (λ v. node_match v f) (λ v. has_conflicts (get_meta v.meta)) snap.nodes
            + number (λ v. link_match v f) (λ v. has_conflicts (get_meta v.meta)) snap.links
            + number (λ v. prefix_match v f) (λ v. has_conflicts (get_meta v.meta)) snap.prefixes)
      × ((summary f snap).stale_count
          ≡ number (λ v. node_match v f) (λ v. is_stale (get_meta v.meta)) snap.nodes
            + number (λ v. link_match v f) (λ v. is_stale (get_meta v.meta)) snap.links
            + number (λ v. prefix_match v f) (λ v. is_stale (get_meta v.meta)) snap.prefixes)
unfolding summary
summary_lem f snap =
    let zero_tally : Tally = record { domains = []; conflicts = 0; stale = 0 } in
    let one =
      count_all-CountsOf (λ (v : Node). get_meta v.meta) (λ v. node_match v f) snap.nodes 0
        zero_tally in
    let after_one =
      count_all (λ (v : Node). get_meta v.meta) (λ v. node_match v f) snap.nodes (0, zero_tally) in
    let two =
      count_all-CountsOf (λ (v : Link). get_meta v.meta) (λ v. link_match v f) snap.links 0
        after_one.1 in
    let after_two =
      count_all (λ (v : Link). get_meta v.meta) (λ v. link_match v f) snap.links (0, after_one.1) in
    let three =
      count_all-CountsOf (λ (v : Prefix). get_meta v.meta) (λ v. prefix_match v f) snap.prefixes 0
        after_two.1 in
    (
      omega (arith, one.all),
      omega (arith, two.all),
      omega (arith, three.all),
      omega (arith, one.conflicts, two.conflicts, three.conflicts),
      omega (arith, one.stale, two.stale, three.stale),
    )

take_nil : {A : Type 0} (k : ℕ) → take {A = A} k [] ≡ []
take_nil zero = refl
take_nil (suc k) = refl

take_one : {A : Type 0} {k : ℕ} (v : A) (vs : List A) → k ≡ 1 → take k (v ∷ vs) ≡ v ∷ []
take_one {A} v vs h = subst (λ n. take n (v ∷ vs) ≡ v ∷ []) (sym h) refl

take_more :
    {A : Type 0} {k j : ℕ} (v : A) (vs : List A) → k ≡ suc j → take k (v ∷ vs) ≡ v ∷ take j vs
take_more {j = j} v vs h = subst (λ n. take n (v ∷ vs) ≡ v ∷ take j vs) (sym h) refl

only_one :
    {A : Type 0} (limit : ℕ) (out : List A) (v : A)
    → length out < limit
    → leb limit (length (out ++ v ∷ [])) ≡ true
    → limit - length out ≡ 1
only_one limit out v lt full = let n = length-append out (v ∷ []) in ground arith

still_room :
    {A : Type 0} (limit : ℕ) (out : List A) (v : A)
    → length out < limit
    → leb limit (length (out ++ v ∷ [])) ≡ false
    → length (out ++ v ∷ []) < limit
still_room limit out v lt room = ground arith

one_less :
    {A : Type 0} (limit : ℕ) (out : List A) (v : A)
    → length out < limit
    → limit - length out ≡ suc (limit - length (out ++ v ∷ []))
one_less limit out v lt = omega (arith, length-append out (v ∷ []))

-- The loop of Resolve finds the first entities of the domain that match, up to its limit.
find_some-append :
    {A : Type 0} (in_domain hits : A → Bool) (limit : ℕ) (vs out : List A)
    → length out < limit
    → find_some in_domain hits limit vs out
      ≡ out ++ take (limit - length out) (filter (λ v. in_domain v && hits v) vs)
unfolding find_some
find_some-append {A} in_domain hits limit [] out lt =
    sym (ap (λ (xs : List A). out ++ xs) (take_nil (limit - length out)) ∙ append-nil out)
find_some-append {A} in_domain hits limit (v ∷ vs) out lt = elim (Bool-cases (in_domain v)) [
  | inr outside ↦ rw outside (find_some-append in_domain hits limit vs out lt)
  | inl inside ↦ elim (Bool-cases (hits v)) [
    | inr other ↦ rw (inside, other) (find_some-append in_domain hits limit vs out lt)
    | inl hit ↦ elim (Bool-cases (leb limit (length (out ++ v ∷ [])))) [
      | inl full ↦
          rw (inside, hit, full)
            (ap (λ (xs : List A). out ++ xs) (sym (take_one v _ (only_one limit out v lt full))))
      | inr room ↦
          rw (inside, hit, room)
            (find_some-append in_domain hits limit vs (out ++ v ∷ [])
                (still_room limit out v lt room)
              ∙ (append_assoc out (v ∷ []) _
                  ∙ ap (λ (xs : List A). out ++ xs)
                      (sym (take_more v _ (one_less limit out v lt)))))
    ]
  ]
]

find_some-take :
    {A : Type 0} (in_domain hits : A → Bool) (limit : ℕ) (vs : List A)
    → 0 < limit
    → find_some in_domain hits limit vs [] ≡ take limit (filter (λ v. in_domain v && hits v) vs)
find_some-take in_domain hits limit vs some_room =
    find_some-append in_domain hits limit vs [] some_room
    ∙ ap (λ (k : ℕ). take k (filter (λ v. in_domain v && hits v) vs)) (omega arith)

resolve_limit_pos : (limit : ℕ) → 0 < resolve_limit limit
resolve_limit_pos limit = ground arith

-- Resolve answers the first nodes, links and prefixes of the domain that the query hits, up to its limit.
pub resolve_lem :
    (domain query : Text) (limit : ℕ) (snap : Snapshot)
    → ((resolve domain query limit snap).nodes
        ≡ take (resolve_limit limit) (
            filter
              (λ v. in_domain domain (get_meta v.meta) && node_hit (to_lower query) v)
              snap.nodes))
      × ((resolve domain query limit snap).links
          ≡ take (resolve_limit limit) (
              filter
                (λ v. in_domain domain (get_meta v.meta) && link_hit query (to_lower query) v)
                snap.links))
      × ((resolve domain query limit snap).prefixes
          ≡ take (resolve_limit limit) (
              filter
                (λ v. in_domain domain (get_meta v.meta) && prefix_hit (to_lower query) v)
                snap.prefixes))
unfolding resolve
resolve_lem domain query limit snap =
    let room = resolve_limit_pos limit in
    (
      find_some-take _ (node_hit (to_lower query)) (resolve_limit limit) snap.nodes room,
      find_some-take _ (link_hit query (to_lower query)) (resolve_limit limit) snap.links room,
      find_some-take _ (prefix_hit (to_lower query)) (resolve_limit limit) snap.prefixes room,
    )
