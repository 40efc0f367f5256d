-- ===== src/Topology/Graph/Compute/Alternatives.antt =====
-- The alternatives of a computed path.
use bg_pls.Base.{
  All-end, All-map, ℕ, ◌<◌, ◌≤◌, ◌≡◌, ◌≢◌, refl, sym, ap, ◌∙◌, subst, inl, inr, ◌⊎◌, Text, Option,
  some, List, [], ◌∷◌, ◌++◌, true, false, not, ◌||◌, ◌==◌, leb, length, length-append, All,
  text_eq_refl, arith, Bool-cases, Option-cases,
}
use bg_pls.Base.Fallible.{ok, err, passed, ok-injective}
use bg_pls.Topology.Graph.{Graph, PathMetric, PathConstraints}
use bg_pls.Topology.Graph.Search.{Result}
use bg_pls.Topology.Graph.Compute.{
  PathHop, ComputedPath, path_key, is_seen, avoiding, clamp, compute, add_candidate, alternatives,
  compute_many,
}

-- No two paths pass through the same nodes.
abbrev pub IsDistinct : List ComputedPath → Type 0
IsDistinct [] = Unit
IsDistinct (p ∷ ps) = All (λ q. path_key p ≢ path_key q) ps × IsDistinct ps

clamp_lem : (limit : ℕ) → (1 ≤ clamp limit) × (clamp limit ≤ 16)
unfolding clamp
clamp_lem limit = ground arith

clamped : (limit n : ℕ) → 1 ≤ n → n ≤ clamp limit → (n ≤ limit) ⊎ ((limit ≡ 0) × (n ≡ 1))
unfolding clamp
clamped limit n one le = ground arith

IsDistinct-end :
    (ps : List ComputedPath) (q : ComputedPath)
    → IsDistinct ps
    → All (λ p. path_key p ≢ path_key q) ps
    → IsDistinct (ps ++ q ∷ [])
IsDistinct-end [] q d h = (tt, tt)
IsDistinct-end (p ∷ ps) q d h = (All-end _ ps q d.0 h.0, IsDistinct-end ps q d.1 h.1)

is_seen-cons : (j k : Text) (seen : List Text) → is_seen k seen ≡ true → is_seen k (j ∷ seen) ≡ true
is_seen-cons j k seen h = ground arith

is_seen_first : (k : Text) (seen : List Text) → is_seen k (k ∷ seen) ≡ true
is_seen_first k seen = let e = text_eq_refl k in ground arith

module _ (g : Graph) (t : PathMetric) (source destination : Text) (c : Option PathConstraints)
    (limit : ℕ) (first : ComputedPath) where
  -- What holds of the paths while alternatives are added.
  record Found (seen : List Text) (out : List ComputedPath) : Type 0 where
    some_path : 1 ≤ length out
    sized : length out ≤ limit
    equal : All (λ p. p.total_metric ≡ first.total_metric) out
    distinct : IsDistinct out
    known : All (λ p. is_seen (path_key p) seen ≡ true) out

  add_candidate-Found :
      (candidate : Result ComputedPath) (seen : List Text) (out : List ComputedPath)
      → Found seen out
      → length out < limit
      → let next = add_candidate g t source destination c first candidate (seen, out) in
        Found next.0 next.1
  unfolding add_candidate
  add_candidate-Found (err e) seen out found room = found
  add_candidate-Found (ok q) seen out found room =
      elim (Bool-cases (not (q.total_metric == first.total_metric) || is_seen (path_key q) seen)) [
        | inl refused ↦ rw refused found
        | inr taken ↦ rw taken (record {
          some_path = omega (arith, length-append out (q ∷ []));
          sized = omega (arith, length-append out (q ∷ []), found.sized);
          equal = All-end _ out q found.equal (ground arith);
          distinct = IsDistinct-end out q found.distinct (
              All-map _ _ out
                (λ p seen_p same.
                  let new : is_seen (path_key q) seen ≡ false = ground arith in
                  absurd (cc (ap (λ k. is_seen k seen) same)))
                found.known);
          known =
              All-end _ out q
                (All-map _ _ out (λ p h. is_seen-cons (path_key q) (path_key p) seen h) found.known)
                (is_seen_first (path_key q) seen);
        })
      ]

  alternatives-Found :
      (hs : List PathHop) (seen : List Text) (out : List ComputedPath)
      → Found seen out
      → (seen' : List Text) × Found seen'
          (alternatives g t source destination c limit first hs (seen, out))
  unfolding alternatives
  alternatives-Found [] seen out found = (seen, found)
  alternatives-Found (h ∷ hs) seen out found = elim (Bool-cases (leb limit (length out))) [
    | inl full ↦ rw full (seen, found)
    | inr room ↦ elim (Option-cases h.outgoing_link) [
      | inl last ↦ rw (room, last) (seen, found)
      | inr (l, leaves) ↦
          let candidate = compute g t source destination (some (avoiding c l)) in
          let next = add_candidate g t source destination c first candidate (seen, out) in
          rw (room, leaves)
            (alternatives-Found hs next.0 next.1
              (add_candidate-Found candidate seen out found (ground arith)))
    ]
  ]

-- The paths that `ComputeMany` answers: at least one, at most sixteen and no more than asked for, where
-- one is answered if none is asked for; all of the metric of the one that `Compute` answers; no two through the same nodes.
pub compute_many-IsDistinct :
    (g : Graph) (t : PathMetric) (source destination : Text) (c : Option PathConstraints)
    (limit : ℕ) (first : ComputedPath) (out : List ComputedPath)
    → compute g t source destination c ≡ ok first
    → compute_many g t source destination c limit ≡ ok out
    → (1 ≤ length out)
      × ((length out ≤ limit) ⊎ ((limit ≡ 0) × (length out ≡ 1)))
      × (length out ≤ 16)
      × All (λ p. p.total_metric ≡ first.total_metric) out
      × IsDistinct out
unfolding compute_many
compute_many-IsDistinct g t source destination c limit first out found h =
    let (one, computed, made) =
      passed (compute g t source destination c)
        (λ p.
          ok (
            alternatives g t source destination c (clamp limit) p p.hops (path_key p ∷ [], p ∷ [])))
        h in
    let same : one ≡ first = ok-injective (sym computed ∙ found) in
    let bounds = clamp_lem limit in
    let (seen, all) =
      alternatives-Found g t source destination c (clamp limit) one one.hops (path_key one ∷ [])
        (one ∷ [])
        (record {
          some_path = omega arith;
          sized = bounds.0;
          equal = (refl, tt);
          distinct = (tt, tt);
          known = (is_seen_first (path_key one) [], tt);
        }) in
    let out_same = ok-injective made in
    let answer : Found g t source destination c (clamp limit) one seen out =
      subst (Found g t source destination c (clamp limit) one seen) out_same all in
    (
      answer.some_path,
      clamped limit (length out) answer.some_path answer.sized,
      omega (arith, answer.sized, bounds.1),
      subst (λ p. All (λ q. q.total_metric ≡ p.total_metric) out) same answer.equal,
      answer.distinct,
    )
