-- ===== src/Api/Stream/Whole.antt =====
-- The messages of a stream hold the whole snapshot.
use bg_pls.Base.{
  ℕ, zero, suc, ◌+◌, ◌<◌, ◌≤◌, ◌≡◌, refl, sym, ap, ◌∙◌, subst, inl, inr, ◌⊎◌, Option, none, some,
  List, [], ◌∷◌, ◌++◌, Bool, true, false, ◌&&◌, ltb, length, filter, All, &&-eq-true, arith,
  Bool-cases,
}
use bg_pls.Entities.{Node, Link, Prefix, Domain}
use bg_pls.Store.Reads.{Snapshot}
use bg_pls.Api.Filter.{TopologyFilter, no_entries, node_match, link_match, prefix_match}
use bg_pls.Api.Stream.{
  chunk_size, Rest, StreamSnapshotResponse, fill, is_done, next_message, messages, stream,
}

filter_yes :
    {A : Type 0} (p : A → Bool) (x : A) (xs : List A)
    → p x ≡ true
    → x ∷ filter p xs ≡ filter p (x ∷ xs)
filter_yes p x xs h = rw h refl

filter_no :
    {A : Type 0} (p : A → Bool) (x : A) (xs : List A)
    → p x ≡ false
    → filter p xs ≡ filter p (x ∷ xs)
filter_no p x xs h = rw h refl

-- What a loop that fills a message does.
record Filled {A : Type 0} (matches : A → Bool) (n : ℕ) (vs taken rest : List A) : Type 0 where
  whole : taken ++ filter matches rest ≡ filter matches vs
  sized : n + length taken ≤ chunk_size
  few : length taken ≤ length vs
  shrinks : length rest ≤ length vs
  goes_on : n < chunk_size → 0 < length vs → length rest < length vs

fill-Filled :
    {A : Type 0} (matches : A → Bool) (n : ℕ) (vs : List A)
    → n ≤ chunk_size
    → Filled matches n vs (fill matches n vs).0 (fill matches n vs).1
unfolding fill
fill-Filled matches n [] le = record {
  whole = refl;
  sized = omega arith;
  few = omega arith;
  shrinks = omega arith;
  goes_on = λ lt some_v. some_v;
}
fill-Filled matches n (v ∷ vs) le = elim (Bool-cases (ltb n chunk_size)) [
  | inr full ↦ rw full (record {
    whole = refl;
    sized = omega arith;
    few = omega arith;
    shrinks = omega arith;
    goes_on = λ lt some_v. absurd (ground arith);
  })
  | inl room ↦ elim (Bool-cases (matches v)) [
    | inl match ↦
        let ih = fill-Filled matches (suc n) vs (ground arith) in
        rw (room, match)
          (record {
            whole = ap (λ xs. v ∷ xs) ih.whole ∙ filter_yes matches v vs match;
            sized = omega (arith, ih.sized);
            few = omega (arith, ih.few);
            shrinks = omega (arith, ih.shrinks);
            goes_on = λ lt some_v. omega (arith, ih.shrinks);
          })
    | inr other ↦
        let ih = fill-Filled matches n vs le in
        rw (room, other)
          (record {
            whole = ih.whole ∙ filter_no matches v vs other;
            sized = ih.sized;
            few = omega (arith, ih.few);
            shrinks = omega (arith, ih.shrinks);
            goes_on = λ lt some_v. omega (arith, ih.shrinks);
          })
  ]
]

nothing_left : {A : Type 0} (p : A → Bool) (xs : List A) → no_entries xs ≡ true → [] ≡ filter p xs
nothing_left p [] h = refl
nothing_left p (x ∷ xs) h = absurd (cc)

goes_on :
    (m : StreamSnapshotResponse) (more : Option (List StreamSnapshotResponse))
    (ms : List StreamSnapshotResponse)
    → more ≡ some ms
    → ◌≡◌ {A = Option (List StreamSnapshotResponse)}
        (elim more [ none ↦ none | some xs ↦ some (m ∷ xs) ])
        (some (m ∷ ms))
goes_on m more ms h = rw h refl

abbrev count : Rest → ℕ
count r = length r.nodes + length r.links + length r.prefixes

some_left :
    {A B C : Type 0} (xs : List A) (ys : List B) (zs : List C)
    → (no_entries xs && no_entries ys && no_entries zs) ≡ false
    → 0 < length xs + length ys + length zs
some_left [] [] [] h = absurd (cc)
some_left (x ∷ xs) ys zs h = omega arith
some_left [] (y ∷ ys) zs h = omega arith
some_left [] [] (z ∷ zs) h = omega arith

abbrev pub size : StreamSnapshotResponse → ℕ
size m = length m.nodes + length m.links + length m.prefixes

module _ (f : Option TopologyFilter) where
  abbrev pub nodes_in : List Node → List Node
  nodes_in = filter (λ v. node_match v f)

  abbrev pub links_in : List Link → List Link
  links_in = filter (λ v. link_match v f)

  abbrev pub prefixes_in : List Prefix → List Prefix
  prefixes_in = filter (λ v. prefix_match v f)

  -- What a round of the loop does.
  record Advance (r : Rest) (m : StreamSnapshotResponse) (rest : Rest) : Type 0 where
    nodes : m.nodes ++ nodes_in rest.nodes ≡ nodes_in r.nodes
    links : m.links ++ links_in rest.links ≡ links_in r.links
    prefixes : m.prefixes ++ prefixes_in rest.prefixes ≡ prefixes_in r.prefixes
    sized : size m ≤ chunk_size
    shrinks : is_done r ≡ false → count rest < count r
    marked : m.last ≡ is_done rest

  le_or_lt : (m n : ℕ) → (m ≤ n) ⊎ (n < m)
  le_or_lt m n = ground arith

  next_message-Advance :
      (revision : ℕ) (domains : List Domain) (r : Rest)
      → let next = next_message f revision domains r in Advance r next.0 next.1
  unfolding next_message
  next_message-Advance revision domains r =
      let ns = fill (λ v. node_match v f) 0 r.nodes in
      let n = fill-Filled (λ v. node_match v f) 0 r.nodes (omega arith) in
      let ls = fill (λ v. link_match v f) (length ns.0) r.links in
      let l = fill-Filled (λ v. link_match v f) (length ns.0) r.links (omega (arith, n.sized)) in
      let p =
        fill-Filled (λ v. prefix_match v f) (length ns.0 + length ls.0) r.prefixes
          (omega (arith, l.sized)) in
      record {
        nodes = n.whole;
        links = l.whole;
        prefixes = p.whole;
        sized = omega (arith, p.sized);
        shrinks = λ h. elim (le_or_lt (length r.nodes) 0) [
          | inr some_nodes ↦ omega (arith, n.goes_on (omega arith) some_nodes, l.shrinks, p.shrinks)
          | inl no_nodes ↦ elim (le_or_lt (length r.links) 0) [
            | inr some_links ↦
                omega (arith, n.shrinks, l.goes_on (omega (arith, n.few)) some_links, p.shrinks)
            | inl no_links ↦ omega (
              arith,
              n.shrinks,
              l.shrinks,
              p.goes_on (omega (arith, n.few, l.few))
                  (omega (arith, some_left r.nodes r.links r.prefixes h)),
            )
          ]
        ];
        marked = refl;
      }

  abbrev pub all_nodes : List StreamSnapshotResponse → List Node
  all_nodes [] = []
  all_nodes (m ∷ ms) = m.nodes ++ all_nodes ms

  abbrev pub all_links : List StreamSnapshotResponse → List Link
  all_links [] = []
  all_links (m ∷ ms) = m.links ++ all_links ms

  abbrev pub all_prefixes : List StreamSnapshotResponse → List Prefix
  all_prefixes [] = []
  all_prefixes (m ∷ ms) = m.prefixes ++ all_prefixes ms

  -- The last message, and no other, is marked as the last.
  abbrev pub MarksEnd : Bool → List StreamSnapshotResponse → Type 0
  MarksEnd done [] = done ≡ true
  MarksEnd done (m ∷ ms) = (done ≡ false) × MarksEnd m.last ms

  record Sent (r : Rest) (ms : List StreamSnapshotResponse) : Type 0 where
    nodes : all_nodes ms ≡ nodes_in r.nodes
    links : all_links ms ≡ links_in r.links
    prefixes : all_prefixes ms ≡ prefixes_in r.prefixes
    sized : All (λ m. size m ≤ chunk_size) ms
    ended : MarksEnd (is_done r) ms

  messages-Sent :
      (fuel revision : ℕ) (r : Rest)
      → count r < fuel
      → (ms : List StreamSnapshotResponse) × (messages fuel f revision r ≡ some ms) × Sent r ms
  unfolding messages
  messages-Sent zero revision r lt = absurd (omega arith)
  messages-Sent (suc fuel) revision r lt = elim (Bool-cases (is_done r)) [
    | inl done ↦
        let (front, third) =
          &&-eq-true (no_entries r.nodes && no_entries r.links) (no_entries r.prefixes) done in
        let (here, second) = &&-eq-true (no_entries r.nodes) (no_entries r.links) front in
        (
          [],
          rw done refl,
          record {
            nodes = nothing_left _ r.nodes here;
            links = nothing_left _ r.links second;
            prefixes = nothing_left _ r.prefixes third;
            sized = tt;
            ended = done;
          },
        )
    | inr open_yet ↦
        let (m, rest) = next_message f revision [] r in
        let adv : Advance r m rest = next_message-Advance revision [] r in
        let (ms, sent, all) =
          messages-Sent fuel revision rest (omega (arith, adv.shrinks open_yet)) in
        (
          m ∷ ms,
          rw open_yet (goes_on m (messages fuel f revision rest) ms sent),
          record {
            nodes = ap (λ xs. m.nodes ++ xs) all.nodes ∙ adv.nodes;
            links = ap (λ xs. m.links ++ xs) all.links ∙ adv.links;
            prefixes = ap (λ xs. m.prefixes ++ xs) all.prefixes ∙ adv.prefixes;
            sized = (adv.sized, all.sized);
            ended = (open_yet, subst (λ b. MarksEnd b ms) (sym adv.marked) all.ended);
          },
        )
  ]

  -- A stream sends, in messages of at most 500 entities, exactly the nodes, links and prefixes of the
  -- snapshot that the filter admits, in order. The domains are in the first message, and the last
  -- message, and no other, is marked as the last.
  pub stream_lem :
      (snap : Snapshot)
      → (m : StreamSnapshotResponse) × (ms : List StreamSnapshotResponse) × (stream f snap
          ≡ some (m ∷ ms))
        × (all_nodes (m ∷ ms) ≡ nodes_in snap.nodes)
        × (all_links (m ∷ ms) ≡ links_in snap.links)
        × (all_prefixes (m ∷ ms) ≡ prefixes_in snap.prefixes)
        × (m.domains ≡ snap.domains)
        × All (λ x. size x ≤ chunk_size) (m ∷ ms)
        × MarksEnd m.last ms
  unfolding stream
  stream_lem snap =
      let all : Rest = record {
        nodes = snap.nodes;
        links = snap.links;
        prefixes = snap.prefixes;
      } in
      let (m, rest) = next_message f snap.revision snap.domains all in
      let adv : Advance all m rest = next_message-Advance snap.revision snap.domains all in
      let (ms, sent, rest_sent) =
        messages-Sent (suc (count rest)) snap.revision rest (omega arith) in
      (
        m,
        ms,
        goes_on m (messages (suc (count rest)) f snap.revision rest) ms sent,
        ap (λ xs. m.nodes ++ xs) rest_sent.nodes ∙ adv.nodes,
        ap (λ xs. m.links ++ xs) rest_sent.links ∙ adv.links,
        ap (λ xs. m.prefixes ++ xs) rest_sent.prefixes ∙ adv.prefixes,
        refl,
        (adv.sized, rest_sent.sized),
        subst (λ b. MarksEnd b ms) (sym adv.marked) rest_sent.ended,
      )
