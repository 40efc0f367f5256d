-- ===== src/Api/History/Changes.antt =====
-- What the lists of changes hold.
use bg_pls.Base.{
  ℕ, zero, suc, ◌+◌, ◌-◌, ◌<◌, ◌≤◌, ◌≡◌, ◌↔◌, refl, ap, sym, ◌∙◌, inl, inr, Text, Option, some,
  none, List, [], ◌∷◌, ◌++◌, Bool, true, false, not, ◌&&◌, ◌||◌, ◌==◌, ltb, length, get_last?,
  filter, Any, length-take, arith, Bool-cases, if◌then◌else◌,
}
use bg_pls.Base.Ascii.{sprint}
use bg_pls.Base.Fallible.{passed, ok-injective, Fallible-cases}
use bg_pls.Store.Pebble.{Pebble}
use bg_pls.Store.Json.{Json, TopologyEvent}
use bg_pls.Store.State.{
  event_key, next_revision, uint64_mod, Store, Result, ok, err, ◌>>=◌, require, unmarshal_failed,
}
use bg_pls.Store.Reads.{
  event_prefix, prefix_end, events, later_events, oldest_revision, decode_events,
}
use bg_pls.Api.Filter.{TopologyFilter}
use bg_pls.Api.Page.{Page, page_bounds, next_token}
use bg_pls.Api.Filter.Meaning.{Among, contains_string_iff}
use bg_pls.Api.Peers.{Reply, reply, refuse, Code, api_error}
use bg_pls.Api.History.{
  of_domains, of_filter, changes_after, cut_events, changes_page, list_changes, diff_events,
  diff_topology,
}

filter-append :
    {A : Type 0} (p : A → Bool) (xs ys : List A) → filter p (xs ++ ys) ≡ filter p xs ++ filter p ys
filter-append p [] ys = refl
filter-append p (x ∷ xs) ys = elim (Bool-cases (p x)) [
  | inl kept ↦ rw kept (ap (λ zs. x ∷ zs) (filter-append p xs ys))
  | inr lost ↦ rw lost (filter-append p xs ys)
]

of_filter-append :
    (f : Option TopologyFilter) (xs ys : List TopologyEvent)
    → of_filter f (xs ++ ys) ≡ of_filter f xs ++ of_filter f ys
unfolding of_filter
of_filter-append none xs ys = refl
of_filter-append (some f) xs ys = filter-append (of_domains f) xs ys

length-filter-le : {A : Type 0} (p : A → Bool) (xs : List A) → length (filter p xs) ≤ length xs
length-filter-le p [] = omega arith
length-filter-le p (x ∷ xs) = let ih = length-filter-le p xs in ground arith

length-filter-lt :
    {A : Type 0} (p : A → Bool) (xs : List A)
    → Any (λ x. p x ≡ false) xs
    → length (filter p xs) < length xs
length-filter-lt p [] h = absurd h
length-filter-lt p (x ∷ xs) (inl lost) = let le = length-filter-le p xs in ground arith
length-filter-lt p (x ∷ xs) (inr later) = let ih = length-filter-lt p xs later in ground arith

token_none :
    (more : Bool) (last : Option TopologyEvent)
    → more ≡ false
    → ◌≡◌ {A = Text} (elim last [ none ↦ [] | some e ↦ next_token (sprint e.revision) more ]) []
unfolding next_token
token_none true last h = absurd (cc)
token_none false none h = refl
token_none false (some e) h = refl

cut_events-le :
    (size : ℕ) (es : List TopologyEvent) → length es ≤ size → cut_events size es ≡ (es, [])
unfolding cut_events
cut_events-le size es le =
    let whole : ltb size (length es) ≡ false = ground arith in
    rw whole (ap (λ (t : Text). (es, t)) (token_none (ltb size (length es)) (get_last? es) whole))

page_bounds-le : (page : Option Page) → (page_bounds page).0 ≤ 1000
unfolding page_bounds
page_bounds-le none = omega arith
page_bounds-le (some p) = ground arith

module _ (pebble : Pebble) (json : Json) where
  length-decode_events :
      (xs : List (Text × Text)) (es : List TopologyEvent)
      → decode_events pebble json xs ≡ ok es
      → length es ≡ length xs
  unfolding decode_events
  length-decode_events [] es h = ap (λ (q : List TopologyEvent). length q) (sym (ok-injective h))
  length-decode_events (x ∷ xs) es h =
      let (e, one, rest) =
        passed (require unmarshal_failed (json.unmarshal_event x.1))
          (λ e. (decode_events pebble json xs >>= (λ more. ok (e ∷ more)))) h in
      let (more, decoded, same) =
        passed (decode_events pebble json xs) (λ more. ok (e ∷ more)) rest in
      ap (λ (q : List TopologyEvent). length q) (sym (ok-injective same))
      ∙ ap suc (length-decode_events xs more decoded)

  length-events :
      (after before size : ℕ) (s : Store pebble json) (found : List TopologyEvent)
      → size ≤ 1000
      → events pebble json after before (size + 1) s ≡ ok found
      → length found ≤ size + 1
  unfolding events
  length-events after before size s found le h =
      let n = length-decode_events _ found h in
      let limit : (if size + 1 == 0 || ltb 10000 (size + 1) then 1000 else size + 1) ≡ size + 1 =
        ground arith in
      omega (
        arith,
        n,
        limit,
        length-take (if size + 1 == 0 || ltb 10000 (size + 1) then 1000 else size + 1) (
            pebble.scan s.db (event_key (next_revision after)) (
              if not (before == 0) && not (before == uint64_mod - 1)
              then event_key (next_revision before)
              else prefix_end event_prefix)),
      )

  -- The events that are filtered afterwards.
  abbrev filtered :
      Option TopologyFilter → Result (List TopologyEvent) → Result (List TopologyEvent)
  filtered f found = elim found [ err e ↦ err e | ok es ↦ ok (of_filter f es) ]

  onward :
      (f : Option TopologyFilter) (fuel to : ℕ) (out chunk : List TopologyEvent)
      (s : Store pebble json) (last : Option TopologyEvent)
      → ((e : TopologyEvent)
          → diff_events pebble json fuel e.revision to f (of_filter f out ++ of_filter f chunk) s
            ≡ filtered f (later_events pebble json fuel e.revision to (out ++ chunk) s))
      → ◌≡◌ {A = Result (List TopologyEvent)}
          (elim last [
            | none ↦ ok (of_filter f out)
            | some e ↦
                diff_events pebble json fuel e.revision to f
                  (of_filter f out ++ of_filter f chunk)
                  s
          ])
          (filtered f (elim last [
            | none ↦ ok out
            | some e ↦ later_events pebble json fuel e.revision to (out ++ chunk) s
          ]))
  onward f fuel to out chunk s none rest = refl
  onward f fuel to out chunk s (some e) rest = rest e

  diff_events_lem :
      (f : Option TopologyFilter) (fuel cursor to : ℕ) (out : List TopologyEvent)
      (s : Store pebble json)
      → diff_events pebble json fuel cursor to f (of_filter f out) s
        ≡ filtered f (later_events pebble json fuel cursor to out s)
  unfolding diff_events later_events
  diff_events_lem f zero cursor to out s = refl
  diff_events_lem f (suc fuel) cursor to out s = elim (Bool-cases (ltb cursor to)) [
    | inr done ↦ rw done refl
    | inl behind ↦ elim (Fallible-cases (events pebble json cursor to 10000 s)) [
      | inl (e, failed) ↦ rw (behind, failed) refl
      | inr (chunk, found) ↦
          rw (behind, found)
            (onward f fuel to out chunk s (get_last? chunk) (λ e.
              ap (λ x. diff_events pebble json fuel e.revision to f x s)
                (sym (of_filter-append f out chunk))
              ∙ diff_events_lem f fuel e.revision to (out ++ chunk) s))
    ]
  ]

  -- Where the loop of a past snapshot can read the events between two revisions, the later one last,
  -- the differences between those revisions are, in order, the ones among these events whose domain is
  -- in the filter's list, or all of them if that list is empty.
  pub diff_topology_lem :
      (from to : ℕ) (f : TopologyFilter) (s : Store pebble json) (es : List TopologyEvent)
      → from < to
      → later_events pebble json (suc (to - from)) from to [] s ≡ ok es
      → (asked : TopologyEvent → Bool) × ((e : TopologyEvent)
          → (asked e ≡ true) ↔ Among e.domain_id f.domain_ids)
        × (diff_topology pebble json from to (some f) s ≡ reply (filter asked es))
  unfolding diff_topology of_filter of_domains
  diff_topology_lem from to f s es lt read =
      let between : ltb from to ≡ true = ground arith in
      let found : diff_events pebble json (suc (to - from)) from to (some f) [] s
          ≡ ok (filter (of_domains f) es) =
        diff_events_lem (some f) (suc (to - from)) from to [] s ∙ ap (filtered (some f)) read in
      let answer : Result (List TopologyEvent) → Reply (List TopologyEvent) = λ r.
        if not (ltb from to)
        then refuse Code.invalid_argument
        else elim r [ err e ↦ refuse (api_error e) | ok out ↦ reply out ] in
      (
        of_domains f,
        (λ e. contains_string_iff f.domain_ids e.domain_id),
        ap answer found ∙ rw between refl,
      )

  -- When the first page that is read holds an event that the filter does not admit, the answer has no
  -- token of a next page, whatever events follow.
  pub list_changes-ends :
      (after before : ℕ) (page : Option Page) (f : TopologyFilter) (s : Store pebble json)
      (found : List TopologyEvent)
      → events pebble json (changes_after after page) before ((page_bounds page).0 + 1) s ≡ ok found
      → Any (λ e. of_domains f e ≡ false) found
      → list_changes pebble json after before page (some f) s
        ≡ reply (record {
          events = filter (of_domains f) found;
          next_page_token = [];
          revision = s.revision;
          oldest_available_revision = oldest_revision pebble json s;
        })
  unfolding list_changes changes_page of_filter
  list_changes-ends after before page f s found read other =
      let size = (page_bounds page).0 in
      let few = length-filter-lt (of_domains f) found other in
      let most =
        length-events (changes_after after page) before size s found (page_bounds-le page) read in
      ap (changes_page pebble json size (some f) s) read
      ∙ ap
          (λ (cut : List TopologyEvent × Text). reply (record {
            events = cut.0;
            next_page_token = cut.1;
            revision = s.revision;
            oldest_available_revision = oldest_revision pebble json s;
          }))
          (cut_events-le size (filter (of_domains f) found) (omega arith))
