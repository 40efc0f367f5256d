-- ===== src/Store/History/Compaction.antt =====
-- What a compaction keeps.
use bg_pls.Base.{
  All-of-Any, ℕ, suc, ◌<◌, ◌≤◌, ◌≡◌, ◌↔◌, refl, ap, subst, sym, ◌∙◌, ◌⊎◌, inl, inr, Text, Option,
  some, none, List, [], ◌∷◌, ◌++◌, Bool, true, false, ltb, All, Any, text_lt, text_lt-nil,
  text_lt_trans, text_lt_total, arith, Bool-cases, Option-cases, if◌then◌else◌,
}
use bg_pls.Base.Fallible.{passed, ok-injective, require-eq-ok}
use bg_pls.Store.Pebble.{Pebble, IsAscending}
use bg_pls.Store.Json.{Json, TopologyEvent}
use bg_pls.Store.State.{Store, Result, ok, err, require, commit_failed}
use bg_pls.Store.Reads.{event_prefix, prefix_end}
use bg_pls.Store.History.{event_time, age_out, over_size, delete_to, compact_history}

-- No key lies between a key and that key with a zero byte behind it.
above_end : (j k : Text) → text_lt j k ≡ true → text_lt k (j ++ 0 ∷ []) ≡ false
unfolding text_lt
above_end [] [] h = cc
above_end [] (c ∷ k) h = ground (arith, text_lt-nil k)
above_end (b ∷ j) [] h = absurd (cc)
above_end (b ∷ j) (c ∷ k) h = ground (arith, above_end j k)

beyond : (j k hi : Text) → text_lt j hi ≡ true → text_lt k hi ≡ false → text_lt j k ≡ true
beyond j k hi below above = elim (Bool-cases (text_lt j k)) [
  | inl lt ↦ lt
  | inr not_lt ↦ elim (Bool-cases (text_lt k j)) [
    | inl gt ↦ let wrong = text_lt_trans k j hi gt below in absurd (cc)
    | inr not_gt ↦ let same = text_lt_total j k not_lt not_gt in absurd (cc)
  ]
]

Any-of-All :
    {A : Type 0} (P : A → Type 0) (xs : List A) (x : A) → All P xs → Any (λ y. y ≡ x) xs → P x
Any-of-All P [] x h m = absurd m
Any-of-All P (y ∷ xs) x h (inl same) = subst P same h.0
Any-of-All P (y ∷ xs) x h (inr later) = Any-of-All P xs x h.1 later

abbrev IsBelow : Option Text → Text → Type 0
IsBelow none k = Unit
IsBelow (some j) k = text_lt j k ≡ true

module _ (pebble : Pebble) (json : Json) (is_cancelled : ℕ → Bool) (cutoff : ℕ) where
  -- An entry that holds an event from the cutoff on.
  abbrev pub IsRecent : Text → Type 0
  IsRecent v = (e : TopologyEvent) × (json.unmarshal_event v ≡ some e) × (cutoff ≤ event_time e)

  age_out_cases :
      (n : ℕ) (e : Text × Text) (es : List (Text × Text)) (to r : Option Text)
      → age_out pebble json is_cancelled n cutoff (e ∷ es) to ≡ ok r
      → ((json.unmarshal_event e.1 ≡ none)
          × (age_out pebble json is_cancelled (suc n) cutoff es to ≡ ok r))
        ⊎ (((x : TopologyEvent) × (json.unmarshal_event e.1 ≡ some x)
              × (event_time x < cutoff)
              × (age_out pebble json is_cancelled (suc n) cutoff es (some e.0) ≡ ok r))
            ⊎ (to ≡ r))
  unfolding age_out
  age_out_cases n e es to r h = elim (Bool-cases (is_cancelled n)) [
    | inl stopped ↦ absurd (ground arith)
    | inr going ↦ elim (Option-cases (json.unmarshal_event e.1)) [
      | inl garbled ↦ inl (garbled, ground arith)
      | inr (x, read) ↦ elim (Bool-cases (ltb (event_time x) cutoff)) [
        | inl old ↦ inr (inl (x, read, ground arith, ground arith))
        | inr recent ↦ inr (inr (ground arith))
      ]
    ]
  ]

  age_out-IsBelow :
      (n : ℕ) (es : List (Text × Text)) (to r : Option Text)
      → IsAscending es
      → All (λ e. IsBelow to e.0) es
      → age_out pebble json is_cancelled n cutoff es to ≡ ok r
      → All (λ e. IsRecent e.1 → IsBelow r e.0) es
  age_out-IsBelow n [] to r asc below h = tt
  age_out-IsBelow n (e ∷ es) to r asc below h = elim (age_out_cases n e es to r h) [
    | inl (garbled, rest) ↦ (
      (λ recent. absurd (cc (garbled, recent.1))),
      age_out-IsBelow (suc n) es to r asc.1 below.1 rest,
    )
    | inr (inl (x, read, old, rest)) ↦ (
      (λ recent.
          let (y, again, late) = recent in
          let same : x ≡ y = cc in absurd (omega (arith, ap event_time same))),
      age_out-IsBelow (suc n) es (some e.0) r asc.1 asc.0 rest,
    )
    | inr (inr same) ↦ All-of-Any _ (e ∷ es) (λ f m recent.
        subst (λ x. IsBelow x f.0) same (Any-of-All (λ g. IsBelow to g.0) (e ∷ es) f below m))
  ]

  age_out-IsBefore :
      (n : ℕ) (es : List (Text × Text)) (to r : Option Text)
      → ((j : Text) → to ≡ some j → text_lt j (prefix_end event_prefix) ≡ true)
      → All (λ e. text_lt e.0 (prefix_end event_prefix) ≡ true) es
      → age_out pebble json is_cancelled n cutoff es to ≡ ok r
      → (j : Text) → r ≡ some j
      → text_lt j (prefix_end event_prefix) ≡ true
  unfolding age_out
  age_out-IsBefore n [] to r first inside h j e = first j (ok-injective h ∙ e)
  age_out-IsBefore n (x ∷ es) to r first inside h j e = elim (age_out_cases n x es to r h) [
    | inl (garbled, rest) ↦ age_out-IsBefore (suc n) es to r first inside.1 rest j e
    | inr (inl (y, read, old, rest)) ↦
        age_out-IsBefore (suc n) es (some x.0) r
          (λ i same.
            subst (λ k. text_lt k (prefix_end event_prefix) ≡ true) (let q : x.0 ≡ i = cc in q)
              inside.0)
          inside.1 rest j e
    | inr (inr same) ↦ first j (same ∙ e)
  ]

  module _ (max_bytes : ℕ) (s s' : Store pebble json)
      (compacted : compact_history pebble json is_cancelled cutoff max_bytes s ≡ ok s')
      (small : (max_bytes ≡ 0) ⊎ (pebble.disk_usage s.db ≤ max_bytes)) where
    abbrev entries : List (Text × Text)
    entries = pebble.scan s.db event_prefix (prefix_end event_prefix)

    over_size_small : (to : Option Text) → over_size pebble json max_bytes s to ≡ to
    unfolding over_size
    over_size_small to = ground arith

    abbrev DeletesTo : Option Text → Type 0
    DeletesTo to =
        (age_out pebble json is_cancelled 0 cutoff entries none ≡ ok to)
        × (delete_to pebble json to s ≡ ok s')

    compact_history_cases : (to : Option Text) × DeletesTo to
    unfolding compact_history
    compact_history_cases =
        let (to, aged, rest) =
          passed (age_out pebble json is_cancelled 0 cutoff entries none)
            (λ a. delete_to pebble json (over_size pebble json max_bytes s a) s) compacted in
        (to, (aged, subst (λ x. delete_to pebble json x s ≡ ok s') (over_size_small to) rest))

    in_entries :
        (k v : Text)
        → Any (λ e. e ≡ (k, v)) entries ↔ (
            (pebble.get s.db k ≡ some v)
            × (text_lt k event_prefix ≡ false)
            × (text_lt k (prefix_end event_prefix) ≡ true))
    in_entries k v = pebble.mem-scan s.db event_prefix (prefix_end event_prefix) k v

    entries-IsBefore : All (λ e. text_lt e.0 (prefix_end event_prefix) ≡ true) entries
    entries-IsBefore = All-of-Any _ entries (λ e m. ((in_entries e.0 e.1).0 m).2)

    behind :
        (to : Option Text) (k : Text)
        → age_out pebble json is_cancelled 0 cutoff entries none ≡ ok to
        → text_lt k (prefix_end event_prefix) ≡ false
        → IsBelow to k
    behind none k aged high = tt
    behind (some j) k aged high =
        beyond j k (prefix_end event_prefix)
          (age_out-IsBefore 0 entries none (some j) (λ i e. absurd (cc)) entries-IsBefore aged j
            refl)
          high

    compacted_ok :
        (s : Store pebble json) (db : pebble.Db) (s' : Store pebble json)
        → ◌≡◌ {A = Result (Store pebble json)}
            (if pebble.compacts db then ok (record s { db = db }) else err commit_failed)
            (ok s')
        → record s { db = db } ≡ s'
    compacted_ok s db s' h = elim (Bool-cases (pebble.compacts db)) [
      | inl done ↦ ground arith
      | inr failed ↦ absurd (ground arith)
    ]

    -- A key behind the last deleted one, or before the events, is not touched.
    kept_there :
        (to : Option Text) (k : Text)
        → delete_to pebble json to s ≡ ok s'
        → (text_lt k event_prefix ≡ true) ⊎ IsBelow to k
        → pebble.get s'.db k ≡ pebble.get s.db k
    unfolding delete_to
    kept_there none k h there = ap (λ x. pebble.get x.db k) (sym (ok-injective h))
    kept_there (some key) k h there =
        let answer : pebble.Db → Result (Store pebble json) =
          λ d. if pebble.compacts d then ok (record s { db = d }) else err commit_failed in
        let (db, deleted, done) =
          passed (require commit_failed (pebble.delete_range s.db event_prefix (key ++ 0 ∷ [])))
            answer h in
        let same = compacted_ok s db s' done in
        let removed = pebble.get-delete_range k (require-eq-ok commit_failed _ deleted) in
        ap (λ x. pebble.get x.db k) (sym same)
        ∙ (removed ∙ elim there [
          | inl low ↦ rw low refl
          | inr high ↦ elim (Bool-cases (text_lt k event_prefix)) [
            | inl low ↦ rw low refl
            | inr not_low ↦ rw (not_low, above_end key k high) refl
          ]
        ])

    -- While the size limit is met, a compaction removes nothing but events from before the cutoff:
    -- it keeps every entity, the revision, and each event from the cutoff on.
    pub compact_history-IsRecent :
        (k v : Text)
        → pebble.get s.db k ≡ some v
        → ((text_lt k event_prefix ≡ true) ⊎ (text_lt k (prefix_end event_prefix) ≡ false))
          ⊎ IsRecent v
        → pebble.get s'.db k ≡ some v
    compact_history-IsRecent k v held why =
        let (to, (aged, deleted)) = compact_history_cases in
        elim why [
          | inl (inl low) ↦ kept_there to k deleted (inl low) ∙ held
          | inl (inr high) ↦ kept_there to k deleted (inr (behind to k aged high)) ∙ held
          | inr recent ↦ elim (Bool-cases (text_lt k event_prefix)) [
            | inl low ↦ kept_there to k deleted (inl low) ∙ held
            | inr not_low ↦ elim (Bool-cases (text_lt k (prefix_end event_prefix))) [
              | inr high ↦ kept_there to k deleted (inr (behind to k aged high)) ∙ held
              | inl inside ↦
                  let listed = (in_entries k v).1 (held, not_low, inside) in
                  let ascending =
                    pebble.scan-IsAscending s.db event_prefix (prefix_end event_prefix) in
                  let below =
                    age_out-IsBelow 0 entries none to ascending (All-of-Any _ entries (λ e m. tt))
                      aged in
                  kept_there to k deleted (inr (Any-of-All _ entries (k, v) below listed recent))
                  ∙ held
            ]
          ]
        ]
