-- ===== src/Store/Reads/Expired.antt =====
-- A past revision read after the whole history has been deleted.
use bg_pls.Base.{
  ℕ, zero, suc, ◌+◌, ◌-◌, ◌<◌, ◌≡◌, refl, inl, inr, Text, text, none, [], ◌∷◌, ◌++◌, true, false,
  not, ◌&&◌, ◌||◌, ◌==◌, ltb, take, text_lt, if◌then◌else◌, arith, Bool-cases, List-cases,
}
use bg_pls.Store.Pebble.{Pebble}
use bg_pls.Store.Json.{Json}
use bg_pls.Store.State.{Store, ok, event_key, next_revision, uint64_mod, padded}
use bg_pls.Store.Reads.{
  sorted_maps, index_maps, event_prefix, prefix_end, snapshot, decode_events, events,
  oldest_revision, later_events, undo_all, observed_at, snapshot_at,
}

-- A bound that goes on behind a prefix lies above it.
above_prefix : (k p x : Text) → text_lt k (p ++ x) ≡ false → text_lt k p ≡ false
unfolding text_lt
above_prefix k [] x h = ground arith
above_prefix [] (c ∷ p) x h = absurd (ground arith)
above_prefix (d ∷ k) (c ∷ p) x h = ground (arith, above_prefix k p x)

-- A bound that goes on behind a byte lies below the next byte.
below_next :
    (k p x : Text) (c : ℕ) → text_lt k (p ++ c ∷ x) ≡ true → text_lt k (p ++ (c + 1) ∷ []) ≡ true
unfolding text_lt
below_next [] [] x c h = ground arith
below_next (d ∷ k) [] x c h = ground arith
below_next [] (b ∷ p) x c h = ground arith
below_next (d ∷ k) (b ∷ p) x c h = ground (arith, below_next k p x c)

event_key-lower :
    (k : Text) (rev : ℕ) → text_lt k (event_key rev) ≡ false → text_lt k event_prefix ≡ false
unfolding event_key
event_key-lower k rev h = above_prefix k event_prefix (padded 20 rev) h

event_key-upper :
    (k : Text) (rev : ℕ)
    → text_lt k (event_key rev) ≡ true
    → text_lt k (prefix_end event_prefix) ≡ true
unfolding event_key prefix_end
event_key-upper k rev h = below_next k (text "event") (padded 20 rev) b'/' h

take-nil {ℓ} : {A : Type ℓ} (n : ℕ) → take {A = A} n [] ≡ []
take-nil zero = refl
take-nil (suc n) = refl

module _ (pebble : Pebble) (json : Json) where
  -- No event is left in the database.
  abbrev pub IsForgotten : Store pebble json → Type 0
  IsForgotten s =
      (k : Text)
      → text_lt k event_prefix ≡ false
      → text_lt k (prefix_end event_prefix) ≡ true
      → pebble.get s.db k ≡ none

  scan-nil :
      (s : Store pebble json) (lo hi : Text)
      → ((k : Text) → text_lt k lo ≡ false → text_lt k hi ≡ true → pebble.get s.db k ≡ none)
      → pebble.scan s.db lo hi ≡ []
  scan-nil s lo hi gone = elim (List-cases (pebble.scan s.db lo hi)) [
    | inl empty ↦ empty
    | inr ((k, v), es, e) ↦
        let (there, above, below) = (pebble.mem-scan s.db lo hi k v).0 (rw e (inl refl)) in
        let missing = gone k above below in absurd (ground arith)
  ]

  events-forgotten :
      (after before limit : ℕ) (s : Store pebble json)
      → IsForgotten s
      → events pebble json after before limit s ≡ ok []
  unfolding events decode_events
  events-forgotten after before limit s gone =
      let most = if limit == 0 || ltb 10000 limit then 1000 else limit in
      elim (Bool-cases (not (before == 0) && not (before == uint64_mod - 1))) [
        | inl bounded ↦
            let none_left =
              scan-nil s (event_key (next_revision after)) (event_key (next_revision before))
                (λ k above below.
                  gone k (event_key-lower k (next_revision after) above)
                    (event_key-upper k (next_revision before) below)) in
            ground (arith, take-nil {A = Text × Text} most)
        | inr open_end ↦
            let none_left =
              scan-nil s (event_key (next_revision after)) (prefix_end event_prefix)
                (λ k above below. gone k (event_key-lower k (next_revision after) above) below) in
            ground (arith, take-nil {A = Text × Text} most)
      ]

  oldest_revision-forgotten :
      (s : Store pebble json) → IsForgotten s → oldest_revision pebble json s ≡ 0
  unfolding oldest_revision
  oldest_revision-forgotten s gone =
      let none_left = scan-nil s event_prefix (prefix_end event_prefix) gone in ground arith

  later_events-forgotten :
      (fuel cursor last : ℕ) (s : Store pebble json)
      → IsForgotten s
      → later_events pebble json (suc fuel) cursor last [] s ≡ ok []
  unfolding later_events
  later_events-forgotten fuel cursor last s gone =
      let none_left = events-forgotten cursor last 10000 s gone in ground arith

  observed_at-forgotten :
      (revision : ℕ) (s : Store pebble json)
      → IsForgotten s
      → observed_at pebble json revision s ≡ none
  unfolding observed_at
  observed_at-forgotten revision s gone =
      let none_left = events-forgotten (revision - 1) revision 1 s gone in ground arith

  snapshot-revision : (s : Store pebble json) → (snapshot pebble json s).revision ≡ s.revision
  unfolding snapshot sorted_maps
  snapshot-revision s = refl

  -- Where no event is left, a past revision is not refused as expired: the answer is the current
  -- entities, labelled with the past revision and without a time.
  pub snapshot_at-forgotten :
      (revision : ℕ) (s : Store pebble json)
      → IsForgotten s
      → 0 < revision
      → revision < s.revision
      → snapshot_at pebble json revision s
        ≡ ok (sorted_maps revision none (index_maps (snapshot pebble json s)))
  unfolding snapshot_at undo_all
  snapshot_at-forgotten revision s gone past before =
      let current = snapshot-revision s in
      let oldest = oldest_revision-forgotten s gone in
      let unseen = observed_at-forgotten revision s gone in
      let none_later =
        later_events-forgotten ((snapshot pebble json s).revision - revision) revision
          (snapshot pebble json s).revision s gone in
      ground arith
