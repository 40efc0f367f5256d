-- ===== src/Store/History/Replay.antt =====
-- Which subscriptions begin.
use bg_pls.Base.{
  ℕ, ◌+◌, ◌<◌, ◌≤◌, ◌≡◌, ◌↔◌, refl, ap, sym, ◌∙◌, ◌⊎◌, inl, inr, some, none, List, [], ◌∷◌, ◌++◌,
  true, length, length-append, append-nil, append_assoc, arith, Bool-cases,
}
use bg_pls.Store.Pebble.{Pebble}
use bg_pls.Store.Json.{Json, TopologyEvent}
use bg_pls.Store.State.{Store, Subscription, ok, has_room}
use bg_pls.Store.Reads.{events}
use bg_pls.Store.History.{replay, subscribed, stuck, subscribe}

le_or_lt : (m n : ℕ) → (m ≤ n) ⊎ (n < m)
le_or_lt m n = ground arith

room_iff : (sub : Subscription) → (has_room sub ≡ true) ↔ (length sub.buffered < 256)
unfolding has_room
room_iff sub = ground arith

replay-some :
    (es : List TopologyEvent) (sub : Subscription)
    → length sub.buffered + length es ≤ 256
    → replay es sub ≡ some (record { id = sub.id; buffered = sub.buffered ++ es })
unfolding replay
replay-some [] sub le =
    ap (λ q. some (record { id = sub.id; buffered = q })) (sym (append-nil sub.buffered))
replay-some (e ∷ es) sub le =
    let next : Subscription = record sub { buffered = sub.buffered ++ e ∷ [] } in
    let room : has_room sub ≡ true = (room_iff sub).1 (omega arith) in
    let rest = replay-some es next (omega (arith, length-append sub.buffered (e ∷ []))) in
    rw room (
      rest
      ∙ ap (λ q. some (record { id = sub.id; buffered = q }))
          (append_assoc sub.buffered (e ∷ []) es))

replay-none :
    (es : List TopologyEvent) (sub : Subscription)
    → length sub.buffered ≤ 256
    → 256 < length sub.buffered + length es
    → replay es sub ≡ none
unfolding replay
replay-none [] sub le lt = absurd (omega arith)
replay-none (e ∷ es) sub le lt =
    let next : Subscription = record sub { buffered = sub.buffered ++ e ∷ [] } in
    elim (Bool-cases (has_room sub)) [
      | inl room ↦ rw room (
          replay-none es next
            (omega (arith, length-append sub.buffered (e ∷ []), (room_iff sub).0 room))
            (omega (arith, length-append sub.buffered (e ∷ []))))
      | inr full ↦ rw full refl
    ]

module _ (pebble : Pebble) (json : Json) where
  subscribe-some :
      (after : ℕ) (s : Store pebble json) (es : List TopologyEvent) (sub : Subscription)
      → events pebble json after 0 10000 s ≡ ok es
      → replay es (record { id = s.next_sub; buffered = [] }) ≡ some sub
      → subscribe pebble json after s
        ≡ subscribed s.next_sub (record s { next_sub = s.next_sub + 1; subs = s.subs ++ sub ∷ [] })
  unfolding subscribe
  subscribe-some after s es sub found room = rw (found, room) refl

  subscribe-none :
      (after : ℕ) (s : Store pebble json) (es : List TopologyEvent)
      → events pebble json after 0 10000 s ≡ ok es
      → replay es (record { id = s.next_sub; buffered = [] }) ≡ none
      → subscribe pebble json after s ≡ stuck
  unfolding subscribe
  subscribe-none after s es found full = rw (found, full) refl

  -- A subscription begins exactly if at most 256 events are to be replayed: they wait in its channel,
  -- in order, and nothing else of the store changes. With more the call never returns.
  pub subscribe_lem :
      (after : ℕ) (s : Store pebble json) (es : List TopologyEvent)
      → events pebble json after 0 10000 s ≡ ok es
      → ((length es ≤ 256)
          × (subscribe pebble json after s
              ≡ subscribed s.next_sub (record s {
                next_sub = s.next_sub + 1;
                subs = s.subs ++ record { id = s.next_sub; buffered = es } ∷ [];
              })))
        ⊎ ((256 < length es) × (subscribe pebble json after s ≡ stuck))
  subscribe_lem after s es found = elim (le_or_lt (length es) 256) [
    | inl fits ↦
        let all = replay-some es (record { id = s.next_sub; buffered = [] }) (omega arith) in
        inl (fits, subscribe-some after s es _ found all)
    | inr more ↦
        let full =
          replay-none es (record { id = s.next_sub; buffered = [] }) (omega arith) (omega arith) in
        inr (more, subscribe-none after s es found full)
  ]
