-- ===== src/Store/History.antt =====
-- The subscriptions and the compaction of the store: `Subscribe` and `CompactHistory`.
pub mod Replay
pub mod Compaction
use bg_pls.Base.{
  ℕ, zero, suc, ◌+◌, ◌-◌, ◌/◌, ◌%◌, Text, Option, none, some, List, [], ◌∷◌, ◌++◌, Bool, true,
  false, not, ◌&&◌, ◌==◌, ltb, leb, length, filter, any, if◌then◌else◌,
}
use bg_pls.Store.Pebble.{Pebble}
use bg_pls.Store.Json.{Json, TopologyEvent}
use bg_pls.Store.State.{
  Store, Subscription, StoreError, Result, ok, err, require, ◌>>=◌, has_room, cancelled,
  commit_failed, uint64_mod,
}
use bg_pls.Store.Reads.{event_prefix, prefix_end, events}

-- The sends of `Subscribe` into the new channel. Nobody can receive from it before `Subscribe`
-- answers, so a send into the full channel waits for ever: `none`.
unfoldable pub replay : List TopologyEvent → Subscription → Option Subscription
unfolding has_room
replay [] sub = some sub
replay (e ∷ es) sub =
    let rest = replay es (record sub { buffered = sub.buffered ++ e ∷ [] }) in
    if has_room sub then rest else none

-- The time of an event in an entry of the database; `AsTime` of no time is the epoch.
abbrev pub event_time : TopologyEvent → ℕ
event_time e = elim e.observed_at [ none ↦ 0 | some t ↦ t ]

module _ (pebble : Pebble) (json : Json) where
  -- `stuck` holds the lock of the store for ever.
  pub data Subscribed : Type 0 where
    subscribed : ℕ → Store pebble json → Subscribed
    failed : StoreError → Subscribed
    stuck : Subscribed

  unfoldable pub subscribe : ℕ → Store pebble json → Subscribed
  unfolding events replay
  subscribe after s = elim (events pebble json after 0 10000 s) [
    | err e ↦ failed e
    | ok found ↦ elim (replay found (record { id = s.next_sub; buffered = [] })) [
      | none ↦ stuck
      | some sub ↦
          subscribed s.next_sub (record s { next_sub = s.next_sub + 1; subs = s.subs ++ sub ∷ [] })
    ]
  ]

  -- The goroutine that waits for the end of the context.
  unfoldable pub unsubscribe : ℕ → Store pebble json → Store pebble json
  unsubscribe id s = record s {
    subs = filter (λ sub. not (sub.id == id)) s.subs;
    closed = s.closed ++ filter (λ sub. sub.id == id) s.subs;
  }

  -- The loop over the events by age; `is_cancelled n` is `ctx.Err() != nil` in round n. The answer is
  -- `deleteTo`.
  unfoldable pub age_out :
      (ℕ → Bool) → ℕ → ℕ → List (Text × Text) → Option Text → Result (Option Text)
  age_out is_cancelled n cutoff [] to = ok to
  age_out is_cancelled n cutoff (e ∷ es) to =
      let skipped = age_out is_cancelled (suc n) cutoff es to in
      let older = age_out is_cancelled (suc n) cutoff es (some e.0) in
      let next : Result (Option Text) = elim (json.unmarshal_event e.1) [
        | none ↦ skipped
        | some event ↦ if ltb (event_time event) cutoff then older else ok to
      ] in
      if is_cancelled n then err cancelled else next

  -- The loop over the events by size.
  unfoldable pub shrink : ℕ → ℕ → List (Text × Text) → Option Text → Option Text
  shrink target accumulated [] to = to
  shrink target accumulated (e ∷ es) to =
      let next = (accumulated + (length e.0 + length e.1)) % uint64_mod in
      let rest = shrink target next es (some e.0) in if leb target next then some e.0 else rest

  unfoldable pub over_size : ℕ → Store pebble json → Option Text → Option Text
  unfolding shrink prefix_end
  over_size max_bytes s to =
      let usage = pebble.disk_usage s.db in
      if not (max_bytes == 0) && ltb max_bytes usage
      then shrink ((usage - max_bytes + max_bytes / 10) % uint64_mod) 0
          (pebble.scan s.db event_prefix (prefix_end event_prefix)) to
      else to

  -- Where `Compact` fails at the end, the events are deleted, but the answer is its error.
  unfoldable pub delete_to : Option Text → Store pebble json → Result (Store pebble json)
  delete_to none s = ok s
  delete_to (some key) s = do
    db ← require commit_failed (pebble.delete_range s.db event_prefix (key ++ 0 ∷ []))
    if pebble.compacts db then ok (record s { db = db }) else err commit_failed

  unfoldable pub compact_history :
      (ℕ → Bool) → ℕ → ℕ → Store pebble json → Result (Store pebble json)
  unfolding age_out over_size delete_to prefix_end
  compact_history is_cancelled cutoff max_bytes s = do
    aged ←
        age_out is_cancelled 0 cutoff (pebble.scan s.db event_prefix (prefix_end event_prefix)) none
    delete_to (over_size max_bytes s aged) s
