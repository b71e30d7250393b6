-- ===== src/Store/Log.antt =====
-- agent/src/store/events.rs: the append-only event log.
pub mod Append
pub mod Scan
use mathlib.Core.List
use analytics.Common.{
  ℕ, suc, ◌+◌, ◌%◌, ◌^◌, ℤ, pos_part, Bool, Option, none, some, List, [], ◌∷◌, Text, ltb, length,
  if◌then◌else◌, take,
}
use analytics.Platform.{Bytes, Platform, Codec}
use analytics.Store.Keys.{be_bytes, event_key, u64_from_be}
use analytics.Store.Event.{StoredEvent}
use analytics.Store.Db.{
  Error, Result, ok, err, ◌>>=◌, or_system_err, Json, Db, Store, meta_next_seq, decode_all,
}

-- `fetch_add(1)` on the shared counter wraps at 64 bits.
abbrev pub next : ℕ → ℕ
next seq = (seq + 1) % 2 ^ 64

abbrev pub stamp : StoredEvent → ℕ → StoredEvent
stamp e n = record e { seq = n }

module _ (P : Platform) (J : Json P) where
  -- The loop of `append_events`: the counter advances also for the event that fails to encode.
  unfoldable pub append_loop : List StoredEvent → P.Table → ℕ → Result P.Table × ℕ
  append_loop [] t n = (ok t, n)
  append_loop (e ∷ es) t n = elim (J.event.encode (stamp e n)) [
    | none ↦ (err Error.storage, next n)
    | some value ↦ append_loop es (P.insert (event_key e.received_ms n) value t) (next n)
  ]

  -- The transaction's second half: the counter is written beside the events.
  abbrev pub commit_append : Store P → Result P.Table × ℕ → Result (Unit {0}) × Store P
  commit_append s (ok t, n) =
      let meta : P.Table = P.insert meta_next_seq (be_bytes 8 n) s.db.meta in
      let db : Db P = s.db in
      (ok tt, record { db = record db { events = t; meta = meta }; next_seq = n })
  commit_append s (err e, n) = (err e, record s { next_seq = n })

  unfoldable pub append_events : List StoredEvent → Store P → Result (Unit {0}) × Store P
  append_events [] s = (ok tt, s)
  append_events (e ∷ es) s = commit_append s (append_loop (e ∷ es) s.db.events s.next_seq)

  -- Every event of the hot store, oldest first.
  unfoldable pub all_events : Db P → Result (List StoredEvent)
  all_events db = do
    entries ← decode_all J.event.decode (P.iter db.events)
    ok (List.map (λ e. e.1) entries)

  unfoldable pub event_count : Db P → ℕ
  event_count db = length (P.iter db.events)

  -- Only the entries below the threshold are decoded.
  unfoldable pub select_before : ℕ → List (List ℕ × Bytes) → Result (List (List ℕ × StoredEvent))
  select_before threshold [] = ok []
  select_before threshold ((k, b) ∷ m) =
      let rest = select_before threshold m in
      if ltb (u64_from_be k) threshold
      then (do e ← or_system_err (J.event.decode b); r ← rest; ok ((k, e) ∷ r))
      else rest

  unfoldable pub events_before_with_keys : ℤ → Db P → Result (List (List ℕ × StoredEvent))
  events_before_with_keys threshold_ms db = select_before (pos_part threshold_ms) (P.iter db.events)

unfoldable pub remove_all : (P : Platform) → List (List ℕ) → P.Table → P.Table
remove_all P [] t = t
remove_all P (k ∷ ks) t = remove_all P ks (P.remove k t)

unfoldable pub delete_keys : (P : Platform) → List (List ℕ) → Db P → Db P
unfolding remove_all
delete_keys P keys db = record db { events = remove_all P keys db.events }
