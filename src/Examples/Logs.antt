-- ===== src/Examples/Logs.antt =====
-- The event log and the compactor on a small store.
use mathlib.Core.Path.{◌≡◌, refl}
use analytics.Common.{
  ℕ, ℤ, pos, ◌&&◌, ◌||◌, ◌/◌, Option, none, some, List, [], ◌∷◌, arith, codes, ltb, ◌==◌, text_eq,
  if◌then◌else◌,
}
use analytics.Platform.{lex_lt}
use analytics.Store.Keys.{event_key, be_bytes, u64_from_be}
use analytics.Store.Keys.Order.{lex_lt-event_key}
use analytics.Store.Event.{StoredEvent, default_event}
use analytics.Store.Db.{Error, Result, ok, err, Db, Store, read_next_seq, decode_all}
use analytics.Store.Log.{
  append_events, append_loop, all_events, stamp, events_before_with_keys, select_before,
}
use analytics.Store.Log.Append.{IsWellFormed, AppendPost, append_events-AppendPost}
use analytics.Ingest.Compactor.{
  Date, Partition, Archive, World, compact_window, write_groups, group_by_date, push_date,
  push_existing, insert_vacant, partition_eq,
}
use analytics.Ingest.Compactor.NoLoss.{Sealed, compact_window-Sealed, compact_window_err}
use analytics.Examples.Tables.{list_platform}
use analytics.Examples.Codecs.Records.{json}

abbrev empty_db : Db list_platform
empty_db = record {
  events = list_platform.empty;
  projects = list_platform.empty;
  sources = list_platform.empty;
  pixels = list_platform.empty;
  exception_triage = list_platform.empty;
  meta = list_platform.empty;
}

abbrev fresh_store : Store list_platform
fresh_store = record { db = empty_db; next_seq = 0 }

fresh_store-IsWellFormed : IsWellFormed list_platform json fresh_store
unfolding read_next_seq
fresh_store-IsWellFormed = record {
  entries = λ k b h. cc;
  persisted = omega arith;
  in_range = omega arith;
}

abbrev event_at : ℕ → StoredEvent
event_at ms = record default_event { received_ms = pos ms; source = codes "https://a.com" }

abbrev two_events : List StoredEvent
two_events = event_at 1000 ∷ event_at 9000 ∷ []

abbrev stored : Store list_platform
stored = (append_events list_platform json two_events fresh_store).1

stored_order :
    all_events list_platform json stored.db
    ≡ ok (stamp (event_at 1000) 0 ∷ stamp (event_at 9000) 1 ∷ [])
unfolding append_events append_loop all_events decode_all event_key be_bytes lex_lt text_eq
stored_order = refl

append_events-AppendPost_example :
    AppendPost list_platform json two_events fresh_store
      (append_events list_platform json two_events fresh_store).1
      (append_events list_platform json two_events fresh_store).0
append_events-AppendPost_example =
    append_events-AppendPost list_platform json two_events fresh_store (omega arith) (omega arith)
      fresh_store-IsWellFormed

lex_lt-event_key_example :
    lex_lt (event_key (pos 255) 7) (event_key (pos 256) 3)
    ≡ (ltb 255 256 || (255 == 256 && ltb 7 3))
lex_lt-event_key_example =
    lex_lt-event_key (pos 255) (pos 256) 7 3 (omega arith) (omega arith) (omega arith) (omega arith)

-- One day lasts 2000 ms here, and the files are a function; writing always succeeds.
abbrev day_of : ℤ → Option Date
day_of (ℤ.pos n) = some (record { year = pos 1970; month = 1; day = n / 2000 })
day_of (ℤ.negsuc n) = none

abbrev epoch_day : Date
epoch_day = record { year = pos 1970; month = 1; day = 0 }

abbrev write_file :
    List StoredEvent
    → Partition
    → (Partition → Option (List StoredEvent))
    → Result (Partition → Option (List StoredEvent))
write_file es p f = ok (λ q. if partition_eq p q then some es else f q)

pub read-write_file :
    (es : List StoredEvent) (p : Partition) (f g : Partition → Option (List StoredEvent))
    → write_file es p f ≡ ok g
    → (q : Partition) → g q ≡ (if partition_eq p q then some es else f q)
read-write_file es p f g h q = ground arith

abbrev working : Archive
working = record {
  date_of_millis = day_of;
  epoch = epoch_day;
  Files = Partition → Option (List StoredEvent);
  read_partition = λ f q. f q;
  write_partition = write_file;
  read-write = read-write_file;
}

abbrev broken : Archive
broken = record {
  date_of_millis = day_of;
  epoch = epoch_day;
  Files = Unit {0};
  read_partition = λ f q. none;
  write_partition = λ es p f. err Error.storage;
  read-write = λ es p f g h q. cc;
}

abbrev three : Db list_platform → Db list_platform
three db =
    (append_events list_platform json (event_at 500 ∷ []) (record { db = db; next_seq = 2 })).1.db

abbrev world : World working list_platform json
world = record { db = stored.db; files = λ q. none }

-- The event at 1000 is sealed; the event that arrives meanwhile stays, though it is older.
compacted : (compact_window working list_platform json (pos 5000) (pos 42) three world).0 ≡ ok 1
unfolding compact_window events_before_with_keys select_before write_groups group_by_date push_date
    push_existing insert_vacant append_events append_loop event_key be_bytes u64_from_be lex_lt
    text_eq
compacted = refl

compact_window-Sealed_example :
    Sealed working list_platform json
      (pos 5000)
      (pos 42)
      three
      world
      (compact_window working list_platform json (pos 5000) (pos 42) three world).1
      1
compact_window-Sealed_example =
    compact_window-Sealed working list_platform json (pos 5000) (pos 42) three world 1 compacted

abbrev broken_world : World broken list_platform json
broken_world = record { db = stored.db; files = tt }

failed :
    (compact_window broken list_platform json (pos 5000) (pos 42) three broken_world).0
    ≡ err Error.storage
unfolding compact_window events_before_with_keys select_before write_groups group_by_date push_date
    push_existing insert_vacant append_events append_loop event_key be_bytes u64_from_be lex_lt
    text_eq
failed = refl

compact_window_err_example :
    (compact_window broken list_platform json (pos 5000) (pos 42) three broken_world).1.db
    ≡ three stored.db
compact_window_err_example =
    compact_window_err broken list_platform json (pos 5000) (pos 42) three broken_world
      Error.storage failed
