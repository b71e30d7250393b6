-- ===== src/Ingest/Pipeline.antt =====
-- agent/src/ingest/pipeline.rs: the queue, the writer and the registration of new sources. The set
-- of known sources is a list without repetition; `now` is the clock of a registration. The writer
-- is alone on its batch, and what other threads commit lies between its calls of the store.
pub mod Ceiling
pub mod Registered
pub mod Flush
use analytics.Common.{
  ℕ, ◌+◌, Bool, true, false, ◌||◌, Option, none, some, List, [], ◌∷◌, ◌++◌, map, Text, any, length,
  leb, ltb, text_eq, if◌then◌else◌,
}
use analytics.Platform.{Platform}
use analytics.Store.Event.{StoredEvent}
use analytics.Store.Db.{Error, Result, ok, err, ◌>>=◌, Json, Db, Store}
use analytics.Store.Log.{append_events}
use analytics.Store.Records.{Source}
use analytics.Store.Entities.{register_source_if_absent, list_sources}

abbrev pub queue_capacity : ℕ
queue_capacity = 16384

abbrev pub batch_size : ℕ
batch_size = 512

-- `try_send` on the bounded channel: an event that finds it full is dropped.
unfoldable pub submit : StoredEvent → List StoredEvent → List StoredEvent
submit event queue = if ltb (length queue) queue_capacity then queue ++ (event ∷ []) else queue

abbrev pub is_in : Text → List Text → Bool
is_in t l = any (λ s. text_eq s t) l

-- The loop over the events of a batch, with the sources that were seen and those to register.
unfoldable pub select_new : List Text → ℕ → List StoredEvent → List Text → List Text → List Text
select_new known max_sources [] seen new = new
select_new known max_sources (e ∷ es) seen new =
    let skipped = select_new known max_sources es seen new in
    let capped = select_new known max_sources es (e.source ∷ seen) new in
    let added = select_new known max_sources es (e.source ∷ seen) (new ++ (e.source ∷ [])) in
    if is_in e.source known || is_in e.source seen
    then skipped
    else if leb max_sources (length known + length new)
    then capped
    else added

-- What the `select!` of the writer loop wakes up for.
pub data Wake : Type 0 where
  received : StoredEvent → Wake
  closed : Wake
  tick : Wake

module _ (P : Platform) (J : Json P) where
  pub record Writer : Type 0 where
    pub store : Store P
    pub batch : List StoredEvent
    pub known_sources : List Text

  abbrev uris : Result (List (Source P.DateTime)) → List Text
  uris (ok sources) = map (λ (s : Source P.DateTime). s.uri) sources
  uris (err e) = []

  -- The state in which the loop starts: the persisted sources are known, or none if they cannot be read.
  unfoldable pub writer_start : Store P → Writer
  writer_start s = record { store = s; batch = []; known_sources = uris (list_sources P J s.db) }

  abbrev pub with_db : Store P → Db P → Store P
  with_db s db = record s { db = db }

  -- Each registration is a transaction of its own; the first error ends the loop.
  unfoldable pub register_all : P.DateTime → List Text → Store P → Result (Unit {0}) × Store P
  register_all now [] s = (ok tt, s)
  register_all now (uri ∷ uris) s = elim (register_source_if_absent P J uri now s.db) [
    | err e ↦ (err e, s)
    | ok db ↦ register_all now uris (with_db s db)
  ]

  -- The blocking task: the events first, then the sources.
  abbrev pub after_append :
      P.DateTime → List Text → Result (Unit {0}) × Store P → Result (Unit {0}) × Store P
  after_append now new (err e, s) = (err e, s)
  after_append now new (ok _, s) = register_all now new s

  -- What stays in memory of the task's result: an error is only logged.
  abbrev pub settle : List Text → List Text → Result (Unit {0}) × Store P → Writer
  settle known new (ok _, s) = record { store = s; batch = []; known_sources = known ++ new }
  settle known new (err e, s) = record { store = s; batch = []; known_sources = known }

  unfoldable pub flush_batch : ℕ → P.DateTime → Writer → Writer
  unfolding select_new register_all
  flush_batch max_sources now w = elim w.batch [
    | [] ↦ w
    | e ∷ es ↦
        (let new = select_new w.known_sources max_sources (e ∷ es) [] [] in
          settle w.known_sources new (after_append now new (append_events P J (e ∷ es) w.store)))
  ]

  -- One round, and whether the loop goes on.
  unfoldable pub writer_step : ℕ → P.DateTime → Wake → Writer → Bool × Writer
  unfolding flush_batch
  writer_step max_sources now (received event) w =
      let w' = record w { batch = w.batch ++ (event ∷ []) } in
      let flushed = flush_batch max_sources now w' in
      (true, if leb batch_size (length w'.batch) then flushed else w')
  writer_step max_sources now closed w = (false, flush_batch max_sources now w)
  writer_step max_sources now tick w = (true, flush_batch max_sources now w)
