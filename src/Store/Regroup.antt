-- ===== src/Store/Regroup.antt =====
-- agent/src/store/regroup.rs, regroup_partition of agent/src/store/parquet.rs and
-- agent/src/ingest/regroup.rs: the groups of the stored exceptions are computed again when the
-- rules of grouping have changed.
pub mod Hot
use analytics.Common.{
  ℕ, ◌+◌, ◌==◌, Bool, true, false, Option, none, some, List, [], ◌∷◌, ◌≡◌, length, Text, text_eq,
  if◌then◌else◌,
}
use analytics.Platform.{Bytes, Platform}
use analytics.Store.Keys.{be_bytes, u32_from_be}
use analytics.Store.Event.{StoredEvent, is_exception}
use analytics.Store.Db.{Result, ok, err, ◌>>=◌, or_system_err, Json, Db, meta_fingerprint_version}
use analytics.Store.Entities.{is_some_text}
use analytics.Store.Rewrite.{collect, insert_all}

-- `Regroup`: the group of a type, a message and a stack.
abbrev pub Remap : Type 0
Remap = Text → Option Text → Option Text → Text

abbrev or_empty : Option Text → Text
or_empty none = []
or_empty (some t) = t

abbrev pub group_by : Remap → StoredEvent → Text
group_by remap e = remap (or_empty e.exc_type) e.exc_message e.exc_stack

abbrev pub is_stale : Remap → StoredEvent → Bool
is_stale remap e = if is_some_text e.exc_group (group_by remap e) then false else true

abbrev pub regrouped : Remap → StoredEvent → StoredEvent
regrouped remap e = record e { exc_group = some (group_by remap e) }

-- The partitions on disk: polars and the file system. A partition is written to a temporary file
-- that is then renamed, so a failure leaves it as it was.
pub record ColdFiles : Type 1 where
  pub Files : Type 0
  pub Partition : Type 0
  pub parquet_files : Files → List Partition
  pub read_partition : Files → Partition → Result (List StoredEvent)
  pub write_dataframe : List StoredEvent → Partition → Files → Result Files

module _ (P : Platform) where
  unfoldable pub fingerprint_version : Db P → ℕ
  fingerprint_version db = elim (P.get db.meta meta_fingerprint_version) [
    | none ↦ 0
    | some value ↦ u32_from_be value
  ]

  unfoldable pub set_fingerprint_version : ℕ → Db P → Db P
  set_fingerprint_version version db = record db {
    meta = P.insert meta_fingerprint_version (be_bytes 4 version) db.meta;
  }

  module _ (J : Json P) (remap : Remap) where
    abbrev pub rewrite_stale : StoredEvent → Result (Option Bytes)
    rewrite_stale e = do bytes ← or_system_err (J.event.encode (regrouped remap e)); ok (some bytes)

    -- The rewrite of one event: `ok none` where the loop goes on without one.
    abbrev pub regroup_event : StoredEvent → Result (Option Bytes)
    regroup_event e =
        if is_exception e.kind
        then (if is_stale remap e then rewrite_stale e else ok none)
        else ok none

    unfoldable pub regroup_hot_exceptions : Db P → Result (ℕ × Db P)
    regroup_hot_exceptions db = do
      updates ← collect J.event.decode regroup_event (P.iter db.events)
      ok (length updates, record db { events = insert_all P updates db.events })

unfoldable pub regroup_rows : Remap → List StoredEvent → List StoredEvent
regroup_rows remap [] = []
regroup_rows remap (e ∷ es) =
    (if is_exception e.kind then regrouped remap e else e) ∷ regroup_rows remap es

unfoldable pub count_stale : Remap → List StoredEvent → ℕ
count_stale remap [] = 0
count_stale remap (e ∷ es) =
    let rest = count_stale remap es in
    if is_exception e.kind then (if is_stale remap e then 1 + rest else rest) else rest

module _ (F : ColdFiles) (remap : Remap) where
  abbrev pub rewrite_rows : ℕ → List StoredEvent → F.Partition → F.Files → Result (ℕ × F.Files)
  rewrite_rows changed rows path files =
      if changed == 0
      then ok (0, files)
      else (do files' ← F.write_dataframe rows path files; ok (changed, files'))

  unfoldable pub regroup_partition : F.Partition → F.Files → Result (ℕ × F.Files)
  unfolding regroup_rows count_stale
  regroup_partition path files = do
    rows ← F.read_partition files path
    rewrite_rows (count_stale remap rows) (regroup_rows remap rows) path files

  unfoldable pub regroup_all : List F.Partition → ℕ → F.Files → Result (ℕ × F.Files)
  regroup_all [] total files = ok (total, files)
  regroup_all (path ∷ paths) total files = do
    r ← regroup_partition path files
    regroup_all paths (total + r.0) r.1

  unfoldable pub regroup_cold_exceptions : F.Files → Result (ℕ × F.Files)
  regroup_cold_exceptions files = regroup_all (F.parquet_files files) 0 files

abbrev pub current_fingerprint : ℕ
current_fingerprint = 1

module _ (P : Platform) (J : Json P) (F : ColdFiles) (remap : Remap) where
  -- `regroup_if_needed`; the two passes commit on their own, so the stamp stands for both.
  unfoldable pub regroup_if_needed : Db P × F.Files → Result (Db P × F.Files)
  unfolding fingerprint_version regroup_hot_exceptions regroup_cold_exceptions
      set_fingerprint_version
  regroup_if_needed (db, files) =
      if fingerprint_version P db == current_fingerprint then ok (db, files) else (do
        hot ← regroup_hot_exceptions P J remap db
        cold ← regroup_cold_exceptions F remap files
        ok (set_fingerprint_version P current_fingerprint hot.1, cold.1))
