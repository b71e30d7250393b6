-- ===== src/Store/Schema.antt =====
-- agent/src/store/schema.rs and Store::open of mod.rs: the version of the schema and the migrations.
pub mod Collapsed
pub mod Migration
use analytics.Common.{
  ℕ, zero, suc, ◌+◌, ◌-◌, Bool, true, false, Option, none, some, List, [], ◌∷◌, Text, codes,
  text_eq, ltb, ◌==◌, if◌then◌else◌,
}
use analytics.Platform.{Bytes, Platform}
use analytics.Store.Keys.{be_bytes, u32_from_be}
use analytics.Store.Records.{ExceptionTriage, LegacyTriage}
use analytics.Store.Db.{
  Error, Result, ok, err, ◌>>=◌, or_system_err, Json, Db, Store, meta_schema_version, read_next_seq,
}
use analytics.Store.Rewrite.{collect, insert_all}

abbrev pub schema_version : ℕ
schema_version = 2

-- The record that takes the place of a collapsed one.
abbrev pub migrated : {T : Type 0} → LegacyTriage T → ExceptionTriage T
migrated legacy =
    let resolved = text_eq legacy.status (codes "resolved") in
    let ignored = text_eq legacy.status (codes "ignored") in
    record {
      resolved_at = if resolved then some legacy.updated_at else none;
      muted_at = if resolved then none else if ignored then some legacy.updated_at else none;
      note = legacy.note;
      updated_at = legacy.updated_at;
      updated_by = legacy.updated_by;
    }

module _ (P : Platform) where
  unfoldable pub read_version : Db P → ℕ
  read_version db = elim (P.get db.meta meta_schema_version) [ none ↦ 0 | some v ↦ u32_from_be v ]

  unfoldable pub write_version : ℕ → Db P → Db P
  write_version version db = record db {
    meta = P.insert meta_schema_version (be_bytes 4 version) db.meta;
  }

  module _ (J : Json P) where
    abbrev pub rewritten : LegacyTriage P.DateTime → Result (Option Bytes)
    rewritten legacy = do b ← or_system_err (J.triage.encode (migrated legacy)); ok (some b)

    unfoldable pub migrate_triage_to_axes : Db P → Result (Db P)
    migrate_triage_to_axes db = do
      rewrites ← collect J.legacy_triage rewritten (P.iter db.exception_triage)
      ok (record db { exception_triage = insert_all P rewrites db.exception_triage })

    -- `apply`
    unfoldable pub apply_migration : ℕ → Db P → Result (Db P)
    apply_migration version db =
        if version == 1
        then ok db
        else if version == 2
        then migrate_triage_to_axes db
        else err (Error.no_migration version)

    -- The loop, with the number of its rounds. Each migration and each stamp is a transaction of
    -- its own, so an error leaves the database at the last version that was reached.
    unfoldable pub migrate_steps : ℕ → ℕ → Db P → Result (Unit {0}) × Db P
    migrate_steps zero version db = (ok tt, db)
    migrate_steps (suc rounds) version db = elim (apply_migration (version + 1) db) [
      | err e ↦ (err e, db)
      | ok db' ↦ migrate_steps rounds (version + 1) (write_version (version + 1) db')
    ]

    unfoldable pub migrate : Db P → Result (Unit {0}) × Db P
    migrate db =
        let current = read_version db in
        if current == schema_version
        then (ok tt, db)
        else if ltb schema_version current
        then (err (Error.newer_schema current), db)
        else migrate_steps (schema_version - current) current db

    abbrev pub opened : Result (Unit {0}) × Db P → Result (Store P)
    opened (err e, db) = err e
    opened (ok _, db) = ok (record { db = db; next_seq = read_next_seq P db })

    -- `Store::open`, on the tables that the file holds.
    unfoldable pub open_store : Db P → Result (Store P)
    unfolding migrate
    open_store db = opened (migrate db)
