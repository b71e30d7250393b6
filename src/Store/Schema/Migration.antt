-- ===== src/Store/Schema/Migration.antt =====
-- What `migrate` does at each version, and what a store that was opened is worth.
use analytics.Common.{
  ℕ, zero, suc, ◌-◌, ◌<◌, ◌^◌, ◌≡◌, refl, sym, ap, ◌∙◌, subst, ◌⊎◌, true, false, none, some, List,
  arith, inl, inr, Text, text_eq, text_eq_refl, ltb, ◌==◌, if◌then◌else◌,
}
use analytics.Platform.{Bytes, Platform}
use analytics.Store.Keys.{be_bytes}
use analytics.Store.Keys.Order.{u32_from_be-be_bytes}
use analytics.Store.Records.{LegacyTriage}
use analytics.Store.Db.{
  Error, Result, ok, err, or_system_err, bind-eq-ok, ok-injective, or_system_err-eq-ok,
  Result-cases, Json, Db, Store, meta_schema_version, meta_next_seq, read_next_seq,
}
use analytics.Store.Log.Append.{IsBelow, IsWellFormed}
use analytics.Store.Rewrite.{collect, insert_all}
use analytics.Store.Rewrite.Laws.{get-rewritten, get-rewritten_at}
use analytics.Store.Schema.Collapsed.{AsAxes, migrated-AsAxes}
use analytics.Store.Schema.{
  schema_version, migrated, read_version, write_version, rewritten, migrate_triage_to_axes,
  apply_migration, migrate_steps, migrate, opened, open_store,
}

module _ (P : Platform) (J : Json P) where
  -- Everything but the triage table and the version is as it was.
  pub record Untouched (db db' : Db P) : Type 0 where
    pub events : db'.events ≡ db.events
    pub projects : db'.projects ≡ db.projects
    pub sources : db'.sources ≡ db.sources
    pub pixels : db'.pixels ≡ db.pixels
    pub meta :
        (k : Text) → text_eq meta_schema_version k ≡ false → P.get db'.meta k ≡ P.get db.meta k

  -- Each record of the triage table is rewritten, and none is added or dropped.
  pub record Rewritten (db db' : Db P) : Type 0 where
    pub record_at :
        (k : Text) (b : Bytes)
        → P.get db.exception_triage k ≡ some b
        → (legacy : LegacyTriage P.DateTime) × (J.legacy_triage b ≡ some legacy)
          × AsAxes legacy (migrated legacy)
          × (c : Bytes) × (J.triage.encode (migrated legacy) ≡ some c)
          × (P.get db'.exception_triage k ≡ some c)
    pub absent :
        (k : Text) → P.get db.exception_triage k ≡ none → P.get db'.exception_triage k ≡ none

  read_version-write_version :
      (n : ℕ) (db : Db P) → n < 2 ^ 32 → read_version P (write_version P n db) ≡ n
  unfolding read_version write_version
  read_version-write_version n db h =
      let found : P.get (P.insert meta_schema_version (be_bytes 4 n) db.meta) meta_schema_version
          ≡ some (be_bytes 4 n) =
        ground (
          arith,
          P.get-insert meta_schema_version meta_schema_version (be_bytes 4 n) db.meta,
          text_eq_refl meta_schema_version,
        ) in
      ground (arith, found, u32_from_be-be_bytes n h)

  write_version-Untouched :
      (n : ℕ) (db db' : Db P) → Untouched db db' → Untouched db (write_version P n db')
  unfolding write_version
  write_version-Untouched n db db' u = record {
    events = u.events;
    projects = u.projects;
    sources = u.sources;
    pixels = u.pixels;
    meta = λ k other.
        ground (arith, P.get-insert meta_schema_version k (be_bytes 4 n) db'.meta, u.meta k other);
  }

  migrate_triage_to_axes-Rewritten :
      (db db' : Db P) → migrate_triage_to_axes P J db ≡ ok db' → Rewritten db db' × Untouched db db'
  unfolding migrate_triage_to_axes
  migrate_triage_to_axes-Rewritten db db' h =
      let (ups, collected, h1) =
        bind-eq-ok (collect J.legacy_triage (rewritten P J) (P.iter db.exception_triage)) _ db' h in
      subst (λ x. Rewritten db x × Untouched db x) (ok-injective _ db' h1)
        (
          record {
            record_at = λ k b found. at ups collected k b found;
            absent = λ k missing.
                get-rewritten P J.legacy_triage (rewritten P J) db.exception_triage ups k collected
                ∙ rw missing;
          },
          record {
            events = refl;
            projects = refl;
            sources = refl;
            pixels = refl;
            meta = λ k o. refl;
          },
        )
    where
      at :
          (ups : List (List ℕ × Bytes))
          → collect J.legacy_triage (rewritten P J) (P.iter db.exception_triage) ≡ ok ups
          → (k : Text) (b : Bytes) → P.get db.exception_triage k ≡ some b
          → (legacy : LegacyTriage P.DateTime) × (J.legacy_triage b ≡ some legacy)
            × AsAxes legacy (migrated legacy)
            × (c : Bytes) × (J.triage.encode (migrated legacy) ≡ some c)
            × (P.get (insert_all P ups db.exception_triage) k ≡ some c)
      at ups collected k b found =
          let (legacy, o, decoded, made, after) =
            get-rewritten_at J.legacy_triage (rewritten P J) P db.exception_triage ups k b collected
              found in
          let (c, encoded, split) =
            bind-eq-ok (or_system_err (J.triage.encode (migrated legacy))) _ o made in
          let some_c : some c ≡ o = ok-injective _ o split in
          (
            legacy,
            decoded,
            migrated-AsAxes legacy,
            c,
            or_system_err-eq-ok _ c encoded,
            after ∙ (rw (← some_c)),
          )

  -- The scan of the triage table fails.
  abbrev pub Unreadable : Db P → Error → Type 0
  Unreadable db e = collect J.legacy_triage (rewritten P J) (P.iter db.exception_triage) ≡ err e

  migrate_triage_to_axes_err :
      (db : Db P) (e : Error) → migrate_triage_to_axes P J db ≡ err e → Unreadable db e
  unfolding migrate_triage_to_axes
  migrate_triage_to_axes_err db e h =
      elim (Result-cases (collect J.legacy_triage (rewritten P J) (P.iter db.exception_triage))) [
        | inl (e', bad) ↦
            let failed = rw (bad, migrate_triage_to_axes) at h in
            let same : e' ≡ e = cc in bad ∙ ap err same
        | inr (ups, good) ↦ absurd (let h' = rw (good, migrate_triage_to_axes) at h in cc)
      ]

  abbrev pub MigratePost : Db P → Result (Unit {0}) × Db P → Type 0
  MigratePost db (ok _, db') =
      (read_version P db' ≡ schema_version)
      × Untouched db db'
      × ((read_version P db ≡ schema_version) × (db' ≡ db)
          ⊎ (read_version P db < schema_version) × Rewritten db db')
  MigratePost db (err e, db') =
      Untouched db db'
      × (db'.exception_triage ≡ db.exception_triage)
      × ((schema_version < read_version P db)
            × (e ≡ Error.newer_schema (read_version P db))
            × (db' ≡ db)
          ⊎ (read_version P db < schema_version) × Unreadable db e)

  write_version-Rewritten :
      (n : ℕ) (db db' : Db P) → Rewritten db db' → Rewritten db (write_version P n db')
  unfolding write_version
  write_version-Rewritten n db db' r = record { record_at = r.record_at; absent = r.absent }

  -- The last round.
  abbrev LastPost : Db P → Result (Unit {0}) × Db P → Type 0
  LastPost db (ok _, db') =
      (read_version P db' ≡ schema_version) × Untouched db db' × Rewritten db db'
  LastPost db (err e, db') = (db' ≡ db) × Unreadable db e

  migrate_steps-last : (db : Db P) → LastPost db (migrate_steps P J 1 1 db)
  unfolding migrate_steps apply_migration
  migrate_steps-last db = elim (Result-cases (migrate_triage_to_axes P J db)) [
    | inl (e, bad) ↦
        subst (LastPost db) (sym (after_err e bad)) (refl, migrate_triage_to_axes_err db e bad)
    | inr (db', good) ↦
        let (r, u) = migrate_triage_to_axes-Rewritten db db' good in
        subst (LastPost db) (sym (after_ok db' good)) (
          read_version-write_version 2 db' (omega arith),
          write_version-Untouched 2 db db' u,
          write_version-Rewritten 2 db db' r,
        )
  ]
    where
      after_err :
          (e : Error)
          → migrate_triage_to_axes P J db ≡ err e
          → migrate_steps P J 1 1 db ≡ (err e, db)
      after_err e bad = rw (bad, migrate_steps) refl

      after_ok :
          (db' : Db P)
          → migrate_triage_to_axes P J db ≡ ok db'
          → migrate_steps P J 1 1 db ≡ (ok tt, write_version P 2 db')
      after_ok db' good = rw (good, migrate_steps) refl

  -- From version 0 the first round only stamps version 1.
  abbrev first_stamp : Db P → Db P
  first_stamp db = write_version P 1 db

  migrate_steps-first :
      (db : Db P) → read_version P db ≡ 0 → MigratePost db (migrate_steps P J 2 0 db)
  unfolding migrate_steps apply_migration write_version
  migrate_steps-first db v =
      from_last (migrate_steps P J 1 1 (first_stamp db)) (migrate_steps-last (first_stamp db))
    where
      base : Untouched db (first_stamp db)
      base = write_version-Untouched 1 db db (record {
        events = refl;
        projects = refl;
        sources = refl;
        pixels = refl;
        meta = λ k o. refl;
      })

      from_last : (r : Result (Unit {0}) × Db P) → LastPost (first_stamp db) r → MigratePost db r
      from_last (ok x, db') (version, u, r) = (
        version,
        record {
          events = u.events;
          projects = u.projects;
          sources = u.sources;
          pixels = u.pixels;
          meta = λ k o. u.meta k o ∙ base.meta k o;
        },
        inr (omega arith, record { record_at = r.record_at; absent = r.absent }),
      )
      from_last (err e, db') (same, bad) = (
        subst (Untouched db) (sym same) base,
        ap (λ (d : Db P). d.exception_triage) same,
        inr (omega arith, bad),
      )

  migrate_steps-second :
      (db : Db P) → read_version P db ≡ 1 → MigratePost db (migrate_steps P J 1 1 db)
  migrate_steps-second db v = from_last (migrate_steps P J 1 1 db) (migrate_steps-last db)
    where
      from_last : (r : Result (Unit {0}) × Db P) → LastPost db r → MigratePost db r
      from_last (ok x, db') (version, u, r) = (version, u, inr (omega arith, r))
      from_last (err e, db') (same, bad) = (
        subst (Untouched db) (sym same) (record {
          events = refl;
          projects = refl;
          sources = refl;
          pixels = refl;
          meta = λ k o. refl;
        }),
        ap (λ (d : Db P). d.exception_triage) same,
        inr (omega arith, bad),
      )

  -- What `migrate` does from each version. When it succeeds the version is the current one, and
  -- either it was so before and nothing has changed, or it was older and each triage record is
  -- rewritten to its two axes, with no record added or dropped. A newer version is refused with
  -- nothing changed, and the only other error is that of the scan of the triage table of an older
  -- store; on any error the triage table is as it was. In every case only the triage table and the
  -- stamp of the version are written.
  pub migrate-MigratePost : (db : Db P) → MigratePost db (migrate P J db)
  unfolding migrate
  migrate-MigratePost db = go (read_version P db) refl
    where
      go :
          (v : ℕ)
          → read_version P db ≡ v
          → MigratePost db (
              if v == schema_version
              then (ok tt, db)
              else if ltb schema_version v
              then (err (Error.newer_schema v), db)
              else migrate_steps P J (schema_version - v) v db)
      go zero e = migrate_steps-first db e
      go (suc zero) e = migrate_steps-second db e
      go (suc (suc zero)) e = (
        e,
        record {
          events = refl;
          projects = refl;
          sources = refl;
          pixels = refl;
          meta = λ k o. refl;
        },
        inl (e, refl),
      )
      go (suc (suc (suc n))) e = rw (different) (
          rw (newer) (
            record {
              events = refl;
              projects = refl;
              sources = refl;
              pixels = refl;
              meta = λ k o. refl;
            },
            refl,
            inl (rw (e) (omega arith, refl, refl)),
          ))
        where
          different : (suc (suc (suc n)) == schema_version) ≡ false
          different = ground arith

          newer : ltb schema_version (suc (suc (suc n))) ≡ true
          newer = ground arith

  same_counter : (db db' : Db P) → Untouched db db' → read_next_seq P db' ≡ read_next_seq P db
  unfolding read_next_seq text_eq
  same_counter db db' u =
      let same : P.get db'.meta meta_next_seq ≡ P.get db.meta meta_next_seq =
        u.meta meta_next_seq refl in
      rw (same, read_next_seq) refl

  abbrev pub OpenPost : Db P → Result (Store P) → Type 0
  OpenPost db (ok s) =
      IsWellFormed P J s
      × (read_version P s.db ≡ schema_version)
      × Untouched db s.db
      × (s.next_seq ≡ read_next_seq P db)
  OpenPost db (err e) = Unit {0}

  -- Opening a file whose entries all lie below the persisted counter gives a well-formed store of
  -- the current schema, with the counter in memory equal to the persisted one.
  pub open_store-OpenPost :
      (db : Db P)
      → IsBelow P J (read_next_seq P db) db.events
      → read_next_seq P db < 2 ^ 64
      → OpenPost db (open_store P J db)
  unfolding open_store migrate
  open_store-OpenPost db below small = go (migrate P J db) (migrate-MigratePost db)
    where
      go : (r : Result (Unit {0}) × Db P) → MigratePost db r → OpenPost db (opened P J r)
      go (err e, db') post = tt
      go (ok x, db') (version, u, _) =
          let same : read_next_seq P db' ≡ read_next_seq P db = same_counter db db' u in
          (
            record {
              entries = λ k b h. rw (same) (below k b (ap (λ t. P.get t k) (sym u.events) ∙ h));
              persisted = omega arith;
              in_range = omega (arith, same);
            },
            version,
            u,
            same,
          )
