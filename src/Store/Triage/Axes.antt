-- ===== src/Store/Triage/Axes.antt =====
-- Resolution and suppression are independent, and a later occurrence reopens a group.
use analytics.Common.{
  ℤ, leb_ℤ, ◌≡◌, ◌≢◌, refl, sym, ap, subst, Bool, false, Bool-cases, Option, none, some, [], arith,
  inl, inr, Text, trim, text_eq_refl, if◌then◌else◌, text_eq,
}
use analytics.Platform.{Bytes, Platform}
use analytics.Store.Keys.{triage_key}
use analytics.Store.Records.{ExceptionTriage}
use analytics.Store.Db.{
  Error, Result, ok, err, or_system_err, bind-eq-ok, ok-injective, or_system_err-eq-ok, Json, Db,
}
use analytics.Store.Entities.{get_triage, update_triage, triage_or_new}
use analytics.Store.Triage.{
  TriageInput, Response, no_content, bad_request, internal_error, scoped_group, is_blank,
  is_resolved, is_muted, apply_triage, answer, triage,
}

module _ (P : Platform) (J : Json P) where
  -- The record is read back, every other key of the table and every other table is as it was.
  pub record Updated (project_id group_id : Text) (t : ExceptionTriage P.DateTime) (db db' : Db P)
      : Type 0 where
    pub read_back : get_triage P J project_id group_id db' ≡ ok (some t)
    pub others :
        (k : Text)
        → text_eq (triage_key project_id group_id) k ≡ false
        → P.get db'.exception_triage k ≡ P.get db.exception_triage k
    pub events : db'.events ≡ db.events
    pub projects : db'.projects ≡ db.projects
    pub sources : db'.sources ≡ db.sources
    pub pixels : db'.pixels ≡ db.pixels
    pub meta : db'.meta ≡ db.meta

  inserted-Updated :
      (project_id group_id : Text) (t : ExceptionTriage P.DateTime) (bytes : Bytes) (db : Db P)
      → J.triage.encode t ≡ some bytes
      → Updated project_id group_id t db (record db {
        exception_triage = P.insert (triage_key project_id group_id) bytes db.exception_triage;
      })
  unfolding get_triage
  inserted-Updated project_id group_id t bytes db encoded =
      let key = triage_key project_id group_id in
      record {
        read_back = ground (
          arith,
          P.get-insert key key bytes db.exception_triage,
          text_eq_refl key,
          J.triage.decode-encode t bytes encoded,
        );
        others = λ k other. ground (arith, P.get-insert key k bytes db.exception_triage);
        events = refl;
        projects = refl;
        sources = refl;
        pixels = refl;
        meta = refl;
      }

  update_triage-Updated :
      (project_id group_id : Text) (f : ExceptionTriage P.DateTime → ExceptionTriage P.DateTime)
      (now : P.DateTime) (db db' : Db P) (t : ExceptionTriage P.DateTime)
      → update_triage P J project_id group_id f now db ≡ ok (t, db')
      → (old : ExceptionTriage P.DateTime) × (triage_or_new P J project_id group_id now db ≡ ok old)
        × (t ≡ f old)
        × Updated project_id group_id t db db'
  unfolding update_triage
  update_triage-Updated project_id group_id f now db db' t h =
      let (old, had, h1) = bind-eq-ok (triage_or_new P J project_id group_id now db) _ (t, db') h in
      let (bytes, encoded, h2) =
        bind-eq-ok (or_system_err (J.triage.encode (f old))) _ (t, db') h1 in
      let result = ok-injective _ (t, db') h2 in
      let new : t ≡ f old = ap (λ (r : ExceptionTriage P.DateTime × Db P). r.0) (sym result) in
      (
        old,
        had,
        new,
        subst (λ (r : ExceptionTriage P.DateTime × Db P). Updated project_id group_id r.0 db r.1)
            result
            (inserted-Updated project_id group_id (f old) bytes db
              (or_system_err-eq-ok (J.triage.encode (f old)) bytes encoded)),
      )

  -- What the handler `triage` has done. A blank source is refused and an error of the store is
  -- reported, and both leave the database as it was; with a source that is not blank the record of
  -- the group on it, as it stood or fresh, is read back with the request applied, and every other
  -- record and table is as it was.
  abbrev pub TriagePost :
      Text → TriageInput → Option Text → P.DateTime → Db P → Response × Db P → Type 0
  TriagePost group_id input by now db (no_content, db') =
      (trim input.source ≢ [])
      × (old : ExceptionTriage P.DateTime) × (triage_or_new P J input.project_id
            (scoped_group group_id (trim input.source)) now db
          ≡ ok old)
      × Updated input.project_id (scoped_group group_id (trim input.source))
          (apply_triage P input by now old) db db'
  TriagePost group_id input by now db (bad_request, db') = (trim input.source ≡ []) × (db' ≡ db)
  TriagePost group_id input by now db (internal_error, db') =
      (trim input.source ≢ [])
      × (e : Error) × (update_triage P J input.project_id
            (scoped_group group_id (trim input.source)) (apply_triage P input by now) now db
          ≡ err e)
      × (db' ≡ db)

  is_blank-false : (t : Text) → is_blank t ≡ false → trim t ≢ []
  is_blank-false t h e = ground arith

  answer-TriagePost :
      (group_id : Text) (input : TriageInput) (by : Option Text) (now : P.DateTime) (db : Db P)
      (r : Result (ExceptionTriage P.DateTime × Db P))
      → update_triage P J input.project_id
          (scoped_group group_id (trim input.source))
          (apply_triage P input by now)
          now
          db
        ≡ r
      → trim input.source ≢ []
      → TriagePost group_id input by now db (answer P J db r)
  answer-TriagePost group_id input by now db (ok (t, db')) h filled =
      let group = scoped_group group_id (trim input.source) in
      let (old, had, new, updated) =
        update_triage-Updated input.project_id group (apply_triage P input by now) now db db' t h in
      (filled, old, had, subst (λ x. Updated input.project_id group x db db') new updated)
  answer-TriagePost group_id input by now db (err e) h filled = (filled, e, h, refl)

  -- A request answers bad_request exactly with a blank source, and changes nothing. Any other puts in
  -- place of the group's record on the trimmed source the old one, or a fresh one, with the request
  -- applied, every other record and table being as it was; or the update of the store fails, the
  -- answer is internal_error and nothing has changed.
  pub triage-TriagePost :
      (group_id : Text) (input : TriageInput) (by : Option Text) (now : P.DateTime) (db : Db P)
      → TriagePost group_id input by now db (triage P J group_id input by now db)
  unfolding triage
  triage-TriagePost group_id input by now db = elim (Bool-cases (is_blank input.source)) [
    | inl blank ↦
        let empty : trim input.source ≡ [] = ground arith in
        subst (TriagePost group_id input by now db)
          (ap
            (λ (b : Bool).
              if b
              then (bad_request, db)
              else answer P J db (
                  update_triage P J input.project_id (scoped_group group_id (trim input.source))
                    (apply_triage P input by now) now db))
            (sym blank))
          (empty, refl)
    | inr present ↦
        subst (TriagePost group_id input by now db)
          (ap
            (λ (b : Bool).
              if b
              then (bad_request, db)
              else answer P J db (
                  update_triage P J input.project_id (scoped_group group_id (trim input.source))
                    (apply_triage P input by now) now db))
            (sym present))
          (answer-TriagePost group_id input by now db _ refl (is_blank-false input.source present))
  ]

module _ (P : Platform) where
  -- The axes after a request. An axis that the request leaves out is as it was, at any last
  -- occurrence; resolving counts until an occurrence later than the request, and reopening and
  -- unmuting count at once; so muting neither resolves nor reopens, and resolving does not mute.
  pub apply_triage_axes :
      (input : TriageInput) (by : Option Text) (now : P.DateTime) (t : ExceptionTriage P.DateTime)
      (last_seen_ms : ℤ)
      → (is_resolved P (apply_triage P input by now t) last_seen_ms ≡ (elim input.resolved [
        | none ↦ is_resolved P t last_seen_ms
        | some b ↦ if b then leb_ℤ last_seen_ms (P.timestamp_millis now) else false
      ]))
        × (is_muted P (apply_triage P input by now t)
            ≡ (elim input.muted [ none ↦ is_muted P t | some b ↦ b ]))
  unfolding is_resolved is_muted apply_triage
  apply_triage_axes input by now t last_seen_ms = (ground arith, ground arith)
