-- ===== src/Store/Triage.antt =====
-- agent/src/store/triage.rs and the collapsed status of api/src/exception.rs: the two axes of an
-- exception group's triage, and agent/src/web/api/exceptions.rs: the handler that sets them.
pub mod Axes
use analytics.Common.{
  ℕ, ℤ, leb_ℤ, Bool, true, false, Option, none, some, List, [], ◌∷◌, ◌++◌, Text, trim,
  if◌then◌else◌,
}
use analytics.Platform.{Platform}
use analytics.Store.Records.{ExceptionTriage}
use analytics.Store.Db.{Error, Result, ok, err, ◌>>=◌, Json, Db}
use analytics.Store.Entities.{update_triage}

pub data ExceptionStatus : Type 0 where
  unresolved resolved ignored : ExceptionStatus

-- `ExceptionStatus::from`, on the axes of a group.
unfoldable pub status_of : Bool → Bool → ExceptionStatus
status_of is_resolved is_muted =
    if is_muted then ignored else if is_resolved then resolved else unresolved

-- The request body of the handler.
pub record TriageInput : Type 0 where
  pub project_id : Text
  pub resolved : Option Bool
  pub muted : Option Bool
  pub note : Option Text
  pub source : Text

pub data Response : Type 0 where
  no_content bad_request internal_error : Response

-- The group key of a source: `<group>@<source>`.
unfoldable pub scoped_group : Text → Text → Text
scoped_group group_id source = group_id ++ b'@' ∷ source

abbrev pub is_blank : Text → Bool
is_blank t = elim (trim t) [ [] ↦ true | _ ↦ false ]

module _ (P : Platform) where
  unfoldable pub is_resolved : ExceptionTriage P.DateTime → ℤ → Bool
  is_resolved t last_seen_ms = elim t.resolved_at [
    | none ↦ false
    | some at ↦ leb_ℤ last_seen_ms (P.timestamp_millis at)
  ]

  unfoldable pub is_muted : ExceptionTriage P.DateTime → Bool
  is_muted t = elim t.muted_at [ none ↦ false | some _ ↦ true ]

  -- `b.then_some(now)` where the caller sends the axis; else the axis is left alone.
  abbrev pub set_axis : Option Bool → P.DateTime → Option P.DateTime → Option P.DateTime
  set_axis none now old = old
  set_axis (some true) now old = some now
  set_axis (some false) now old = none

  abbrev pub set_note : Option Text → Option Text → Option Text
  set_note none old = old
  set_note (some n) old = if is_blank n then none else some n

  -- The closure that `triage` hands to `update_triage`.
  unfoldable pub apply_triage :
      TriageInput
      → Option Text
      → P.DateTime
      → ExceptionTriage P.DateTime
      → ExceptionTriage P.DateTime
  apply_triage input updated_by now t = record {
    resolved_at = set_axis input.resolved now t.resolved_at;
    muted_at = set_axis input.muted now t.muted_at;
    note = set_note input.note t.note;
    updated_at = now;
    updated_by = updated_by;
  }

  module _ (J : Json P) where
    abbrev pub answer : Db P → Result (ExceptionTriage P.DateTime × Db P) → Response × Db P
    answer db (ok (t, db')) = (no_content, db')
    answer db (err e) = (internal_error, db)

    -- The handler `triage`.
    unfoldable pub triage : Text → TriageInput → Option Text → P.DateTime → Db P → Response × Db P
    unfolding apply_triage
    triage group_id input updated_by now db =
        if is_blank input.source
        then (bad_request, db)
        else answer db (
            update_triage P J input.project_id (scoped_group group_id (trim input.source))
              (apply_triage input updated_by now) now db)
