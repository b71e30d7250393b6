-- ===== src/Store/Records.antt =====
-- api/src/project.rs, source.rs, pixel.rs and agent/src/store/triage.rs: the records of the
-- metadata tables. `T` is chrono's `DateTime<Utc>`.
use analytics.Common.{Option, List, Text}

pub record Project (T : Type 0) : Type 0 where
  pub id : Text
  pub name : Text
  pub slug : Text
  pub created_at : T

pub data SourceKind : Type 0 where
  website application : SourceKind

pub record Source (T : Type 0) : Type 0 where
  pub uri : Text
  pub project_id : Option Text
  pub kind : SourceKind
  pub display_name : Option Text
  pub created_at : T
  pub first_seen : Option T
  pub last_seen : Option T

-- The metadata is a sorted map.
pub record Pixel (T : Type 0) : Type 0 where
  pub id : Text
  pub project_id : Text
  pub name : Text
  pub event_name : Text
  pub metadata : List (Text × Text)
  pub created_at : T
  pub last_hit : Option T

pub record ExceptionTriage (T : Type 0) : Type 0 where
  pub resolved_at : Option T
  pub muted_at : Option T
  pub note : Option Text
  pub updated_at : T
  pub updated_by : Option Text

-- The triage record before schema 2 (schema.rs).
pub record LegacyTriage (T : Type 0) : Type 0 where
  pub status : Text
  pub note : Option Text
  pub updated_at : T
  pub updated_by : Option Text
