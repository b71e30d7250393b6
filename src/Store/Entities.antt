-- ===== src/Store/Entities.antt =====
-- agent/src/store/entities.rs: projects, sources, pixels and the triage of exceptions. An instant
-- that the source takes from `Utc::now` is an argument.
pub mod Cascade
use mathlib.Core.Option
use analytics.Common.{
  ℕ, Bool, true, false, Option, none, some, List, [], ◌∷◌, Text, text_eq, codes, if◌then◌else◌,
}
use analytics.Platform.{Bytes, Platform}
use analytics.Store.Keys.{triage_key}
use analytics.Store.Records.{
  Project, Source, SourceKind, website, application, Pixel, ExceptionTriage,
}
use analytics.Store.Sources.{default_kind}
use analytics.Store.Db.{
  Result, ok, err, ◌>>=◌, or_system_err, Json, Db, put_json, get_json, list_json, mutate_json,
  delete_key,
}
use analytics.Store.Log.{remove_all}
use analytics.Store.Rewrite.{collect, select_keys, insert_all}

abbrev pub is_some_text : Option Text → Text → Bool
is_some_text none t = false
is_some_text (some s) t = text_eq s t

module _ (P : Platform) (J : Json P) where
  unfoldable pub put_project : Project P.DateTime → Db P → Result (Db P)
  unfolding put_json
  put_project p db = do t ← put_json P J.project p.id p db.projects; ok (record db { projects = t })

  unfoldable pub get_project : Text → Db P → Result (Option (Project P.DateTime))
  unfolding get_json
  get_project id db = get_json P J.project id db.projects

  unfoldable pub list_projects : Db P → Result (List (Project P.DateTime))
  unfolding list_json
  list_projects db = list_json P J.project db.projects

  unfoldable pub delete_project : Text → Db P → Bool × Db P
  unfolding delete_key
  delete_project id db =
      let (existed, t) = delete_key P id db.projects in (existed, record db { projects = t })

  -- A source of the project is written back without its project.
  abbrev pub unassigned : Text → Source P.DateTime → Result (Option Bytes)
  unassigned id s =
      if is_some_text s.project_id id
      then (do b ← or_system_err (J.source.encode (record s { project_id = none })); ok (some b))
      else ok none

  abbrev pub pixel_of : Text → Pixel P.DateTime → Bool
  pixel_of id p = text_eq p.project_id id

  unfoldable pub delete_existing : Text → Db P → Result (Bool × Db P)
  delete_existing id db = do
    updates ← collect J.source.decode (unassigned id) (P.iter db.sources)
    to_delete ← select_keys J.pixel.decode (pixel_of id) (P.iter db.pixels)
    ok (
      true,
      record db {
        projects = P.remove id db.projects;
        sources = insert_all P updates db.sources;
        pixels = remove_all P to_delete db.pixels;
      },
    )

  -- The three changes are one transaction.
  unfoldable pub delete_project_cascade : Text → Db P → Result (Bool × Db P)
  delete_project_cascade id db = elim (P.get db.projects id) [
    | none ↦ ok (false, db)
    | some _ ↦ delete_existing id db
  ]

  unfoldable pub put_source : Source P.DateTime → Db P → Result (Db P)
  unfolding put_json
  put_source s db = do t ← put_json P J.source s.uri s db.sources; ok (record db { sources = t })

  unfoldable pub get_source : Text → Db P → Result (Option (Source P.DateTime))
  unfolding get_json
  get_source uri db = get_json P J.source uri db.sources

  unfoldable pub list_sources : Db P → Result (List (Source P.DateTime))
  unfolding list_json
  list_sources db = list_json P J.source db.sources

  unfoldable pub delete_source : Text → Db P → Bool × Db P
  unfolding delete_key
  delete_source uri db =
      let (existed, t) = delete_key P uri db.sources in (existed, record db { sources = t })

  unfoldable pub mutate_source :
      Text
      → (Source P.DateTime → Source P.DateTime)
      → Db P
      → Result (Option (Source P.DateTime) × Db P)
  unfolding mutate_json
  mutate_source uri f db = do
    r ← mutate_json P J.source uri f db.sources
    ok (r.0, record db { sources = r.1 })

  abbrev pub registered : Text → P.DateTime → Source P.DateTime
  registered uri now = record {
    uri = uri;
    project_id = none;
    kind = default_kind uri;
    display_name = none;
    created_at = now;
    first_seen = some now;
    last_seen = some now;
  }

  unfoldable pub register_source_if_absent : Text → P.DateTime → Db P → Result (Db P)
  unfolding get_source put_source
  register_source_if_absent uri now db = do
    found ← get_source uri db
    elim found [ some _ ↦ ok db | none ↦ put_source (registered uri now) db ]

  unfoldable pub put_pixel : Pixel P.DateTime → Db P → Result (Db P)
  unfolding put_json
  put_pixel p db = do t ← put_json P J.pixel p.id p db.pixels; ok (record db { pixels = t })

  unfoldable pub get_pixel : Text → Db P → Result (Option (Pixel P.DateTime))
  unfolding get_json
  get_pixel id db = get_json P J.pixel id db.pixels

  unfoldable pub list_pixels : Db P → Result (List (Pixel P.DateTime))
  unfolding list_json
  list_pixels db = list_json P J.pixel db.pixels

  unfoldable pub delete_pixel : Text → Db P → Bool × Db P
  unfolding delete_key
  delete_pixel id db =
      let (existed, t) = delete_key P id db.pixels in (existed, record db { pixels = t })

  unfoldable pub put_triage : Text → Text → ExceptionTriage P.DateTime → Db P → Result (Db P)
  unfolding put_json triage_key
  put_triage project_id group_id triage db = do
    t ← put_json P J.triage (triage_key project_id group_id) triage db.exception_triage
    ok (record db { exception_triage = t })

  unfoldable pub get_triage : Text → Text → Db P → Result (Option (ExceptionTriage P.DateTime))
  unfolding get_json
  get_triage project_id group_id db =
      get_json P J.triage (triage_key project_id group_id) db.exception_triage

  abbrev pub untriaged : P.DateTime → ExceptionTriage P.DateTime
  untriaged now = record {
    resolved_at = none;
    muted_at = none;
    note = none;
    updated_at = now;
    updated_by = none;
  }

  -- The record to change: the stored one, or a fresh one.
  abbrev pub triage_or_new : Text → Text → P.DateTime → Db P → Result (ExceptionTriage P.DateTime)
  triage_or_new project_id group_id now db =
      elim (P.get db.exception_triage (triage_key project_id group_id)) [
        | some value ↦ or_system_err (J.triage.decode value)
        | none ↦ ok (untriaged now)
      ]

  unfoldable pub update_triage :
      Text
      → Text
      → (ExceptionTriage P.DateTime → ExceptionTriage P.DateTime)
      → P.DateTime
      → Db P
      → Result (ExceptionTriage P.DateTime × Db P)
  update_triage project_id group_id f now db = do
    old ← triage_or_new project_id group_id now db
    bytes ← or_system_err (J.triage.encode (f old))
    ok (
      f old,
      record db {
        exception_triage = P.insert (triage_key project_id group_id) bytes db.exception_triage;
      },
    )
