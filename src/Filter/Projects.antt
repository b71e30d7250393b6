-- ===== src/Filter/Projects.antt =====
-- agent/src/analytics/mod.rs: the sources that belong to a project. An error of the store counts as
-- no sources (`unwrap_or_default`).
use analytics.Common.{
  Bool, Option, none, some, List, [], ◌∷◌, ◌++◌, map, Text, text_eq, keep, if◌then◌else◌,
}
use analytics.Platform.{Platform}
use analytics.Store.Records.{Project, Source, Pixel}
use analytics.Store.Sources.{pixel_source}
use analytics.Store.Db.{Result, ok, err, ◌>>=◌, Json, Db}
use analytics.Store.Entities.{is_some_text, list_projects, list_sources, list_pixels}

unfoldable pub find_project :
    {T : Type 0} → (Project T → Bool) → List (Project T) → Option (Project T)
find_project p [] = none
find_project p (x ∷ xs) = if p x then some x else find_project p xs

module _ (P : Platform) (J : Json P) where
  unfoldable pub project_source_uris : Text → Db P → Result (List Text)
  unfolding list_sources list_pixels pixel_source
  project_source_uris id db = do
    sources ← list_sources P J db
    pixels ← list_pixels P J db
    ok (
        map (λ (s : Source P.DateTime). s.uri)
          (keep (λ (s : Source P.DateTime). is_some_text s.project_id id) sources)
        ++ map (λ (p : Pixel P.DateTime). pixel_source p.id)
            (keep (λ (p : Pixel P.DateTime). text_eq p.project_id id) pixels))

  abbrev pub or_else {ℓ} : {A : Type ℓ} → Option A → Option A → Option A
  or_else none b = b
  or_else (some a) b = some a

  abbrev sources_of : Option (Project P.DateTime) → Db P → Result (List Text)
  sources_of none db = ok []
  sources_of (some p) db = project_source_uris p.id db

  unfoldable pub project_source_uris_by_name : (Text → Text) → Text → Db P → Result (List Text)
  unfolding list_projects find_project project_source_uris
  project_source_uris_by_name to_lowercase name db = do
    projects ← list_projects P J db
    sources_of
        (or_else
          (find_project
            (λ (p : Project P.DateTime). text_eq (to_lowercase p.name) (to_lowercase name))
            projects)
          (find_project (λ (p : Project P.DateTime). text_eq p.id name) projects))
        db

  abbrev or_none : Result (List Text) → List Text
  or_none (ok uris) = uris
  or_none (err _) = []

  -- `Compiler::project_sources`
  unfoldable pub project_sources : (Text → Text) → Db P → Text → List Text
  unfolding project_source_uris_by_name
  project_sources to_lowercase db name = or_none (project_source_uris_by_name to_lowercase name db)
