-- ===== src/Web/Projects.antt =====
-- agent/src/web/api/projects.rs, pixels.rs and sources.rs: the handlers that administer the metadata.
-- A generated identifier (ULID), the clock and Rust's `to_lowercase` are arguments. The lists are
-- answered unsorted, and the text of an error message is not kept.
pub mod Slug
pub mod Requests
pub mod Unique
pub mod Create
pub mod Owned
use analytics.Common.{
  Bool, true, false, ◌&&◌, not, Option, none, some, List, [], ◌∷◌, Text, codes, text_eq, trim,
  is_empty, any, keep, if◌then◌else◌,
}
use analytics.Platform.{Platform}
use analytics.Store.Records.{Project, Pixel, Source, SourceKind}
use analytics.Store.Db.{Result, ok, err, ◌>>=◌, Json, Db}
use analytics.Store.Entities.{
  put_project, get_project, list_projects, delete_project_cascade, put_pixel, get_pixel,
  list_pixels, delete_pixel, list_sources, mutate_source, delete_source, is_some_text,
}
use analytics.Web.Projects.Slug.{slugify}

pub data Reply (A : Type 0) : Type 0 where
  success created : A → Reply A
  no_content : Reply A
  bad_request not_found conflict internal_error : Reply A

pub record ProjectInput : Type 0 where
  pub name : Text
  pub slug : Option Text

pub record PixelInput : Type 0 where
  pub name : Text
  pub event_name : Option Text
  pub metadata : List (Text × Text)

pub record SourceInput : Type 0 where
  pub project_id : Option Text
  pub kind : Option SourceKind
  pub display_name : Option Text

-- `filter(|s| !s.trim().is_empty())`, and `unwrap_or` behind it.
abbrev pub given : Option Text → Option Text
given none = none
given (some s) = if is_empty (trim s) then none else some s

abbrev pub given_or : Option Text → Text → Text
given_or o d = elim (given o) [ none ↦ d | some s ↦ s ]

abbrev replaced : {A : Type 0} → Option A → A → A
replaced none a = a
replaced (some b) a = b

module _ (P : Platform) (J : Json P) where
  -- The answer to a list, to a lookup and to a change of a record.
  abbrev listed : {A : Type 0} → Result (List A) → Reply (List A)
  listed (ok xs) = success xs
  listed (err e) = internal_error

  abbrev found : {A : Type 0} → Result (Option A) → Reply A
  found (ok (some a)) = success a
  found (ok none) = not_found
  found (err e) = internal_error

  abbrev pub stored : {A : Type 0} → Reply A → Db P → Result (Db P) → Reply A × Db P
  stored reply db (ok db') = (reply, db')
  stored reply db (err e) = (internal_error, db)

  abbrev pub deleted : Bool × Db P → Reply Unit × Db P
  deleted (existed, db) = (if existed then no_content else not_found, db)

  unfoldable pub list_all_projects : Db P → Reply (List (Project P.DateTime))
  unfolding list_projects
  list_all_projects db = listed (list_projects P J db)

  abbrev pub clashes : (Text → Text) → Text → Option Text → Project P.DateTime → Bool
  clashes to_lowercase name except p =
      text_eq (to_lowercase p.name) (to_lowercase name) && not (is_some_text except p.id)

  unfoldable pub name_taken : (Text → Text) → Text → Option Text → Db P → Result Bool
  unfolding list_projects
  name_taken to_lowercase name except db = do
    projects ← list_projects P J db
    ok (any (clashes to_lowercase name except) projects)

  abbrev pub when_free :
      Result Bool → Db P → Reply (Project P.DateTime) × Db P → Reply (Project P.DateTime) × Db P
  when_free (ok false) db answer = answer
  when_free (ok true) db answer = (conflict, db)
  when_free (err e) db answer = (internal_error, db)

  abbrev pub new_project : Text → P.DateTime → ProjectInput → Project P.DateTime
  new_project id now input = record {
    id = id;
    slug = given_or input.slug (slugify (trim input.name));
    name = trim input.name;
    created_at = now;
  }

  unfoldable pub create_project :
      (Text → Text) → Text → P.DateTime → ProjectInput → Db P → Reply (Project P.DateTime) × Db P
  unfolding name_taken put_project trim slugify
  create_project to_lowercase id now input db =
      if is_empty (trim input.name)
      then (bad_request, db)
      else when_free (name_taken to_lowercase (trim input.name) none db) db
          (let p = new_project id now input in stored (created p) db (put_project P J p db))

  unfoldable pub show_project : Text → Db P → Reply (Project P.DateTime)
  unfolding get_project
  show_project id db = found (get_project P J id db)

  abbrev pub updated_project : ProjectInput → Project P.DateTime → Project P.DateTime
  updated_project input p = record p {
    slug = given_or input.slug p.slug;
    name = if is_empty (trim input.name) then p.name else trim input.name;
  }

  abbrev pub update_found :
      (Text → Text)
      → Text
      → ProjectInput
      → Db P
      → Result (Option (Project P.DateTime))
      → Reply (Project P.DateTime) × Db P
  update_found to_lowercase id input db (err e) = (internal_error, db)
  update_found to_lowercase id input db (ok none) = (not_found, db)
  update_found to_lowercase id input db (ok (some p)) =
      let q = updated_project input p in
      let answer = stored (success q) db (put_project P J q db) in
      if is_empty (trim input.name)
      then answer
      else when_free (name_taken to_lowercase (trim input.name) (some id) db) db answer

  unfoldable pub update_project :
      (Text → Text) → Text → ProjectInput → Db P → Reply (Project P.DateTime) × Db P
  unfolding get_project put_project name_taken trim
  update_project to_lowercase id input db =
      update_found to_lowercase id input db (get_project P J id db)

  abbrev pub cascaded : Db P → Result (Bool × Db P) → Reply Unit × Db P
  cascaded db (ok result) = deleted result
  cascaded db (err e) = (internal_error, db)

  unfoldable pub remove_project : Text → Db P → Reply Unit × Db P
  unfolding delete_project_cascade
  remove_project id db = cascaded db (delete_project_cascade P J id db)

  unfoldable pub list_project_pixels : Text → Db P → Reply (List (Pixel P.DateTime))
  unfolding list_pixels
  list_project_pixels project_id db = listed (do
    pixels ← list_pixels P J db
    ok (keep (λ (p : Pixel P.DateTime). text_eq p.project_id project_id) pixels))

  unfoldable pub list_all_pixels : Db P → Reply (List (Pixel P.DateTime))
  unfolding list_pixels
  list_all_pixels db = listed (list_pixels P J db)

  abbrev pub new_pixel : Text → Text → P.DateTime → PixelInput → Pixel P.DateTime
  new_pixel id project_id now input = record {
    id = id;
    project_id = project_id;
    name = trim input.name;
    event_name = given_or input.event_name (codes "pixel");
    metadata = input.metadata;
    created_at = now;
    last_hit = none;
  }

  abbrev pub create_in :
      Text
      → Text
      → P.DateTime
      → PixelInput
      → Db P
      → Result (Option (Project P.DateTime))
      → Reply (Pixel P.DateTime) × Db P
  create_in id project_id now input db (err e) = (internal_error, db)
  create_in id project_id now input db (ok none) = (not_found, db)
  create_in id project_id now input db (ok (some _)) =
      if is_empty (trim input.name)
      then (bad_request, db)
      else let p = new_pixel id project_id now input in stored (created p) db (put_pixel P J p db)

  unfoldable pub create_pixel :
      Text → Text → P.DateTime → PixelInput → Db P → Reply (Pixel P.DateTime) × Db P
  unfolding get_project put_pixel trim
  create_pixel id project_id now input db =
      create_in id project_id now input db (get_project P J project_id db)

  unfoldable pub show_pixel : Text → Db P → Reply (Pixel P.DateTime)
  unfolding get_pixel
  show_pixel id db = found (get_pixel P J id db)

  abbrev pub updated_pixel : PixelInput → Pixel P.DateTime → Pixel P.DateTime
  updated_pixel input p = record p {
    name = if is_empty (trim input.name) then p.name else trim input.name;
    event_name = given_or input.event_name p.event_name;
    metadata = input.metadata;
  }

  abbrev pub update_pixel_found :
      PixelInput → Db P → Result (Option (Pixel P.DateTime)) → Reply (Pixel P.DateTime) × Db P
  update_pixel_found input db (err e) = (internal_error, db)
  update_pixel_found input db (ok none) = (not_found, db)
  update_pixel_found input db (ok (some p)) =
      let q = updated_pixel input p in stored (success q) db (put_pixel P J q db)

  unfoldable pub update_pixel : Text → PixelInput → Db P → Reply (Pixel P.DateTime) × Db P
  unfolding get_pixel put_pixel trim
  update_pixel id input db = update_pixel_found input db (get_pixel P J id db)

  unfoldable pub remove_pixel : Text → Db P → Reply Unit × Db P
  unfolding delete_pixel
  remove_pixel id db = deleted (delete_pixel P J id db)

  unfoldable pub list_all_sources : Db P → Reply (List (Source P.DateTime))
  unfolding list_sources
  list_all_sources db = listed (list_sources P J db)

  -- A blank project or display name clears the field.
  abbrev pub updated_source : SourceInput → Source P.DateTime → Source P.DateTime
  updated_source input s = record s {
    project_id = elim input.project_id [ none ↦ s.project_id | some id ↦ given (some id) ];
    kind = replaced input.kind s.kind;
    display_name = elim input.display_name [ none ↦ s.display_name | some n ↦ given (some n) ];
  }

  abbrev mutated :
      Db P → Result (Option (Source P.DateTime) × Db P) → Reply (Source P.DateTime) × Db P
  mutated db (ok (some s, db')) = (success s, db')
  mutated db (ok (none, db')) = (not_found, db')
  mutated db (err e) = (internal_error, db)

  unfoldable pub update_source : Text → SourceInput → Db P → Reply (Source P.DateTime) × Db P
  unfolding mutate_source trim
  update_source uri input db = mutated db (mutate_source P J uri (updated_source input) db)

  unfoldable pub remove_source : Text → Db P → Reply Unit × Db P
  unfolding delete_source
  remove_source uri db = deleted (delete_source P J uri db)
