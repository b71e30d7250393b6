-- ===== src/Examples/Projects.antt =====
-- Requests that administer projects and pixels, on an empty database.
use analytics.Common.{
  pos, none, List, [], ◌∷◌, Text, codes, text_eq, to_ascii_lowercase, trim, trim_start_by,
  trim_end_by, trim_matches, ◌≡◌, refl,
}
use analytics.Platform.{lex_lt}
use analytics.Store.Db.{Db, get_json, put_json, list_json, decode_all}
use analytics.Store.Entities.{get_project, get_pixel, list_projects, put_project}
use analytics.Web.Projects.{ProjectInput, PixelInput, conflict, create_project, name_taken}
use analytics.Web.Projects.Slug.{slugify, slug_from, IsSlug, slugify-IsSlug}
use analytics.Web.Projects.Create.{CreatePost, create_project-CreatePost}
use analytics.Web.Projects.Requests.{
  AdminRequest, create, update, delete, create_pixel_of, serve_all,
}
use analytics.Web.Projects.Unique.{UniqueNames, serve_all-UniqueNames}
use analytics.Web.Projects.Owned.{PixelsOwned, serve_all-PixelsOwned}
use analytics.Examples.Tables.{list_platform}
use analytics.Examples.Codecs.Records.{json}

abbrev no_data : Db list_platform
no_data = record {
  events = list_platform.empty;
  projects = list_platform.empty;
  sources = list_platform.empty;
  pixels = list_platform.empty;
  exception_triage = list_platform.empty;
  meta = list_platform.empty;
}

abbrev named : Text → ProjectInput
named name = record { name = name; slug = none }

abbrev mail : PixelInput
mail = record { name = codes " mail "; event_name = none; metadata = [] }

-- The second project has the name of the first in another case.
abbrev requests : List (AdminRequest list_platform json to_ascii_lowercase)
requests =
    create (codes "p1") (pos 1) (named (codes "Shop"))
    ∷ create (codes "p2") (pos 2) (named (codes " shop"))
    ∷ create_pixel_of (codes "x1") (codes "p1") (pos 3) mail
    ∷ create_pixel_of (codes "x2") (codes "p2") (pos 4) mail
    ∷ update (codes "p1") (named (codes "Store"))
    ∷ delete (codes "p1")
    ∷ []

nothing_unique : UniqueNames list_platform json to_ascii_lowercase no_data
unfolding get_project get_json
nothing_unique = record { keyed = λ i p h. cc; unique = λ i j p q h k e. cc }

nothing_owned : PixelsOwned list_platform json to_ascii_lowercase no_data
unfolding get_pixel get_json
nothing_owned = record { owner = λ i p h. cc }

serve_all-UniqueNames_example :
    UniqueNames list_platform json to_ascii_lowercase
      (serve_all list_platform json to_ascii_lowercase no_data requests)
serve_all-UniqueNames_example =
    serve_all-UniqueNames list_platform json to_ascii_lowercase requests no_data nothing_unique

serve_all-PixelsOwned_example :
    PixelsOwned list_platform json to_ascii_lowercase
      (serve_all list_platform json to_ascii_lowercase no_data requests)
serve_all-PixelsOwned_example =
    serve_all-PixelsOwned list_platform json to_ascii_lowercase requests no_data nothing_owned

abbrev one_project : Db list_platform
one_project =
    (create_project list_platform json to_ascii_lowercase (codes "p1") (pos 1)
      (named (codes "Shop")) no_data).1

second :
    (create_project list_platform json to_ascii_lowercase
      (codes "p2")
      (pos 2)
      (named (codes " shop"))
      one_project).0
    ≡ conflict
unfolding create_project name_taken put_project list_projects trim trim_start_by trim_end_by slugify
    slug_from trim_matches put_json list_json decode_all lex_lt text_eq
second = refl

create_project-CreatePost_example :
    CreatePost list_platform json to_ascii_lowercase
      (codes "p2")
      (pos 2)
      (named (codes " shop"))
      one_project
      (create_project list_platform json to_ascii_lowercase
        (codes "p2")
        (pos 2)
        (named (codes " shop"))
        one_project)
create_project-CreatePost_example =
    create_project-CreatePost list_platform json to_ascii_lowercase (codes "p2") (pos 2)
      (named (codes " shop")) one_project

slug : slugify (codes " My  Shop (EU)! ") ≡ codes "my-shop-eu"
unfolding slugify slug_from trim_matches trim_start_by trim_end_by
slug = refl

slugify-IsSlug_example : IsSlug (slugify (codes " My  Shop (EU)! "))
slugify-IsSlug_example = slugify-IsSlug (codes " My  Shop (EU)! ")
