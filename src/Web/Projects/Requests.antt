-- ===== src/Web/Projects/Requests.antt =====
-- The requests that change projects and pixels, as they are handled one after another.
use analytics.Common.{List, [], ◌∷◌, Text}
use analytics.Platform.{Platform}
use analytics.Store.Db.{Json, Db}
use analytics.Web.Projects.{
  ProjectInput, PixelInput, create_project, update_project, remove_project, create_pixel,
  update_pixel, remove_pixel,
}

module _ (P : Platform) (J : Json P) (to_lowercase : Text → Text) where
  pub data AdminRequest : Type 0 where
    create : Text → P.DateTime → ProjectInput → AdminRequest
    update : Text → ProjectInput → AdminRequest
    delete : Text → AdminRequest
    create_pixel_of : Text → Text → P.DateTime → PixelInput → AdminRequest
    update_pixel_of : Text → PixelInput → AdminRequest
    delete_pixel_of : Text → AdminRequest

  unfoldable pub serve : Db P → AdminRequest → Db P
  unfolding create_project update_project remove_project create_pixel update_pixel remove_pixel
  serve db (create id now input) = (create_project P J to_lowercase id now input db).1
  serve db (update id input) = (update_project P J to_lowercase id input db).1
  serve db (delete id) = (remove_project P J id db).1
  serve db (create_pixel_of id project_id now input) =
      (create_pixel P J id project_id now input db).1
  serve db (update_pixel_of id input) = (update_pixel P J id input db).1
  serve db (delete_pixel_of id) = (remove_pixel P J id db).1

  unfoldable pub serve_all : Db P → List AdminRequest → Db P
  unfolding serve
  serve_all db [] = db
  serve_all db (r ∷ rs) = serve_all (serve db r) rs
