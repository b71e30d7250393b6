-- ===== src/Web/Projects/Owned.antt =====
-- Every pixel belongs to a project, whatever the requests, one after another, ask for.
use analytics.Common.{
  Bool, true, false, Option, none, some, List, [], ◌∷◌, Text, text_eq, text_eq_sym, eq_of_text_eq,
  trim, is_empty, if◌then◌else◌, ◌≡◌, refl, sym, ap, ◌∙◌, subst, Bool-cases, inl, inr,
}
use analytics.Platform.{Bytes, Platform}
use analytics.Store.Records.{Project, Pixel}
use analytics.Store.Db.{Result, ok, err, bind-eq-ok, ok-injective, Json, Db, put_json}
use analytics.Store.Access.{Holds, get_json-Holds, get_json-of_Holds, Holds-put_json}
use analytics.Store.Entities.{
  put_project, get_project, put_pixel, get_pixel, delete_pixel, delete_project_cascade, pixel_of,
}
use analytics.Store.Entities.Cascade.{delete_project_cascade-CascadePost}
use analytics.Web.Projects.{
  Reply, success, created, ProjectInput, PixelInput, name_taken, new_project, updated_project,
  create_project, update_project, update_found, remove_project, create_pixel, create_in,
  update_pixel, update_pixel_found, remove_pixel, new_pixel, updated_pixel, stored, when_free,
  cascaded,
}
use analytics.Store.Rewrite.Laws.{selects}
use analytics.Store.Db.{delete_key}
use analytics.Web.Projects.Requests.{
  AdminRequest, create, update, delete, create_pixel_of, update_pixel_of, delete_pixel_of, serve,
  serve_all,
}
use analytics.Web.Projects.Create.{put_project-get_project, put_project-others, put_project-pixels}

module _ (P : Platform) (J : Json P) (to_lowercase : Text → Text) where
  abbrev HasProject : Text → Db P → Type 0
  HasProject id db = (q : Project P.DateTime) × (get_project P J id db ≡ ok (some q))

  -- Each stored pixel has its project in the store.
  abbrev pub AllOwned : Db P → Type 0
  AllOwned db =
      (i : Text) (p : Pixel P.DateTime)
      → get_pixel P J i db ≡ ok (some p)
      → (q : Project P.DateTime) × (get_project P J p.project_id db ≡ ok (some q))

  PixelHolds :
      (i : Text) (p : Pixel P.DateTime) (db : Db P)
      → get_pixel P J i db ≡ ok (some p)
      → Holds P J.pixel i p db.pixels
  unfolding get_pixel
  PixelHolds i p db h = get_json-Holds P J.pixel i p db.pixels h

  get_pixel-of_Holds :
      (i : Text) (p : Pixel P.DateTime) (db : Db P)
      → Holds P J.pixel i p db.pixels
      → get_pixel P J i db ≡ ok (some p)
  unfolding get_pixel
  get_pixel-of_Holds i p db h = get_json-of_Holds P J.pixel i p db.pixels h

  ProjectHolds :
      (i : Text) (p : Project P.DateTime) (db : Db P)
      → get_project P J i db ≡ ok (some p)
      → Holds P J.project i p db.projects
  unfolding get_project
  ProjectHolds i p db h = get_json-Holds P J.project i p db.projects h

  get_project-of_Holds :
      (i : Text) (p : Project P.DateTime) (db : Db P)
      → Holds P J.project i p db.projects
      → get_project P J i db ≡ ok (some p)
  unfolding get_project
  get_project-of_Holds i p db h = get_json-of_Holds P J.project i p db.projects h

  -- The projects stay, and the pixels are as they were.
  put_project-AllOwned :
      (r : Project P.DateTime) (db db' : Db P)
      → AllOwned db
      → put_project P J r db ≡ ok db'
      → AllOwned db'
  put_project-AllOwned r db db' owned h i p g =
      let old =
        get_pixel-of_Holds i p db (
          subst (Holds P J.pixel i p) (put_project-pixels P J r db db' h) (PixelHolds i p db' g)) in
      let (q, gq) = owned i p old in
      elim (Bool-cases (text_eq r.id p.project_id)) [
        | inl same ↦ (
          r,
          ap (λ k. get_project P J k db') (sym (eq_of_text_eq r.id p.project_id same))
              ∙ put_project-get_project P J r db db' h,
        )
        | inr other ↦ (q, put_project-others P J r db db' p.project_id q h other gq)
      ]

  -- The pixels after a change are the ones before it, but for one whose project is there.
  put_pixel-AllOwned :
      (r : Pixel P.DateTime) (db db' : Db P)
      → AllOwned db
      → HasProject r.project_id db
      → put_pixel P J r db ≡ ok db'
      → AllOwned db'
  unfolding put_pixel get_project
  put_pixel-AllOwned r db db' owned here h i p g =
      let (t, ht, k) = bind-eq-ok (put_json P J.pixel r.id r db.pixels) _ db' h in
      let e = ok-injective _ db' k in
      let kept : (id : Text) → HasProject id db → HasProject id db' =
        λ id x. (x.0, ap (λ (d : Db P). get_project P J id d) (sym e) ∙ x.1) in
      let held =
        subst (Holds P J.pixel i p) (sym (ap (λ (d : Db P). d.pixels) e)) (PixelHolds i p db' g) in
      elim (Holds-put_json P J.pixel r.id r db.pixels t i p ht held) [
        | inl (same, new) ↦
            kept p.project_id
              (subst (λ (x : Pixel P.DateTime). HasProject x.project_id db) (sym new) here)
        | inr (other, old) ↦ kept p.project_id (owned i p (get_pixel-of_Holds i p db old))
      ]

  stored-AllOwned :
      {A : Type 0} (reply : Reply A) (db : Db P) (w : Result (Db P))
      → AllOwned db
      → ((db' : Db P) → w ≡ ok db' → AllOwned db')
      → AllOwned (stored P J reply db w).1
  stored-AllOwned reply db (ok db') o f = f db' refl
  stored-AllOwned reply db (err x) o f = o

  if-AllOwned :
      {A : Type 0} (b : Bool) (x y : Reply A × Db P)
      → AllOwned x.1
      → AllOwned y.1
      → AllOwned (if b then x else y).1
  if-AllOwned true x y h k = h
  if-AllOwned false x y h k = k

  when_free-AllOwned :
      (taken : Result Bool) (db : Db P) (answer : Reply (Project P.DateTime) × Db P)
      → AllOwned db
      → AllOwned answer.1
      → AllOwned (when_free P J taken db answer).1
  when_free-AllOwned (ok false) db answer o k = k
  when_free-AllOwned (ok true) db answer o k = o
  when_free-AllOwned (err e) db answer o k = o

  written :
      (r : Project P.DateTime) (reply : Reply (Project P.DateTime)) (db : Db P)
      → AllOwned db
      → AllOwned (stored P J reply db (put_project P J r db)).1
  written r reply db o =
      stored-AllOwned reply db (put_project P J r db) o λ db' h. put_project-AllOwned r db db' o h

  update_found-AllOwned :
      (id : Text) (input : ProjectInput) (db : Db P) (found : Result (Option (Project P.DateTime)))
      → AllOwned db
      → AllOwned (update_found P J to_lowercase id input db found).1
  update_found-AllOwned id input db (err e) o = o
  update_found-AllOwned id input db (ok none) o = o
  update_found-AllOwned id input db (ok (some p)) o =
      let k = written (updated_project P J input p) (success (updated_project P J input p)) db o in
      if-AllOwned (is_empty (trim input.name)) _ _ k (when_free-AllOwned _ db _ o k)

  create_in-AllOwned :
      (id project_id : Text) (now : P.DateTime) (input : PixelInput) (db : Db P)
      (found : Result (Option (Project P.DateTime)))
      → get_project P J project_id db ≡ found
      → AllOwned db
      → AllOwned (create_in P J id project_id now input db found).1
  create_in-AllOwned id project_id now input db (err e) h o = o
  create_in-AllOwned id project_id now input db (ok none) h o = o
  create_in-AllOwned id project_id now input db (ok (some q)) h o =
      if-AllOwned (is_empty (trim input.name)) _ _ o (
        stored-AllOwned _ db _ o
          λ db' w. put_pixel-AllOwned (new_pixel P J id project_id now input) db db' o (q, h) w)

  update_pixel_found-AllOwned :
      (id : Text) (input : PixelInput) (db : Db P) (found : Result (Option (Pixel P.DateTime)))
      → get_pixel P J id db ≡ found
      → AllOwned db
      → AllOwned (update_pixel_found P J input db found).1
  update_pixel_found-AllOwned id input db (err e) h o = o
  update_pixel_found-AllOwned id input db (ok none) h o = o
  update_pixel_found-AllOwned id input db (ok (some p)) h o =
      stored-AllOwned _ db _ o
        λ db' w. put_pixel-AllOwned (updated_pixel P J input p) db db' o (o id p h) w

  remove_pixel-AllOwned :
      (id : Text) (db : Db P) → AllOwned db → AllOwned (remove_pixel P J id db).1
  unfolding remove_pixel delete_pixel delete_key get_project
  remove_pixel-AllOwned id db o i p g =
      let (b, found, decoded) = PixelHolds i p (remove_pixel P J id db).1 g in
      o i p (
        get_pixel-of_Holds i p db
          (b, rest (text_eq id i) (sym (P.get-remove id i db.pixels) ∙ found), decoded))
    where
      rest :
          {b : Bytes} (c : Bool)
          → (if c then none else P.get db.pixels i) ≡ some b
          → P.get db.pixels i ≡ some b
      rest true e = cc
      rest false e = e

  -- A cascade takes the pixels of the project with it.
  delete_project_cascade-AllOwned :
      (id : Text) (db db' : Db P)
      → delete_project_cascade P J id db ≡ ok (true, db')
      → AllOwned db
      → AllOwned db'
  delete_project_cascade-AllOwned id db db' h o i p g =
      let post = delete_project_cascade-CascadePost P J id db (true, db') h in
      let (b, found, decoded) = PixelHolds i p db' g in
      let (kept, there) =
        spared (selects J.pixel.decode (pixel_of P J id) (P.get db.pixels i)) b refl
          (sym (post.pixel i) ∙ found) in
      let other = selected b p there decoded kept in
      let (q, gq) = o i p (get_pixel-of_Holds i p db (b, there, decoded)) in
      (q, still p.project_id q (text_eq_sym id p.project_id ∙ other) (post.project p.project_id) gq)
    where
      spared :
          (c : Bool) (b : Bytes)
          → selects J.pixel.decode (pixel_of P J id) (P.get db.pixels i) ≡ c
          → (if c then none else P.get db.pixels i) ≡ some b
          → (selects J.pixel.decode (pixel_of P J id) (P.get db.pixels i) ≡ false)
            × (P.get db.pixels i ≡ some b)
      spared true b e f = cc
      spared false b e f = (e, f)

      selected :
          (b : Bytes) (p : Pixel P.DateTime)
          → P.get db.pixels i ≡ some b
          → J.pixel.decode b ≡ some p
          → selects J.pixel.decode (pixel_of P J id) (P.get db.pixels i) ≡ false
          → text_eq p.project_id id ≡ false
      selected b p there decoded k =
          sym (
            ap
              (λ (o : Option (Pixel P.DateTime)). elim o as (λ _. Bool) [
                | none ↦ false
                | some a ↦ pixel_of P J id a
              ])
              decoded)
          ∙ sym (ap (selects J.pixel.decode (pixel_of P J id)) there)
          ∙ k

      still :
          (k : Text) (q : Project P.DateTime)
          → text_eq id k ≡ false
          → P.get db'.projects k ≡ (if text_eq id k then none else P.get db.projects k)
          → get_project P J k db ≡ ok (some q)
          → get_project P J k db' ≡ ok (some q)
      still k q e after g =
          let (b, found, decoded) = ProjectHolds k q db g in
          get_project-of_Holds k q db'
            (b, after ∙ ap (λ c. if c then none else P.get db.projects k) e ∙ found, decoded)

  cascaded-AllOwned :
      (id : Text) (db : Db P) (w : Result (Bool × Db P))
      → delete_project_cascade P J id db ≡ w
      → AllOwned db
      → AllOwned (cascaded P J db w).1
  cascaded-AllOwned id db (err e) h o = o
  cascaded-AllOwned id db (ok (false, db')) h o =
      subst AllOwned (sym (delete_project_cascade-CascadePost P J id db (false, db') h).1) o
  cascaded-AllOwned id db (ok (true, db')) h o = delete_project_cascade-AllOwned id db db' h o

  serve-AllOwned :
      (db : Db P) (r : AdminRequest P J to_lowercase)
      → AllOwned db
      → AllOwned (serve P J to_lowercase db r)
  unfolding serve create_project update_project remove_project create_pixel update_pixel
  serve-AllOwned db (create id now input) o = if-AllOwned (is_empty (trim input.name)) _ _ o (
      when_free-AllOwned (name_taken P J to_lowercase (trim input.name) none db) db _ o
        (written (new_project P J id now input) (created (new_project P J id now input)) db o))
  serve-AllOwned db (update id input) o =
      update_found-AllOwned id input db (get_project P J id db) o
  serve-AllOwned db (delete id) o =
      cascaded-AllOwned id db (delete_project_cascade P J id db) refl o
  serve-AllOwned db (create_pixel_of id project_id now input) o =
      create_in-AllOwned id project_id now input db (get_project P J project_id db) refl o
  serve-AllOwned db (update_pixel_of id input) o =
      update_pixel_found-AllOwned id input db (get_pixel P J id db) refl o
  serve-AllOwned db (delete_pixel_of id) o = remove_pixel-AllOwned id db o

  serve_all-AllOwned :
      (rs : List (AdminRequest P J to_lowercase)) (db : Db P)
      → AllOwned db
      → AllOwned (serve_all P J to_lowercase db rs)
  unfolding serve_all
  serve_all-AllOwned [] db o = o
  serve_all-AllOwned (r ∷ rs) db o =
      serve_all-AllOwned rs (serve P J to_lowercase db r) (serve-AllOwned db r o)

  pub record PixelsOwned (db : Db P) : Type 0 where
    pub owner : AllOwned db

  -- Where every stored pixel has its project in the store, that is so after any requests that create,
  -- change and delete projects and pixels, handled one after another.
  pub serve_all-PixelsOwned :
      (rs : List (AdminRequest P J to_lowercase)) (db : Db P)
      → PixelsOwned db
      → PixelsOwned (serve_all P J to_lowercase db rs)
  serve_all-PixelsOwned rs db o = record { owner = serve_all-AllOwned rs db o.owner }
