-- ===== src/Web/Projects/Create.antt =====
-- What the creation of a project answers, and what it has done.
use analytics.Common.{
  Bool, true, false, none, some, Text, text_eq, trim, is_empty, if◌then◌else◌, ◌≡◌, refl, sym, ap,
  ◌∙◌,
}
use analytics.Platform.{Platform}
use analytics.Store.Records.{Project}
use analytics.Store.Db.{Result, ok, err, bind-eq-ok, ok-injective, Json, Db, put_json}
use analytics.Store.Access.{get_json-Holds, get_json-of_Holds, put_json-Holds, Holds-put_json_other}
use analytics.Store.Entities.{put_project, get_project}
use analytics.Web.Projects.{
  Reply, success, created, no_content, bad_request, not_found, conflict, internal_error,
  ProjectInput, name_taken, new_project, create_project, when_free, stored,
}

module _ (P : Platform) (J : Json P) where
  put_project-table :
      (r : Project P.DateTime) (db db' : Db P)
      → put_project P J r db ≡ ok db'
      → (put_json P J.project r.id r db.projects ≡ ok db'.projects) × (db'.pixels ≡ db.pixels)
  unfolding put_project
  put_project-table r db db' h =
      let (t, ht, k) = bind-eq-ok (put_json P J.project r.id r db.projects) _ db' h in
      let e = ok-injective _ db' k in
      (ht ∙ ap (λ (d : Db P). ok d.projects) e, ap (λ (d : Db P). d.pixels) (sym e))

  pub put_project-get_project :
      (r : Project P.DateTime) (db db' : Db P)
      → put_project P J r db ≡ ok db'
      → get_project P J r.id db' ≡ ok (some r)
  unfolding get_project
  put_project-get_project r db db' h =
      get_json-of_Holds P J.project r.id r db'.projects (
        put_json-Holds P J.project r.id r db.projects db'.projects (put_project-table r db db' h).0)

  pub put_project-others :
      (r : Project P.DateTime) (db db' : Db P) (j : Text) (q : Project P.DateTime)
      → put_project P J r db ≡ ok db'
      → text_eq r.id j ≡ false
      → get_project P J j db ≡ ok (some q)
      → get_project P J j db' ≡ ok (some q)
  unfolding get_project
  put_project-others r db db' j q h other g = get_json-of_Holds P J.project j q db'.projects (
      Holds-put_json_other P J.project r.id r db.projects db'.projects j q
        (put_project-table r db db' h).0 other (get_json-Holds P J.project j q db.projects g))

  pub put_project-pixels :
      (r : Project P.DateTime) (db db' : Db P)
      → put_project P J r db ≡ ok db'
      → db'.pixels ≡ db.pixels
  put_project-pixels r db db' h = (put_project-table r db db' h).1

  module _ (to_lowercase : Text → Text) (id : Text) (now : P.DateTime) (input : ProjectInput)
      (db : Db P) where
    abbrev pub CreatePost : Reply (Project P.DateTime) × Db P → Type 0
    CreatePost (created p, db') =
        (p ≡ new_project P J id now input)
        × (is_empty p.name ≡ false)
        × (name_taken P J to_lowercase p.name none db ≡ ok false)
        × (get_project P J id db' ≡ ok (some p))
        × ((j : Text) (q : Project P.DateTime)
            → text_eq id j ≡ false
            → get_project P J j db ≡ ok (some q)
            → get_project P J j db' ≡ ok (some q))
    CreatePost (bad_request, db') = (is_empty (trim input.name) ≡ true) × (db' ≡ db)
    CreatePost (conflict, db') =
        (name_taken P J to_lowercase (trim input.name) none db ≡ ok true) × (db' ≡ db)
    CreatePost (internal_error, db') = db' ≡ db
    CreatePost (success _, db') = ⊥
    CreatePost (no_content, db') = ⊥
    CreatePost (not_found, db') = ⊥

    -- What the creation of a project does, on every branch. A created project is stored under its
    -- identifier with the trimmed name, which is not empty and was no other project's, and the other
    -- projects are as they were; a blank name, a name that is taken and an error of the store leave
    -- the database as it was.
    pub create_project-CreatePost : CreatePost (create_project P J to_lowercase id now input db)
    unfolding create_project
    create_project-CreatePost =
        go (is_empty (trim input.name)) refl (name_taken P J to_lowercase (trim input.name) none db)
          refl (put_project P J r db) refl
      where
        r : Project P.DateTime
        r = new_project P J id now input

        go :
            (b : Bool)
            → is_empty (trim input.name) ≡ b
            → (t : Result Bool) → name_taken P J to_lowercase (trim input.name) none db ≡ t
            → (w : Result (Db P)) → put_project P J r db ≡ w
            → CreatePost
                (if b then (bad_request, db) else when_free P J t db (stored P J (created r) db w))
        go true e t ht w hw = (e, refl)
        go false e (err x) ht w hw = refl
        go false e (ok true) ht w hw = (ht, refl)
        go false e (ok false) ht (err x) hw = refl
        go false e (ok false) ht (ok db') hw = (
          refl,
          e,
          ht,
          put_project-get_project r db db' hw,
          λ j q other g. put_project-others r db db' j q hw other g,
        )
