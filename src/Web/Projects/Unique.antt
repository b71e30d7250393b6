-- ===== src/Web/Projects/Unique.antt =====
-- No two projects have one name, whatever the requests, one after another, ask for.
use analytics.Common.{
  Bool, true, false, Option, none, some, List, [], ◌∷◌, Text, text_eq, text_eq_refl, eq_of_text_eq,
  trim, is_empty, if◌then◌else◌, ◌≡◌, refl, sym, ap, ◌∙◌, subst, Bool-cases, inl, inr, ◌⊎◌,
}
use analytics.Platform.{Bytes, Platform}
use analytics.Store.Records.{Project, Pixel}
use analytics.Web.Projects.Requests.{
  AdminRequest, create, update, delete, create_pixel_of, update_pixel_of, delete_pixel_of, serve,
  serve_all,
}
use analytics.Store.Db.{delete_key}
use analytics.Store.Entities.{put_pixel, get_pixel, delete_pixel}
use analytics.Web.Projects.{
  PixelInput, new_pixel, updated_pixel, create_in, update_pixel_found, create_pixel, update_pixel,
  remove_pixel,
}
use analytics.Store.Db.{Result, ok, err, ◌>>=◌, bind-eq-ok, ok-injective, Json, Db, put_json}
use analytics.Store.Access.{Holds, get_json-Holds, get_json-of_Holds, Holds-put_json, any-list_json}
use analytics.Store.Entities.{
  put_project, get_project, list_projects, delete_project_cascade, is_some_text,
}
use analytics.Store.Entities.Cascade.{CascadePost, delete_project_cascade-CascadePost}
use analytics.Web.Projects.{
  Reply, success, created, ProjectInput, name_taken, clashes, create_project, update_project,
  remove_project, new_project, updated_project, update_found, stored, when_free, cascaded,
}

module _ (P : Platform) (J : Json P) (to_lowercase : Text → Text) where
  -- The project under a key.
  abbrev Stored : Text → Project P.DateTime → Db P → Type 0
  Stored i p db = Holds P J.project i p db.projects

  Stored-get_project :
      (i : Text) (p : Project P.DateTime) (db : Db P)
      → get_project P J i db ≡ ok (some p)
      → Stored i p db
  unfolding get_project
  Stored-get_project i p db h = get_json-Holds P J.project i p db.projects h

  get_project-Stored :
      (i : Text) (p : Project P.DateTime) (db : Db P)
      → Stored i p db
      → get_project P J i db ≡ ok (some p)
  unfolding get_project
  get_project-Stored i p db h = get_json-of_Holds P J.project i p db.projects h

  -- A name that is not taken is that of no other project.
  name_taken-free :
      (name : Text) (except : Option Text) (db : Db P) (i : Text) (p : Project P.DateTime)
      → name_taken P J to_lowercase name except db ≡ ok false
      → Stored i p db
      → to_lowercase p.name ≡ to_lowercase name
      → is_some_text except p.id ≡ true
  unfolding name_taken list_projects
  name_taken-free name except db i p h at_i same =
      let (ps, hps, k) = bind-eq-ok (list_projects P J db) _ false h in
      elim (Bool-cases (is_some_text except p.id)) [
        | inl own ↦ own
        | inr other ↦ absurd (
            no_clash (ok-injective _ false k) (
              any-list_json P J.project db.projects ps (clashes P J to_lowercase name except) i p
                hps at_i (clash same other)))
      ]
    where
      no_clash : {x : Bool} → x ≡ false → x ≡ true → ⊥
      no_clash h k = cc

      clash :
          to_lowercase p.name ≡ to_lowercase name
          → is_some_text except p.id ≡ false
          → clashes P J to_lowercase name except p ≡ true
      clash e o = rw (e, o, text_eq_refl (to_lowercase name)) refl

  -- Each project stands under its identifier, and no two have one name in lower case.
  pub record UniqueNames (db : Db P) : Type 0 where
    pub keyed : (i : Text) (p : Project P.DateTime) → get_project P J i db ≡ ok (some p) → p.id ≡ i
    pub unique :
        (i j : Text) (p q : Project P.DateTime)
        → get_project P J i db ≡ ok (some p)
        → get_project P J j db ≡ ok (some q)
        → to_lowercase p.name ≡ to_lowercase q.name
        → i ≡ j

  -- Where every project after a change was there before, but for one whose name is free.
  Stored-put_project :
      (r : Project P.DateTime) (db db' : Db P) (i : Text) (p : Project P.DateTime)
      → put_project P J r db ≡ ok db'
      → Stored i p db'
      → ((r.id ≡ i) × (p ≡ r)) ⊎ ((text_eq r.id i ≡ false) × Stored i p db)
  unfolding put_project
  Stored-put_project r db db' i p h at_i =
      let (t, ht, k) = bind-eq-ok (put_json P J.project r.id r db.projects) _ db' h in
      let table : db'.projects ≡ t = sym (ap (λ (d : Db P). d.projects) (ok-injective _ db' k)) in
      Holds-put_json P J.project r.id r db.projects t i p ht
        (subst (Holds P J.project i p) table at_i)

  put_project-UniqueNames :
      (r : Project P.DateTime) (db db' : Db P)
      → UniqueNames db
      → ((i : Text) (p : Project P.DateTime)
          → Stored i p db
          → to_lowercase p.name ≡ to_lowercase r.name
          → i ≡ r.id)
      → put_project P J r db ≡ ok db'
      → UniqueNames db'
  put_project-UniqueNames r db db' u free h = record {
    keyed = λ i p g. elim (Stored-put_project r db db' i p h (Stored-get_project i p db' g)) [
      | inl (e, new) ↦ ap (λ (x : Project P.DateTime). x.id) new ∙ e
      | inr (other, old) ↦ u.keyed i p (get_project-Stored i p db old)
    ];
    unique = λ i j p q gi gj same.
        elim (Stored-put_project r db db' i p h (Stored-get_project i p db' gi)) [
          | inl (ei, pi) ↦
              elim (Stored-put_project r db db' j q h (Stored-get_project j q db' gj)) [
                | inl (ej, qj) ↦ sym ei ∙ ej
                | inr (oj, old) ↦
                    sym ei
                    ∙ sym (
                        free j q old
                          (sym same ∙ ap (λ (x : Project P.DateTime). to_lowercase x.name) pi))
              ]
          | inr (oi, oldi) ↦
              elim (Stored-put_project r db db' j q h (Stored-get_project j q db' gj)) [
                | inl (ej, qj) ↦
                    free i p oldi (same ∙ ap (λ (x : Project P.DateTime). to_lowercase x.name) qj)
                    ∙ ej
                | inr (oj, oldj) ↦
                    u.unique i j p q (get_project-Stored i p db oldi)
                      (get_project-Stored j q db oldj) same
              ]
        ];
  }

  subset-UniqueNames :
      (db db' : Db P)
      → UniqueNames db
      → ((i : Text) (p : Project P.DateTime) → Stored i p db' → Stored i p db)
      → UniqueNames db'
  subset-UniqueNames db db' u old = record {
    keyed =
        λ i p g. u.keyed i p (get_project-Stored i p db (old i p (Stored-get_project i p db' g)));
    unique = λ i j p q gi gj.
        u.unique i j p q (get_project-Stored i p db (old i p (Stored-get_project i p db' gi)))
          (get_project-Stored j q db (old j q (Stored-get_project j q db' gj)));
  }

  stored-UniqueNames :
      {A : Type 0} (reply : Reply A) (db : Db P) (r : Result (Db P))
      → UniqueNames db
      → ((db' : Db P) → r ≡ ok db' → UniqueNames db')
      → UniqueNames (stored P J reply db r).1
  stored-UniqueNames reply db (ok db') u f = f db' refl
  stored-UniqueNames reply db (err e) u f = u

  when_free-UniqueNames :
      (taken : Result Bool) (db : Db P) (answer : Reply (Project P.DateTime) × Db P)
      → UniqueNames db
      → (taken ≡ ok false → UniqueNames answer.1)
      → UniqueNames (when_free P J taken db answer).1
  when_free-UniqueNames (ok false) db answer u f = f refl
  when_free-UniqueNames (ok true) db answer u f = u
  when_free-UniqueNames (err e) db answer u f = u

  if-UniqueNames :
      {A : Type 0} (b : Bool) (x y : Reply A × Db P)
      → (b ≡ true → UniqueNames x.1)
      → (b ≡ false → UniqueNames y.1)
      → UniqueNames (if b then x else y).1
  if-UniqueNames true x y f g = f refl
  if-UniqueNames false x y f g = g refl

  create_project-UniqueNames :
      (id : Text) (now : P.DateTime) (input : ProjectInput) (db : Db P)
      → UniqueNames db
      → UniqueNames (create_project P J to_lowercase id now input db).1
  unfolding create_project
  create_project-UniqueNames id now input db u =
      let r = new_project P J id now input in
      if-UniqueNames (is_empty (trim input.name)) _ _ (λ _. u)
        (λ _.
          when_free-UniqueNames (name_taken P J to_lowercase (trim input.name) none db) db _ u
            λ free. stored-UniqueNames (created r) db (put_project P J r db) u λ db' h.
              put_project-UniqueNames r db db' u
                (λ i p at_i same.
                  absurd (no_id (name_taken-free (trim input.name) none db i p free at_i same)))
                h)
    where
      no_id : false ≡ true → ⊥
      no_id h = cc

  update_found-UniqueNames :
      (id : Text) (input : ProjectInput) (db : Db P) (found : Result (Option (Project P.DateTime)))
      → get_project P J id db ≡ found
      → UniqueNames db
      → UniqueNames (update_found P J to_lowercase id input db found).1
  update_found-UniqueNames id input db (err e) h u = u
  update_found-UniqueNames id input db (ok none) h u = u
  update_found-UniqueNames id input db (ok (some p)) h u =
      if-UniqueNames (is_empty (trim input.name)) _ _
        (λ blank. written λ i q at_i same.
          u.unique i id q p (get_project-Stored i q db at_i) h (same ∙ ap to_lowercase (kept blank))
          ∙ sym (u.keyed id p h))
        (λ filled.
          when_free-UniqueNames (name_taken P J to_lowercase (trim input.name) (some id) db) db _ u
            λ free. written λ i q at_i same.
              sym (u.keyed i q (get_project-Stored i q db at_i))
              ∙ sym (
                  eq_of_text_eq id q.id (
                    name_taken-free (trim input.name) (some id) db i q free at_i
                      (same ∙ ap to_lowercase (renamed filled))))
              ∙ sym (u.keyed id p h))
    where
      r : Project P.DateTime
      r = updated_project P J input p

      kept : is_empty (trim input.name) ≡ true → r.name ≡ p.name
      kept e = ap (λ b. if b then p.name else trim input.name) e

      renamed : is_empty (trim input.name) ≡ false → r.name ≡ trim input.name
      renamed e = ap (λ b. if b then p.name else trim input.name) e

      written :
          ((i : Text) (q : Project P.DateTime)
            → Stored i q db
            → to_lowercase q.name ≡ to_lowercase r.name
            → i ≡ r.id)
          → UniqueNames (stored P J (success r) db (put_project P J r db)).1
      written free =
          stored-UniqueNames (success r) db (put_project P J r db) u
            λ db' k. put_project-UniqueNames r db db' u free k

  cascaded-UniqueNames :
      (id : Text) (db : Db P) (r : Result (Bool × Db P))
      → delete_project_cascade P J id db ≡ r
      → UniqueNames db
      → UniqueNames (cascaded P J db r).1
  cascaded-UniqueNames id db (err e) h u = u
  cascaded-UniqueNames id db (ok (b, db')) h u =
      go b (delete_project_cascade-CascadePost P J id db (b, db') h)
    where
      gone :
          (k : Text) (x : Option Bytes) (y : Bytes) (c : Bool)
          → x ≡ (if c then none else P.get db.projects k)
          → x ≡ some y
          → P.get db.projects k ≡ some y
      gone k x y true e f = cc
      gone k x y false e f = sym e ∙ f

      go : (b : Bool) → CascadePost P J id db (b, db') → UniqueNames db'
      go true post =
          subset-UniqueNames db db' u
            λ i p at_i. (at_i.0, gone i _ at_i.0 (text_eq id i) (post.project i) at_i.1, at_i.2)
      go false post = subst UniqueNames (sym post.1) u

  -- A change that leaves the projects as they were.
  same_projects-UniqueNames :
      (db db' : Db P) → UniqueNames db → db'.projects ≡ db.projects → UniqueNames db'
  same_projects-UniqueNames db db' u e =
      subset-UniqueNames db db' u λ i p h. subst (Holds P J.project i p) e h

  stored_pixel-UniqueNames :
      (p : Pixel P.DateTime) (reply : Reply (Pixel P.DateTime)) (db : Db P)
      → UniqueNames db
      → UniqueNames (stored P J reply db (put_pixel P J p db)).1
  unfolding put_pixel
  stored_pixel-UniqueNames p reply db u = go (put_json P J.pixel p.id p db.pixels)
    where
      go :
          (w : Result P.Table)
          → UniqueNames (stored P J reply db (w >>= λ t. ok (record db { pixels = t }))).1
      go (ok t) = same_projects-UniqueNames db (record db { pixels = t }) u refl
      go (err e) = u

  create_in-UniqueNames :
      (id project_id : Text) (now : P.DateTime) (input : PixelInput) (db : Db P)
      (found : Result (Option (Project P.DateTime)))
      → UniqueNames db
      → UniqueNames (create_in P J id project_id now input db found).1
  create_in-UniqueNames id project_id now input db (err e) u = u
  create_in-UniqueNames id project_id now input db (ok none) u = u
  create_in-UniqueNames id project_id now input db (ok (some q)) u =
      if-UniqueNames (is_empty (trim input.name)) _ _ (λ _. u)
        (λ _. stored_pixel-UniqueNames (new_pixel P J id project_id now input) _ db u)

  update_pixel_found-UniqueNames :
      (input : PixelInput) (db : Db P) (found : Result (Option (Pixel P.DateTime)))
      → UniqueNames db
      → UniqueNames (update_pixel_found P J input db found).1
  update_pixel_found-UniqueNames input db (err e) u = u
  update_pixel_found-UniqueNames input db (ok none) u = u
  update_pixel_found-UniqueNames input db (ok (some p)) u =
      stored_pixel-UniqueNames (updated_pixel P J input p) _ db u

  serve-UniqueNames :
      (db : Db P) (r : AdminRequest P J to_lowercase)
      → UniqueNames db
      → UniqueNames (serve P J to_lowercase db r)
  unfolding serve update_project remove_project create_pixel update_pixel remove_pixel delete_pixel
      delete_key
  serve-UniqueNames db (create id now input) u = create_project-UniqueNames id now input db u
  serve-UniqueNames db (update id input) u =
      update_found-UniqueNames id input db (get_project P J id db) refl u
  serve-UniqueNames db (delete id) u =
      cascaded-UniqueNames id db (delete_project_cascade P J id db) refl u
  serve-UniqueNames db (create_pixel_of id project_id now input) u =
      create_in-UniqueNames id project_id now input db (get_project P J project_id db) u
  serve-UniqueNames db (update_pixel_of id input) u =
      update_pixel_found-UniqueNames input db (get_pixel P J id db) u
  serve-UniqueNames db (delete_pixel_of id) u =
      same_projects-UniqueNames db (remove_pixel P J id db).1 u refl

  -- Where each project stands under its identifier and no two have one name in lower case, that is so
  -- after any requests that create, change and delete projects and pixels, handled one after another.
  pub serve_all-UniqueNames :
      (rs : List (AdminRequest P J to_lowercase)) (db : Db P)
      → UniqueNames db
      → UniqueNames (serve_all P J to_lowercase db rs)
  unfolding serve_all
  serve_all-UniqueNames [] db u = u
  serve_all-UniqueNames (r ∷ rs) db u =
      serve_all-UniqueNames rs (serve P J to_lowercase db r) (serve-UniqueNames db r u)
