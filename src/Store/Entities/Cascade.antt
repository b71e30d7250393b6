-- ===== src/Store/Entities/Cascade.antt =====
-- What `delete_project_cascade` does to the tables, and that nothing refers to the project after it.
use analytics.Common.{
  ℕ, ◌≡◌, refl, sym, ◌∙◌, subst, Bool, true, false, Bool-cases, Option, none, some, Option-cases,
  List, arith, ◌⊎◌, inl, inr, Text, text_eq, if◌then◌else◌,
}
use analytics.Platform.{Bytes, Platform}
use analytics.Platform.Order.{HasDistinctKeys-of_IsAscending}
use analytics.Store.Records.{Source}
use analytics.Store.Db.{ok, or_system_err, bind-eq-ok, ok-injective, or_system_err-eq-ok, Json, Db}
use analytics.Store.Log.{remove_all}
use analytics.Store.Log.Scan.{get-remove_all}
use analytics.Store.Rewrite.{collect, select_keys, insert_all}
use analytics.Store.Rewrite.Laws.{
  or_else, selects, get-rewritten, any-select_keys, get-rewritten_at,
}
use analytics.Store.Entities.{
  is_some_text, unassigned, pixel_of, delete_existing, delete_project_cascade,
}

module _ (P : Platform) (J : Json P) (id : Text) where
  pub record Cascaded (db db' : Db P) : Type 0 where
    pub existed : (b : Bytes) × (P.get db.projects id ≡ some b)
    pub project :
        (k : Text) → P.get db'.projects k ≡ (if text_eq id k then none else P.get db.projects k)
    pub source :
        (k : Text) (b : Bytes) (s : Source P.DateTime)
        → P.get db.sources k ≡ some b
        → J.source.decode b ≡ some s
        → P.get db'.sources k ≡ (
            if is_some_text s.project_id id
            then J.source.encode (record s { project_id = none })
            else some b)
    pub no_source : (k : Text) → P.get db.sources k ≡ none → P.get db'.sources k ≡ none
    pub pixel :
        (k : Text)
        → P.get db'.pixels k ≡ (
            if selects J.pixel.decode (pixel_of P J id) (P.get db.pixels k)
            then none
            else P.get db.pixels k)
    pub events : db'.events ≡ db.events
    pub triage : db'.exception_triage ≡ db.exception_triage
    pub meta : db'.meta ≡ db.meta

  -- The answer tells whether the project existed; where it did not, nothing changes.
  abbrev pub CascadePost : Db P → Bool × Db P → Type 0
  CascadePost db (true, db') = Cascaded db db'
  CascadePost db (false, db') = (P.get db.projects id ≡ none) × (db' ≡ db)

  unassigned-inv :
      (s : Source P.DateTime) (o : Option Bytes)
      → unassigned P J id s ≡ ok o
      → ((is_some_text s.project_id id ≡ true)
          × (b : Bytes) × (J.source.encode (record s { project_id = none }) ≡ some b)
          × (o ≡ some b))
        ⊎ ((is_some_text s.project_id id ≡ false) × (o ≡ none))
  unassigned-inv s o h = elim (Bool-cases (is_some_text s.project_id id)) [
    | inl refers ↦
        let (b, encoded, split) =
          bind-eq-ok (or_system_err (J.source.encode (record s { project_id = none }))) _ o
            (rw refers at h) in
        inl (refers, b, or_system_err-eq-ok _ b encoded, cc)
    | inr other ↦ inr (other, cc (rw other at h))
  ]

  module _ (db : Db P) (updates : List (List ℕ × Bytes)) (to_delete : List (List ℕ))
      (collected : collect J.source.decode (unassigned P J id) (P.iter db.sources) ≡ ok updates)
      (selected : select_keys J.pixel.decode (pixel_of P J id) (P.iter db.pixels)
        ≡ ok to_delete) where
    source_after :
        (k : Text) (b : Bytes) (s : Source P.DateTime)
        → P.get db.sources k ≡ some b
        → J.source.decode b ≡ some s
        → P.get (insert_all P updates db.sources) k ≡ (
            if is_some_text s.project_id id
            then J.source.encode (record s { project_id = none })
            else some b)
    source_after k b s found decoded =
        let (s', o, decoded', made, after) =
          get-rewritten_at J.source.decode (unassigned P J id) P db.sources updates k b collected
            found in
        let same : s' ≡ s = ground arith in
        after ∙ chosen o b (unassigned-inv s o (subst (λ x. unassigned P J id x ≡ ok o) same made))
      where
        chosen :
            (o : Option Bytes) (b : Bytes)
            → ((is_some_text s.project_id id ≡ true)
                × (c : Bytes) × (J.source.encode (record s { project_id = none }) ≡ some c)
                × (o ≡ some c))
              ⊎ ((is_some_text s.project_id id ≡ false) × (o ≡ none))
            → or_else o (some b) ≡ (
                if is_some_text s.project_id id
                then J.source.encode (record s { project_id = none })
                else some b)
        chosen o b (inl (refers, c, encoded, split)) = rw (refers, split) (sym encoded)
        chosen o b (inr (other, split)) = rw (other, split)

    no_source_after :
        (k : Text) → P.get db.sources k ≡ none → P.get (insert_all P updates db.sources) k ≡ none
    no_source_after k absent =
        get-rewritten P J.source.decode (unassigned P J id) db.sources updates k collected
        ∙ rw absent

    pixel_after :
        (k : Text)
        → P.get (remove_all P to_delete db.pixels) k ≡ (
            if selects J.pixel.decode (pixel_of P J id) (P.get db.pixels k)
            then none
            else P.get db.pixels k)
    pixel_after k =
        let d = HasDistinctKeys-of_IsAscending (P.iter db.pixels) (P.iter-IsAscending db.pixels) in
        ground (
          arith,
          get-remove_all P to_delete db.pixels k,
          any-select_keys J.pixel.decode (pixel_of P J id) (P.iter db.pixels) to_delete k d
              selected,
          P.get-iter db.pixels k,
        )

  delete_existing-CascadePost :
      (db : Db P) (r : Bool × Db P)
      → (b : Bytes) × (P.get db.projects id ≡ some b)
      → delete_existing P J id db ≡ ok r
      → CascadePost db r
  unfolding delete_existing
  delete_existing-CascadePost db r existed h =
      let (updates, collected, h1) =
        bind-eq-ok (collect J.source.decode (unassigned P J id) (P.iter db.sources)) _ r h in
      let (to_delete, selected, h2) =
        bind-eq-ok (select_keys J.pixel.decode (pixel_of P J id) (P.iter db.pixels)) _ r h1 in
      subst (CascadePost db) (ok-injective _ r h2) (record {
        existed = existed;
        project = λ k. P.get-remove id k db.projects;
        source = source_after db updates to_delete collected selected;
        no_source = no_source_after db updates to_delete collected selected;
        pixel = pixel_after db updates to_delete collected selected;
        events = refl;
        triage = refl;
        meta = refl;
      })

  -- What a successful `delete_project_cascade` has done. It answers true only where the project
  -- existed: then the project is gone, its sources have no project, its pixels are gone, and
  -- everything else is as it was. It answers false only where there was none: then nothing changes.
  pub delete_project_cascade-CascadePost :
      (db : Db P) (r : Bool × Db P) → delete_project_cascade P J id db ≡ ok r → CascadePost db r
  unfolding delete_project_cascade
  delete_project_cascade-CascadePost db r h = elim (Option-cases (P.get db.projects id)) [
    | inl absent ↦
        subst (CascadePost db) (ok-injective _ r (rw (absent, delete_project_cascade) at h))
          (absent, refl)
    | inr found ↦ delete_existing-CascadePost db r found (rw (found.1, delete_project_cascade) at h)
  ]
