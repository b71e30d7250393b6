-- ===== src/Ingest/Pipeline/Registered.antt =====
-- What the registration of sources leaves in the store.
use analytics.Common.{
  ◌≡◌, refl, sym, ap, ◌∙◌, subst, ◌⊎◌, inl, inr, Bool-cases, Option, none, some, List, [], ◌∷◌, All,
  Text, text_eq, eq_of_text_eq, if◌then◌else◌,
}
use analytics.Platform.{Bytes, Platform}
use analytics.Store.Records.{Source}
use analytics.Store.Db.{
  Result, ok, err, ◌>>=◌, bind-eq-ok, ok-injective, or_system_err, Json, Db, Store, put_json,
  get_json,
}
use analytics.Store.Access.{Holds, get_json-Holds, put_json-Holds, put_json-get}
use analytics.Store.Entities.{get_source, put_source, registered, register_source_if_absent}
use analytics.Ingest.Pipeline.{with_db, register_all, after_append}

module _ (P : Platform) (J : Json P) (now : P.DateTime) where
  -- Each source is as it was, or was not there and is now a fresh one; the rest is as it was.
  pub record Added (db db' : Db P) : Type 0 where
    pub source :
        (k : Text)
        → (P.get db'.sources k ≡ P.get db.sources k)
          ⊎ ((P.get db.sources k ≡ none) × Holds P J.source k (registered P J k now) db'.sources)
    pub events : db'.events ≡ db.events
    pub projects : db'.projects ≡ db.projects
    pub pixels : db'.pixels ≡ db.pixels
    pub triage : db'.exception_triage ≡ db.exception_triage
    pub meta : db'.meta ≡ db.meta

  -- A source stands under the key.
  abbrev pub IsStored : Db P → Text → Type 0
  IsStored db k = (b : Bytes) × (P.get db.sources k ≡ some b)

  unchanged-Added : (db : Db P) → Added db db
  unchanged-Added db = record {
    source = λ k. inl refl;
    events = refl;
    projects = refl;
    pixels = refl;
    triage = refl;
    meta = refl;
  }

  Added-trans : (a b c : Db P) → Added a b → Added b c → Added a c
  Added-trans a b c f g = record {
    source = λ k. then_source k (f.source k) (g.source k);
    events = g.events ∙ f.events;
    projects = g.projects ∙ f.projects;
    pixels = g.pixels ∙ f.pixels;
    triage = g.triage ∙ f.triage;
    meta = g.meta ∙ f.meta;
  }
    where
      then_source :
          (k : Text)
          → (P.get b.sources k ≡ P.get a.sources k)
            ⊎ ((P.get a.sources k ≡ none) × Holds P J.source k (registered P J k now) b.sources)
          → (P.get c.sources k ≡ P.get b.sources k)
            ⊎ ((P.get b.sources k ≡ none) × Holds P J.source k (registered P J k now) c.sources)
          → (P.get c.sources k ≡ P.get a.sources k)
            ⊎ ((P.get a.sources k ≡ none) × Holds P J.source k (registered P J k now) c.sources)
      then_source k (inl e) (inl e') = inl (e' ∙ e)
      then_source k (inl e) (inr (absent, held)) = inr (sym e ∙ absent, held)
      then_source k (inr (absent, (x, there, decoded))) (inl e') =
          inr (absent, (x, e' ∙ there, decoded))
      then_source k (inr (absent, (x, there, decoded))) (inr (gone, held)) = cc

  IsStored-Added : (a b : Db P) (k : Text) → Added a b → IsStored a k → IsStored b k
  IsStored-Added a b k f (x, there) = still (f.source k)
    where
      still :
          (P.get b.sources k ≡ P.get a.sources k)
            ⊎ ((P.get a.sources k ≡ none) × Holds P J.source k (registered P J k now) b.sources)
          → IsStored b k
      still (inl e) = (x, e ∙ there)
      still (inr (absent, held)) = (held.0, held.1)

  get_source-none :
      (k : Text) (db : Db P) → get_source P J k db ≡ ok none → P.get db.sources k ≡ none
  unfolding get_source get_json
  get_source-none k db h = go (P.get db.sources k) h
    where
      go :
          (o : Option Bytes)
          → (elim o as (λ _. Result (Option (Source P.DateTime))) [
            | none ↦ ok none
            | some b ↦ or_system_err (J.source.decode b) >>= λ v. ok (some v)
          ])
            ≡ ok none
          → o ≡ none
      go none e = refl
      go (some b) e = let (v, hv, k) = bind-eq-ok (or_system_err (J.source.decode b)) _ none e in cc

  get_source-some :
      (k : Text) (db : Db P) (v : Source P.DateTime)
      → get_source P J k db ≡ ok (some v)
      → IsStored db k
  unfolding get_source
  get_source-some k db v h =
      let held = get_json-Holds P J.source k v db.sources h in (held.0, held.1)

  put_source-Added :
      (k : Text) (db db' : Db P)
      → P.get db.sources k ≡ none
      → put_source P J (registered P J k now) db ≡ ok db'
      → Added db db' × IsStored db' k
  unfolding put_source
  put_source-Added k db db' absent h =
      let (t, written, h1) =
        bind-eq-ok (put_json P J.source k (registered P J k now) db.sources) _ db' h in
      let (b, encoded, after) =
        put_json-get P J.source k (registered P J k now) db.sources t written in
      let held = put_json-Holds P J.source k (registered P J k now) db.sources t written in
      subst (λ x. Added db x × IsStored x k) (ok-injective _ db' h1)
        (
          record {
            source = λ i. elim (Bool-cases (text_eq k i)) [
              | inl same ↦ inr (
                  subst
                    (λ j. (P.get db.sources j ≡ none) × Holds P J.source j (registered P J j now) t)
                    (eq_of_text_eq k i same) (absent, held))
              | inr other ↦ inl (after i ∙ ap (λ y. if y then some b else P.get db.sources i) other)
            ];
            events = refl;
            projects = refl;
            pixels = refl;
            triage = refl;
            meta = refl;
          },
          (held.0, held.1),
        )

  register_source_if_absent-Added :
      (k : Text) (db db' : Db P)
      → register_source_if_absent P J k now db ≡ ok db'
      → Added db db' × IsStored db' k
  unfolding register_source_if_absent
  register_source_if_absent-Added k db db' h =
      let (found, had, h1) = bind-eq-ok (get_source P J k db) _ db' h in go found had h1
    where
      go :
          (found : Option (Source P.DateTime))
          → get_source P J k db ≡ ok found
          → (elim found as (λ _. Result (Db P)) [
            | some _ ↦ ok db
            | none ↦ put_source P J (registered P J k now) db
          ])
            ≡ ok db'
          → Added db db' × IsStored db' k
      go none had e = put_source-Added k db db' (get_source-none k db had) e
      go (some v) had e =
          subst (λ x. Added db x × IsStored x k) (ok-injective db db' e)
            (unchanged-Added db, get_source-some k db v had)

  -- After any registrations the store has at most grown by fresh sources; where they all succeeded,
  -- each of the sources is there.
  abbrev pub RegisteredPost : List Text → Store P → Result (Unit {0}) × Store P → Type 0
  RegisteredPost uris s (ok _, s') =
      Added s.db s'.db × All (IsStored s'.db) uris × (s'.next_seq ≡ s.next_seq)
  RegisteredPost uris s (err e, s') = Added s.db s'.db × (s'.next_seq ≡ s.next_seq)

  register_all-RegisteredPost :
      (uris : List Text) (s : Store P) → RegisteredPost uris s (register_all P J now uris s)
  unfolding register_all
  register_all-RegisteredPost [] s = (unchanged-Added s.db, tt, refl)
  register_all-RegisteredPost (uri ∷ uris) s =
      go (λ t. register_all-RegisteredPost uris t) (register_source_if_absent P J uri now s.db) refl
    where
      more :
          (db : Db P)
          → Added s.db db
          → IsStored db uri
          → (r : Result (Unit {0}) × Store P) → RegisteredPost uris (with_db P J s db) r
          → RegisteredPost (uri ∷ uris) s r
      more db f here (ok x, s') (g, all, e) =
          (Added-trans s.db db s'.db f g, (IsStored-Added db s'.db uri g here, all), e)
      more db f here (err e, s') (g, same) = (Added-trans s.db db s'.db f g, same)

      go :
          ((t : Store P) → RegisteredPost uris t (register_all P J now uris t))
          → (r : Result (Db P)) → register_source_if_absent P J uri now s.db ≡ r
          → RegisteredPost (uri ∷ uris) s (elim r as (λ _. Result (Unit {0}) × Store P) [
            | err e ↦ (err e, s)
            | ok db ↦ register_all P J now uris (with_db P J s db)
          ])
      go rest (err e) h = (unchanged-Added s.db, refl)
      go rest (ok db) h =
          let (f, here) = register_source_if_absent-Added uri s.db db h in
          more db f here (register_all P J now uris (with_db P J s db)) (rest (with_db P J s db))

  -- What the task leaves of an append: where it failed nothing is registered, and its error is the
  -- result.
  abbrev pub TaskPost :
      List Text → Result (Unit {0}) × Store P → Result (Unit {0}) → Store P → Type 0
  TaskPost uris (err e, s) result s' = (result ≡ err e) × (s' ≡ s)
  TaskPost uris (ok _, s) result s' = RegisteredPost uris s (result, s')

  pub after_append-TaskPost :
      (uris : List Text) (r : Result (Unit {0}) × Store P)
      → TaskPost uris r (after_append P J now uris r).0 (after_append P J now uris r).1
  after_append-TaskPost uris (err e, s) = (refl, refl)
  after_append-TaskPost uris (ok x, s) = register_all-RegisteredPost uris s
