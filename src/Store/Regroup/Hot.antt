-- ===== src/Store/Regroup/Hot.antt =====
-- What the pass over the hot store changes, and that a second pass changes nothing.
use analytics.Common.{
  ℕ, ◌&&◌, ◌≡◌, refl, sym, ap, ◌∙◌, subst, true, false, Bool-cases, Option, none, some,
  Option-cases, List, [], ◌∷◌, arith, ◌⊎◌, inl, inr, text_eq_iff, text_eq_refl,
}
use analytics.Platform.{Bytes, Platform, lookup}
use analytics.Platform.Order.{HasDistinctKeys, HasDistinctKeys-of_IsAscending}
use analytics.Store.Event.{StoredEvent, is_exception}
use analytics.Store.Db.{ok, or_system_err, bind-eq-ok, ok-injective, or_system_err-eq-ok, Json, Db}
use analytics.Store.Rewrite.{collect, insert_all}
use analytics.Store.Rewrite.Laws.{or_else, get-rewritten, get-rewritten_at}
use analytics.Store.Regroup.{
  Remap, group_by, is_stale, regrouped, regroup_event, regroup_hot_exceptions,
}

-- The event is no exception, or its group is that of the rules.
abbrev pub IsCurrent : Remap → StoredEvent → Type 0
IsCurrent remap e = (is_exception e.kind && is_stale remap e) ≡ false

module _ (P : Platform) (J : Json P) (remap : Remap) where
  -- An event that is kept keeps its bytes; one that is rewritten differs in its group.
  abbrev pub EventPost : StoredEvent → Bytes → Option Bytes → Type 0
  EventPost e b after =
      (IsCurrent remap e × (after ≡ some b))
      ⊎ ((is_exception e.kind ≡ true)
          × (is_stale remap e ≡ true)
          × (c : Bytes) × (J.event.encode (regrouped remap e) ≡ some c)
          × (after ≡ some c))

  pub record Regrouped (db db' : Db P) : Type 0 where
    pub event_at :
        (k : List ℕ) (b : Bytes)
        → P.get db.events k ≡ some b
        → (e : StoredEvent) × (J.event.decode b ≡ some e) × EventPost e b (P.get db'.events k)
    pub absent : (k : List ℕ) → P.get db.events k ≡ none → P.get db'.events k ≡ none
    pub projects : db'.projects ≡ db.projects
    pub sources : db'.sources ≡ db.sources
    pub pixels : db'.pixels ≡ db.pixels
    pub triage : db'.exception_triage ≡ db.exception_triage
    pub meta : db'.meta ≡ db.meta

  regrouped-IsCurrent : (e : StoredEvent) → IsCurrent remap (regrouped remap e)
  regrouped-IsCurrent e = ground (arith, text_eq_refl (group_by remap e))

  or_else_post :
      (e : StoredEvent) (b : Bytes) (o : Option Bytes)
      → regroup_event P J remap e ≡ ok o
      → EventPost e b (or_else o (some b))
  or_else_post e b o h = elim (Bool-cases (is_exception e.kind)) [
    | inl exc ↦ elim (Bool-cases (is_stale remap e)) [
      | inl stale ↦
          let (c, encoded, split) =
            bind-eq-ok (or_system_err (J.event.encode (regrouped remap e))) _ o
              (rw (exc, stale) at h) in
          inr (
            exc,
            stale,
            c,
            or_system_err-eq-ok _ c encoded,
            ap (λ x. or_else x (some b)) (sym (ok-injective _ o split)),
          )
      | inr fresh ↦ inl (
        ground arith,
        ap (λ x. or_else x (some b)) (sym (ok-injective none o (rw (exc, fresh) at h))),
      )
    ]
    | inr other ↦
        inl
          (ground arith, ap (λ x. or_else x (some b)) (sym (ok-injective none o (rw (other) at h))))
  ]

  abbrev pub HotPost : Db P → ℕ × Db P → Type 0
  HotPost db (n, db') = Regrouped db db'

  -- What a successful pass over the hot store has done: each event decodes; an exception whose group
  -- is not that of the rules is rewritten with that group and nothing else changed; every other
  -- event keeps its bytes, no key is added or dropped, and no other table changes.
  pub regroup_hot_exceptions-Regrouped :
      (db : Db P) (r : ℕ × Db P) → regroup_hot_exceptions P J remap db ≡ ok r → Regrouped db r.1
  unfolding regroup_hot_exceptions
  regroup_hot_exceptions-Regrouped db r h =
      let (ups, collected, h1) =
        bind-eq-ok (collect J.event.decode (regroup_event P J remap) (P.iter db.events)) _ r h in
      subst (λ (x : ℕ × Db P). Regrouped db x.1) (ok-injective _ r h1)
        (record {
          event_at = λ k b found.
              let (e, o, decoded, made, after) =
                get-rewritten_at J.event.decode (regroup_event P J remap) P db.events ups k b
                  collected found in
              (e, decoded, subst (EventPost e b) (sym after) (or_else_post e b o made));
          absent = λ k missing.
              get-rewritten P J.event.decode (regroup_event P J remap) db.events ups k collected
              ∙ rw missing;
          projects = refl;
          sources = refl;
          pixels = refl;
          triage = refl;
          meta = refl;
        })

  -- After a pass every event that is stored is current.
  IsCurrent-after :
      (db db' : Db P)
      → Regrouped db db'
      → (k : List ℕ) (c : Bytes) → P.get db'.events k ≡ some c
      → (e : StoredEvent) × (J.event.decode c ≡ some e) × IsCurrent remap e
  IsCurrent-after db db' r k c found = elim (Option-cases (P.get db.events k)) [
    | inl missing ↦ absurd (let gone = r.absent k missing in cc)
    | inr (b, before) ↦
        let (e, decoded, post) = r.event_at k b before in
        elim post [
          | inl (current, same) ↦
              let same_bytes : b ≡ c = cc in
              (e, ap J.event.decode (sym same_bytes) ∙ decoded, current)
          | inr (exc, stale, c', encoded, after) ↦
              let same_bytes : c' ≡ c = cc in
              (
                regrouped remap e,
                ap J.event.decode (sym same_bytes)
                    ∙ J.event.decode-encode (regrouped remap e) c' encoded,
                regrouped-IsCurrent e,
              )
        ]
  ]

  collect_current :
      (m : List (List ℕ × Bytes))
      → HasDistinctKeys m
      → ((k : List ℕ) (c : Bytes)
          → lookup k m ≡ some c
          → (e : StoredEvent) × (J.event.decode c ≡ some e) × IsCurrent remap e)
      → collect J.event.decode (regroup_event P J remap) m ≡ ok []
  unfolding collect
  collect_current [] d h = refl
  collect_current ((k, b) ∷ m) d h =
      let (e, decoded, current) = h k b (ground (arith, text_eq_refl k)) in
      let ih = collect_current m d.1 (λ j c found. h j c (below j c found)) in
      let nothing : regroup_event P J remap e ≡ ok none = ground arith in
      rw (decoded, nothing, ih) refl
    where
      below : (j : List ℕ) (c : Bytes) → lookup j m ≡ some c → lookup j ((k, b) ∷ m) ≡ some c
      below j c found = ground (arith, text_eq_iff k j, d.0)

  -- A pass that runs again on what it left behind changes nothing and reports no change.
  pub regroup_hot_exceptions_again :
      (db : Db P) (r : ℕ × Db P)
      → regroup_hot_exceptions P J remap db ≡ ok r
      → regroup_hot_exceptions P J remap r.1 ≡ ok (0, r.1)
  unfolding regroup_hot_exceptions insert_all
  regroup_hot_exceptions_again db r h =
      let post = regroup_hot_exceptions-Regrouped db r h in
      let none_left : collect J.event.decode (regroup_event P J remap) (P.iter r.1.events) ≡ ok [] =
        collect_current (P.iter r.1.events)
          (HasDistinctKeys-of_IsAscending (P.iter r.1.events) (P.iter-IsAscending r.1.events))
          (λ k c found. IsCurrent-after db r.1 post k c (sym (P.get-iter r.1.events k) ∙ found)) in
      rw (none_left) refl
