-- ===== src/Ingest/Pipeline/Flush.antt =====
-- What a flush and a round of the writer do.
use mathlib.Core.List.{append-nil}
use analytics.Common.{
  ℕ, ◌+◌, ◌≤◌, ◌<◌, ◌≡◌, refl, sym, subst, ◌⊎◌, inl, inr, false, Bool-cases, List, [], ◌∷◌, ◌++◌,
  All, arith, Text, max, length, length-append, leb,
}
use analytics.Platform.{Platform}
use analytics.Store.Event.{StoredEvent}
use analytics.Store.Db.{Result, ok, err, Json, Store}
use analytics.Store.Log.{append_events}
use analytics.Ingest.Pipeline.{
  batch_size, select_new, Writer, register_all, after_append, settle, flush_batch, Wake, received,
  closed, tick, writer_step,
}
use analytics.Ingest.Pipeline.Registered.{TaskPost, after_append-TaskPost}
use analytics.Ingest.Pipeline.Ceiling.{
  Fresh, HasSource, length-select_new, select_new-Fresh, select_new-Covers,
}

module _ (P : Platform) (J : Json P) where
  abbrev pub learned : Result (Unit {0}) → List Text → List Text → List Text
  learned (ok _) known new = known ++ new
  learned (err e) known new = known

  -- The batch is taken; its events are appended and then the sources of `new` are registered, all of
  -- them new and each once, up to the ceiling and, below it, none of the batch's left out; they count
  -- as known when all of that succeeds.
  pub record FlushPost (max_sources : ℕ) (now : P.DateTime) (w w' : Writer P J) : Type 0 where
    pub emptied : w'.batch ≡ []
    pub ceiling : length w'.known_sources ≤ max (length w.known_sources) max_sources
    pub new : List Text
    pub fresh : Fresh w.known_sources new
    pub covered :
        (max_sources ≤ length w.known_sources + length new)
        ⊎ All (HasSource w.known_sources new) w.batch
    pub result : Result (Unit {0})
    pub stored : after_append P J now new (append_events P J w.batch w.store) ≡ (result, w'.store)
    pub task : TaskPost P J now new (append_events P J w.batch w.store) result w'.store
    pub known : w'.known_sources ≡ learned result w.known_sources new

  settled :
      (max_sources : ℕ) (now : P.DateTime) (s : Store P) (es : List StoredEvent)
      (known new : List Text)
      → Fresh known new
      → (max_sources ≤ length known + length new) ⊎ All (HasSource known new) es
      → length known + length new ≤ max (length known) max_sources
      → (r : Result (Unit {0}) × Store P) → after_append P J now new (append_events P J es s) ≡ r
      → FlushPost max_sources now
          (record { store = s; batch = es; known_sources = known })
          (settle P J known new r)
  settled max_sources now s es known new f c l (ok x, s') h = record {
    emptied = refl;
    ceiling = omega (arith, l, length-append known new);
    new = new;
    fresh = f;
    covered = c;
    result = ok x;
    stored = h;
    task =
        subst (λ q. TaskPost P J now new (append_events P J es s) q.0 q.1) h
          (after_append-TaskPost P J now new (append_events P J es s));
    known = refl;
  }
  settled max_sources now s es known new f c l (err e, s') h = record {
    emptied = refl;
    ceiling = omega arith;
    new = new;
    fresh = f;
    covered = c;
    result = err e;
    stored = h;
    task =
        subst (λ q. TaskPost P J now new (append_events P J es s) q.0 q.1) h
          (after_append-TaskPost P J now new (append_events P J es s));
    known = refl;
  }

  flush_parts :
      (max_sources : ℕ) (now : P.DateTime) (s : Store P) (es : List StoredEvent) (known : List Text)
      → FlushPost max_sources now
          (record { store = s; batch = es; known_sources = known })
          (flush_batch P J max_sources now
            (record { store = s; batch = es; known_sources = known }))
  unfolding flush_batch append_events register_all
  flush_parts max_sources now s [] known = record {
    emptied = refl;
    ceiling = omega arith;
    new = [];
    fresh = record { distinct = tt; unknown = λ t h. cc };
    covered = inr tt;
    result = ok tt;
    stored = refl;
    task = after_append-TaskPost P J now [] (append_events P J [] s);
    known = sym (append-nil known);
  }
  flush_parts max_sources now s (e ∷ es) known =
      let new = select_new known max_sources (e ∷ es) [] [] in
      settled max_sources now s (e ∷ es) known new
        (select_new-Fresh known max_sources (e ∷ es) [] [] (λ t h. h)
          (record { distinct = tt; unknown = λ t h. cc }))
        (elim (select_new-Covers known max_sources (e ∷ es) [] [] (λ t h. h)) [
          | inl full ↦ inl full
          | inr (all, kept) ↦ inr all
        ])
        (length-select_new known max_sources (e ∷ es) [] [] (omega arith))
        (after_append P J now new (append_events P J (e ∷ es) s)) refl

  -- What a flush does, of any batch. The batch is taken. Its events are appended, and then the sources
  -- of a list are registered: none of them was known and none stands twice, and unless the ceiling of
  -- sources is reached, each event of the batch has a source that was known or stands in the list.
  -- Where the append failed nothing is registered and its error is the result. Else the store differs
  -- from that after the append at most by fresh sources under keys that had none, and where the
  -- registrations succeeded each source of the list is stored, be it from before or fresh. The
  -- known sources grow by the list where all of that succeeds and else stay as they were, and they are
  -- never more than the ceiling, or than they were.
  pub flush_batch-FlushPost :
      (max_sources : ℕ) (now : P.DateTime) (w : Writer P J)
      → FlushPost max_sources now w (flush_batch P J max_sources now w)
  flush_batch-FlushPost max_sources now w =
      flush_parts max_sources now w.store w.batch w.known_sources

  -- A round of the writer keeps the batch below its size, and closing the queue leaves none behind.
  pub writer_step_batch :
      (max_sources : ℕ) (now : P.DateTime) (wake : Wake) (w : Writer P J)
      → length w.batch < batch_size
      → (length (writer_step P J max_sources now wake w).1.batch < batch_size)
        × ((writer_step P J max_sources now wake w).0 ≡ false
            → (writer_step P J max_sources now wake w).1.batch ≡ [])
  unfolding writer_step
  writer_step_batch max_sources now (received event) w h =
      let w' : Writer P J = record w { batch = w.batch ++ (event ∷ []) } in
      let flushed : (flush_batch P J max_sources now w').batch ≡ [] =
        (flush_batch-FlushPost max_sources now w').emptied in
      (
        elim (Bool-cases (leb batch_size (length w'.batch))) [
          | inl full ↦ rw (full) (rw (flushed) (omega arith))
          | inr room ↦ rw (room) (ground arith)
        ],
        λ stop. cc,
      )
  writer_step_batch max_sources now closed w h =
      let flushed : (flush_batch P J max_sources now w).batch ≡ [] =
        (flush_batch-FlushPost max_sources now w).emptied in
      (rw (flushed) (omega arith), λ stop. flushed)
  writer_step_batch max_sources now tick w h =
      let flushed : (flush_batch P J max_sources now w).batch ≡ [] =
        (flush_batch-FlushPost max_sources now w).emptied in
      (rw (flushed) (omega arith), λ stop. cc)
