-- ===== src/Ingest/Compactor/NoLoss.antt =====
-- Compaction moves events and loses none.
use mathlib.Core.List.{Memᴰ}
use analytics.Common.{
  ℕ, ℤ, pos_part, ◌≡◌, refl, sym, ap, ◌∙◌, subst, Bool, true, false, Bool-cases, ◌⊎◌, none, some,
  List, [], ◌∷◌, map, arith, inl, inr, ltb, length, keep, text_eq, length-map,
}
use analytics.Platform.{Bytes, Platform, lookup}
use analytics.Store.Keys.{u64_from_be}
use analytics.Store.Event.{StoredEvent}
use analytics.Store.Db.{Error, Result, ok, err, Json, Db}
use analytics.Store.Log.{events_before_with_keys, delete_keys}
use analytics.Store.Log.Scan.{
  lookup-select_before, select_before-decodes, any-key-lookup, get-remove_all,
}
use analytics.Ingest.Compactor.{
  eq_ℤ, Partition, Archive, date_of, group_by_date, write_groups, World, compact_window, sealed,
  finish,
}
use analytics.Ingest.Compactor.Groups.{
  date_eq_iff, on_day, lookup-group_by_date, group_by_date-IsDistinct, size-group_by_date, extended,
}
use analytics.Ingest.Compactor.Partitions.{read-write_groups, count-write_groups}

-- The value that a map holds under a key is one of its values.
mem_of_lookup {ℓ} :
    {V : Type ℓ} (k : List ℕ) (v : V) (m : List (List ℕ × V))
    → lookup k m ≡ some v
    → Memᴰ v (map (λ e. e.1) m)
mem_of_lookup k v [] h = cc
mem_of_lookup k v ((j, w) ∷ m) h = elim (Bool-cases (text_eq j k)) [
  | inl same ↦ Memᴰ.head (ground arith)
  | inr other ↦ Memᴰ.tail (mem_of_lookup k v m (rw other at h))
]

mem-keep :
    (p : StoredEvent → Bool) (e : StoredEvent) (es : List StoredEvent)
    → p e ≡ true
    → Memᴰ e es
    → Memᴰ e (keep p es)
mem-keep p e [] h m = elim m [ ]
mem-keep p e (x ∷ es) h (Memᴰ.head same) =
    let here : p x ≡ true = ap p (sym same) ∙ h in rw here (Memᴰ.head same)
mem-keep p e (x ∷ es) h (Memᴰ.tail m) = elim (Bool-cases (p x)) [
  | inl kept ↦ rw kept (Memᴰ.tail (mem-keep p e es h m))
  | inr dropped ↦ rw dropped (mem-keep p e es h m)
]

extended_of_mem : (e : StoredEvent) (g : List StoredEvent) → Memᴰ e g → extended none g ≡ some g
extended_of_mem e [] m = elim m [ ]
extended_of_mem e (x ∷ g) m = refl

module _ (A : Archive) where
  -- After the writes, an event of the list is in the partition of its day.
  archived_of_mem :
      (stamp : ℤ) (es : List StoredEvent) (f : A.Files) (n : ℕ) (e : StoredEvent)
      → (write_groups A stamp (group_by_date A [] es) f).0 ≡ ok n
      → Memᴰ e es
      → (g : List StoredEvent) × (A.read_partition
            (write_groups A stamp (group_by_date A [] es) f).1
            (record { date = date_of A e; stamp = stamp })
          ≡ some g)
        × Memᴰ e g
  archived_of_mem stamp es f n e wrote m =
      let day = date_of A e in
      let q : Partition = record { date = day; stamp = stamp } in
      let here = mem-keep (on_day A day) e es ((date_eq_iff day day).1 refl) m in
      (
        keep (on_day A day) es,
        ground (
          arith,
          read-write_groups A stamp (group_by_date A [] es) f n q
              (group_by_date-IsDistinct A [] es tt) wrote,
          lookup-group_by_date A day [] es,
          extended_of_mem e (keep (on_day A day) es) here,
        ),
        here,
      )

module _ (A : Archive) (P : Platform) (J : Json P) where
  -- A successful run: every event that stood below the cutoff when the log was read is in the
  -- partition of its day and has left the hot store; every other entry of the hot store is what
  -- the other threads left there; partitions of another stamp are as they were; and the result is
  -- the number of events that were sealed.
  pub record Sealed (cutoff_ms stamp : ℤ) (meanwhile : Db P → Db P) (w w' : World A P J) (n : ℕ)
      : Type 0 where
    pub archived :
        (k : List ℕ) (b : Bytes)
        → P.get w.db.events k ≡ some b
        → ltb (u64_from_be k) (pos_part cutoff_ms) ≡ true
        → (e : StoredEvent) × (g : List StoredEvent) × (J.event.decode b ≡ some e)
          × (A.read_partition w'.files (record { date = date_of A e; stamp = stamp }) ≡ some g)
          × Memᴰ e g
          × (P.get w'.db.events k ≡ none)
    pub hot :
        (k : List ℕ)
        → (P.get w.db.events k ≡ none) ⊎ (ltb (u64_from_be k) (pos_part cutoff_ms) ≡ false)
        → P.get w'.db.events k ≡ P.get (meanwhile w.db).events k
    pub untouched :
        (q : Partition)
        → eq_ℤ stamp q.stamp ≡ false
        → A.read_partition w'.files q ≡ A.read_partition w.files q
    pub count :
        (pairs : List (List ℕ × StoredEvent))
        → events_before_with_keys P J cutoff_ms w.db ≡ ok pairs
        → n ≡ length pairs

  abbrev size_of : Result (List (List ℕ × StoredEvent)) → ℕ
  size_of (ok pairs) = length pairs
  size_of (err x) = 0

  module _ (cutoff_ms stamp : ℤ) (meanwhile : Db P → Db P) (w : World A P J) where
    -- What the scan has found under a key.
    found_at :
        (pairs : List (List ℕ × StoredEvent)) (k : List ℕ) (b : Bytes)
        → events_before_with_keys P J cutoff_ms w.db ≡ ok pairs
        → P.get w.db.events k ≡ some b
        → ltb (u64_from_be k) (pos_part cutoff_ms) ≡ true
        → (e : StoredEvent) × (J.event.decode b ≡ some e) × (lookup k pairs ≡ some e)
    unfolding events_before_with_keys
    found_at pairs k b read found low =
        let entries = P.iter w.db.events in
        let stored = P.get-iter w.db.events k ∙ found in
        let (e, decoded) =
          select_before-decodes P J (pos_part cutoff_ms) entries pairs k b read stored low in
        let law = lookup-select_before P J (pos_part cutoff_ms) entries pairs k read in
        (e, decoded, rw (low, stored) at law ∙ decoded)

    not_found_at :
        (pairs : List (List ℕ × StoredEvent)) (k : List ℕ)
        → events_before_with_keys P J cutoff_ms w.db ≡ ok pairs
        → (P.get w.db.events k ≡ none) ⊎ (ltb (u64_from_be k) (pos_part cutoff_ms) ≡ false)
        → lookup k pairs ≡ none
    unfolding events_before_with_keys
    not_found_at pairs k read why = ground (
      arith,
      P.get-iter w.db.events k,
      lookup-select_before P J (pos_part cutoff_ms) (P.iter w.db.events) pairs k read,
    )

    get-delete_keys :
        (pairs : List (List ℕ × StoredEvent)) (later : Db P) (k : List ℕ)
        → P.get (delete_keys P (map (λ e. e.0) pairs) later).events k
          ≡ (elim (lookup k pairs) [ none ↦ P.get later.events k | some _ ↦ none ])
    unfolding delete_keys
    get-delete_keys pairs later k =
        ground
          (arith, get-remove_all P (map (λ e. e.0) pairs) later.events k, any-key-lookup k pairs)

    finish-inv :
        (keys : List (List ℕ)) (later : Db P) (r : Result ℕ × A.Files) (n : ℕ)
        → (finish A P J keys later r).0 ≡ ok n
        → (r.0 ≡ ok n)
          × ((finish A P J keys later r).1 ≡ record { db = delete_keys P keys later; files = r.1 })
    finish-inv keys later (ok m, f) n h = (h, refl)
    finish-inv keys later (err x, f) n h = cc

    sealed-Sealed :
        (r : Result (List (List ℕ × StoredEvent))) (n : ℕ)
        → events_before_with_keys P J cutoff_ms w.db ≡ r
        → (sealed A P J stamp meanwhile w r).0 ≡ ok n
        → Sealed cutoff_ms stamp meanwhile w (sealed A P J stamp meanwhile w r).1 n
    sealed-Sealed (err x) n read h = cc
    sealed-Sealed (ok []) n read h = record {
      archived = λ k b found low. let (e, decoded, absent) = found_at [] k b read found low in cc;
      hot = λ k why. refl;
      untouched = λ q other. refl;
      count = λ pairs again. ground (arith, again, read);
    }
    sealed-Sealed (ok (p ∷ ps)) n read h =
        let pairs : List (List ℕ × StoredEvent) = p ∷ ps in
        let es = map (λ e. e.1) pairs in
        let written = write_groups A stamp (group_by_date A [] es) w.files in
        let (wrote, result) = finish-inv (map (λ e. e.0) pairs) (meanwhile w.db) written n h in
        subst (λ w'. Sealed cutoff_ms stamp meanwhile w w' n) (sym result)
          (record {
            archived = λ k b found low.
                let (e, decoded, here) = found_at pairs k b read found low in
                let (g, stored, mem) =
                  archived_of_mem A stamp es w.files n e wrote (mem_of_lookup k e pairs here) in
                (
                  e,
                  g,
                  decoded,
                  stored,
                  mem,
                  ground (arith, get-delete_keys pairs (meanwhile w.db) k),
                );
            hot = λ k why.
                ground
                  (arith, get-delete_keys pairs (meanwhile w.db) k, not_found_at pairs k read why);
            untouched = λ q other. ground (
              arith,
              read-write_groups A stamp (group_by_date A [] es) w.files n q
                  (group_by_date-IsDistinct A [] es tt) wrote,
            );
            count = λ again read_again.
                let same : length again ≡ length pairs =
                  ap (λ (r : Result (List (List ℕ × StoredEvent))). size_of r)
                    (sym read_again ∙ read) in
                omega (
                  arith,
                  count-write_groups A stamp (group_by_date A [] es) w.files n wrote,
                  size-group_by_date A [] es,
                  length-map (λ (e : List ℕ × StoredEvent). e.1) pairs,
                );
          })

    -- A successful run of `compact_window` seals as `Sealed` says, whatever other threads commit
    -- between its read and its delete.
    pub compact_window-Sealed :
        (n : ℕ)
        → (compact_window A P J cutoff_ms stamp meanwhile w).0 ≡ ok n
        → Sealed cutoff_ms stamp meanwhile w (compact_window A P J cutoff_ms stamp meanwhile w).1 n
    unfolding compact_window
    compact_window-Sealed n h = sealed-Sealed (events_before_with_keys P J cutoff_ms w.db) n refl h

    sealed_err :
        (r : Result (List (List ℕ × StoredEvent))) (x : Error)
        → (sealed A P J stamp meanwhile w r).0 ≡ err x
        → (sealed A P J stamp meanwhile w r).1.db ≡ meanwhile w.db
    sealed_err (err y) x h = refl
    sealed_err (ok []) x h = refl
    sealed_err (ok (p ∷ ps)) x h =
        finish_err (map (λ e. e.0) (p ∷ ps))
          (write_groups A stamp (group_by_date A [] (map (λ e. e.1) (p ∷ ps))) w.files) h
      where
        finish_err :
            (keys : List (List ℕ)) (r : Result ℕ × A.Files)
            → (finish A P J keys (meanwhile w.db) r).0 ≡ err x
            → (finish A P J keys (meanwhile w.db) r).1.db ≡ meanwhile w.db
        finish_err keys (ok n, f) h = cc
        finish_err keys (err y, f) h = refl

    -- A run that fails, on reading or on writing a partition, has deleted nothing: the hot store is
    -- what the other threads left.
    pub compact_window_err :
        (x : Error)
        → (compact_window A P J cutoff_ms stamp meanwhile w).0 ≡ err x
        → (compact_window A P J cutoff_ms stamp meanwhile w).1.db ≡ meanwhile w.db
    unfolding compact_window
    compact_window_err x h = sealed_err (events_before_with_keys P J cutoff_ms w.db) x h
