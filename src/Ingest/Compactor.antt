-- ===== src/Ingest/Compactor.antt =====
-- agent/src/ingest/compactor.rs: sealing old events into one Parquet partition for each day.
pub mod Groups
pub mod Partitions
pub mod NoLoss
pub mod Retention
use mathlib.Core.Option
use analytics.Common.{
  ℕ, ◌+◌, ◌-◌, ℤ, ◌-ℤ◌, pos, pos_part, neg_part, Bool, true, false, ◌&&◌, Option, none, some, List,
  [], ◌∷◌, ◌++◌, map, ◌≡◌, ◌==◌, ltb, leb, ltb_ℤ, ◌||◌, if◌then◌else◌, length,
}
use analytics.Platform.{Bytes, Platform}
use analytics.Store.Event.{StoredEvent}
use analytics.Store.Db.{Error, Result, ok, err, ◌>>=◌, Json, Db}
use analytics.Store.Log.{events_before_with_keys, delete_keys}

-- The key of the map `by_date`.
pub record Date : Type 0 where
  pub year : ℤ
  pub month : ℕ
  pub day : ℕ

abbrev pub eq_ℤ : ℤ → ℤ → Bool
eq_ℤ a b = pos_part a + neg_part b == pos_part b + neg_part a

abbrev pub date_eq : Date → Date → Bool
date_eq a b = eq_ℤ a.year b.year && (a.month == b.month && a.day == b.day)

abbrev pub date_lt : Date → Date → Bool
date_lt a b =
    ltb_ℤ a.year b.year
    || (eq_ℤ a.year b.year && (ltb a.month b.month || (a.month == b.month && ltb a.day b.day)))

-- The file `<year>/<month>/<day>/events-<stamp>.parquet` below the configured directory.
pub record Partition : Type 0 where
  pub date : Date
  pub stamp : ℤ

abbrev pub partition_eq : Partition → Partition → Bool
partition_eq p q = date_eq p.date q.date && eq_ℤ p.stamp q.stamp

-- What the compactor takes from chrono, polars and the file system: the calendar day of an instant,
-- and partition files that are replaced as a whole or not at all.
pub record Archive : Type 1 where
  pub date_of_millis : ℤ → Option Date
  pub epoch : Date
  pub Files : Type 0
  pub read_partition : Files → Partition → Option (List StoredEvent)
  pub write_partition : List StoredEvent → Partition → Files → Result Files
  pub read-write :
      (es : List StoredEvent) (p : Partition) (f g : Files)
      → write_partition es p f ≡ ok g
      → (q : Partition)
      → read_partition g q ≡ (if partition_eq p q then some es else read_partition f q)

abbrev pub Groups : Type 0
Groups = List (Date × List StoredEvent)

abbrev pub lookup_date : Date → Groups → Option (List StoredEvent)
lookup_date d [] = none
lookup_date d ((d', g) ∷ m) = if date_eq d' d then some g else lookup_date d m

abbrev pub has_date : Date → Groups → Bool
has_date d m = elim (lookup_date d m) [ none ↦ false | some _ ↦ true ]

-- `by_date.entry(d).or_default().push(e)` on a map that is kept in the order of its keys.
unfoldable pub push_existing : Date → StoredEvent → Groups → Groups
push_existing d e [] = []
push_existing d e ((d', g) ∷ m) =
    let rest = push_existing d e m in if date_eq d' d then (d', g ++ e ∷ []) ∷ m else (d', g) ∷ rest

unfoldable pub insert_vacant : Date → StoredEvent → Groups → Groups
insert_vacant d e [] = (d, e ∷ []) ∷ []
insert_vacant d e ((d', g) ∷ m) =
    let rest = insert_vacant d e m in
    if date_lt d d' then (d, e ∷ []) ∷ (d', g) ∷ m else (d', g) ∷ rest

unfoldable pub push_date : Date → StoredEvent → Groups → Groups
push_date d e m = if has_date d m then push_existing d e m else insert_vacant d e m

module _ (A : Archive) where
  abbrev pub date_of : StoredEvent → Date
  date_of e = elim (A.date_of_millis e.received_ms) [ none ↦ A.epoch | some d ↦ d ]

  unfoldable pub group_by_date : Groups → List StoredEvent → Groups
  group_by_date m [] = m
  group_by_date m (e ∷ es) = group_by_date (push_date (date_of e) e m) es

  -- The loop over the days. A write that fails leaves the partitions that were written before it.
  unfoldable pub write_groups : ℤ → Groups → A.Files → Result ℕ × A.Files
  write_groups stamp [] f = (ok 0, f)
  write_groups stamp ((d, g) ∷ m) f =
      elim (A.write_partition g (record { date = d; stamp = stamp }) f) [
        | err x ↦ (err x, f)
        | ok f' ↦ (let (r, f'') = write_groups stamp m f' in (r >>= λ n. ok (length g + n), f''))
      ]

  module _ (P : Platform) (J : Json P) where
    pub record World : Type 0 where
      pub db : Db P
      pub files : A.Files

    abbrev pub finish : List (List ℕ) → Db P → Result ℕ × A.Files → Result ℕ × World
    finish keys later (ok n, f) = (ok n, record { db = delete_keys P keys later; files = f })
    finish keys later (err x, f) = (err x, record { db = later; files = f })

    abbrev pub sealed :
        ℤ → (Db P → Db P) → World → Result (List (List ℕ × StoredEvent)) → Result ℕ × World
    sealed stamp meanwhile w (err x) = (err x, record w { db = meanwhile w.db })
    sealed stamp meanwhile w (ok []) = (ok 0, record w { db = meanwhile w.db })
    sealed stamp meanwhile w (ok (p ∷ ps)) =
        finish (map (λ e. e.0) (p ∷ ps)) (meanwhile w.db)
          (write_groups stamp (group_by_date [] (map (λ e. e.1) (p ∷ ps))) w.files)

    -- Reading, writing and deleting are separate transactions: `meanwhile` is what other threads
    -- commit after the read, up to the delete or an earlier return.
    unfoldable pub compact_window : ℤ → ℤ → (Db P → Db P) → World → Result ℕ × World
    compact_window cutoff_ms stamp meanwhile w =
        sealed stamp meanwhile w (events_before_with_keys P J cutoff_ms w.db)
