-- ===== src/Store/Rewrite.antt =====
-- The pattern of the bulk updates of agent/src/store: scan a table, decode each value, collect the
-- changes, and then write them back (entities.rs, schema.rs, regroup.rs).
pub mod Laws
use analytics.Common.{ℕ, Bool, true, false, Option, none, some, List, [], ◌∷◌, if◌then◌else◌}
use analytics.Platform.{Bytes, Platform}
use analytics.Store.Db.{Result, ok, err, ◌>>=◌, or_system_err}

module _ {A : Type 0} (decode : Bytes → Option A) where
  -- What the loop pushes for one entry: `ok none` is `continue`.
  abbrev pub pushed : List ℕ → Option Bytes → List (List ℕ × Bytes) → List (List ℕ × Bytes)
  pushed k none rest = rest
  pushed k (some bytes) rest = (k, bytes) ∷ rest

  unfoldable pub collect :
      (A → Result (Option Bytes)) → List (List ℕ × Bytes) → Result (List (List ℕ × Bytes))
  collect f [] = ok []
  collect f ((k, b) ∷ m) = do
    a ← or_system_err (decode b)
    o ← f a
    rest ← collect f m
    ok (pushed k o rest)

  -- The keys of the entries that a test selects.
  unfoldable pub select_keys : (A → Bool) → List (List ℕ × Bytes) → Result (List (List ℕ))
  select_keys p [] = ok []
  select_keys p ((k, b) ∷ m) = do
    a ← or_system_err (decode b)
    rest ← select_keys p m
    ok (if p a then k ∷ rest else rest)

module _ (P : Platform) where
  unfoldable pub insert_all : List (List ℕ × Bytes) → P.Table → P.Table
  insert_all [] t = t
  insert_all ((k, b) ∷ m) t = insert_all m (P.insert k b t)
