-- ===== src/Store/Db.antt =====
-- agent/src/store/mod.rs and json.rs: the database, opening it, and the generic access by key.
-- A transaction that fails is dropped, so an error leaves the database as it was: a result is
-- either an error or the new database. Faults of the disk below redb are not modelled.
use analytics.Common.{
  ℕ, Bool, true, false, Option, none, some, List, [], ◌∷◌, ◌≡◌, refl, ◌⊎◌, inl, inr, Text, codes,
}
use analytics.Platform.{Bytes, Platform, Codec}
use analytics.Store.Keys.{u64_from_be}
use analytics.Store.Event.{StoredEvent}
use analytics.Store.Records.{Project, Source, Pixel, ExceptionTriage, LegacyTriage}

-- `storage` is `or_system_err`; the other two are raised by schema.rs.
pub data Error : Type 0 where
  storage : Error
  newer_schema : ℕ → Error
  no_migration : ℕ → Error

pub data Result {ℓ} (A : Type ℓ) : Type ℓ where
  ok : A → Result A
  err : Error → Result A

infixl 5 ◌>>=◌
abbrev pub ◌>>=◌ {ℓ κ} : {A : Type ℓ} {B : Type κ} → Result A → (A → Result B) → Result B
ok a >>= f = f a
err e >>= f = err e

-- `or_system_err` on an encoding or a decoding
abbrev pub or_system_err {ℓ} : {A : Type ℓ} → Option A → Result A
or_system_err none = err storage
or_system_err (some a) = ok a

pub Result-cases {ℓ} :
    {A : Type ℓ} (r : Result A) → ((e : Error) × (r ≡ err e)) ⊎ ((a : A) × (r ≡ ok a))
Result-cases (ok a) = inr (a, refl)
Result-cases (err e) = inl (e, refl)

-- A successful chain has a successful first step.
pub bind-eq-ok {ℓ κ} :
    {A : Type ℓ} {B : Type κ} (m : Result A) (f : A → Result B) (b : B)
    → (m >>= f) ≡ ok b
    → (a : A) × (m ≡ ok a) × (f a ≡ ok b)
bind-eq-ok (ok a) f b h = (a, refl, h)
bind-eq-ok (err e) f b h = cc

pub or_system_err-eq-ok {ℓ} :
    {A : Type ℓ} (o : Option A) (a : A) → or_system_err o ≡ ok a → o ≡ some a
or_system_err-eq-ok none a h = cc
or_system_err-eq-ok (some b) a h = cc

pub ok-injective {ℓ} : {A : Type ℓ} (a b : A) → ◌≡◌ {A = Result A} (ok a) (ok b) → a ≡ b
ok-injective a b h = cc

-- The encodings of the stored types.
pub record Json (P : Platform) : Type 0 where
  pub event : Codec StoredEvent
  pub project : Codec (Project P.DateTime)
  pub source : Codec (Source P.DateTime)
  pub pixel : Codec (Pixel P.DateTime)
  pub triage : Codec (ExceptionTriage P.DateTime)
  pub legacy_triage : Bytes → Option (LegacyTriage P.DateTime)

pub record Db (P : Platform) : Type 0 where
  pub events : P.Table
  pub projects : P.Table
  pub sources : P.Table
  pub pixels : P.Table
  pub exception_triage : P.Table
  pub meta : P.Table

-- `Store`: the database and the counter that is shared by all callers.
pub record Store (P : Platform) : Type 0 where
  pub db : Db P
  pub next_seq : ℕ

abbrev pub meta_next_seq : Text
meta_next_seq = codes "next_seq"

abbrev pub meta_schema_version : Text
meta_schema_version = codes "schema_version"

abbrev pub meta_fingerprint_version : Text
meta_fingerprint_version = codes "fingerprint_version"

-- Decodes each entry of a scan; the first that is corrupt fails the whole scan.
unfoldable pub decode_all {ℓ} :
    {A : Type ℓ} → (Bytes → Option A) → List (List ℕ × Bytes) → Result (List (List ℕ × A))
decode_all d [] = ok []
decode_all d ((k, b) ∷ m) = do a ← or_system_err (d b); rest ← decode_all d m; ok ((k, a) ∷ rest)

module _ (P : Platform) where
  -- `read_next_seq`
  unfoldable pub read_next_seq : Db P → ℕ
  read_next_seq db = elim (P.get db.meta meta_next_seq) [ none ↦ 0 | some v ↦ u64_from_be v ]

  module _ {T : Type 0} (c : Codec T) where
    unfoldable pub put_json : Text → T → P.Table → Result P.Table
    put_json key value t = do bytes ← or_system_err (c.encode value); ok (P.insert key bytes t)

    unfoldable pub get_json : Text → P.Table → Result (Option T)
    get_json key t = elim (P.get t key) [
      | none ↦ ok none
      | some b ↦ (do v ← or_system_err (c.decode b); ok (some v))
    ]

    unfoldable pub list_json : P.Table → Result (List T)
    unfolding decode_all
    list_json t = do
      entries ← decode_all c.decode (P.iter t)
      ok (mathlib.Core.List.map (λ e. e.1) entries)

    -- Read, change and write back in one transaction; nothing is written where the key is absent.
    unfoldable pub mutate_json : Text → (T → T) → P.Table → Result (Option T × P.Table)
    mutate_json key f t = elim (P.get t key) [
      | none ↦ ok (none, t)
      | some b ↦ (do
        v ← or_system_err (c.decode b)
        bytes ← or_system_err (c.encode (f v))
        ok (some (f v), P.insert key bytes t))
    ]

  -- Whether the key was there.
  unfoldable pub delete_key : Text → P.Table → Bool × P.Table
  delete_key key t = (elim (P.get t key) [ none ↦ false | some _ ↦ true ], P.remove key t)
