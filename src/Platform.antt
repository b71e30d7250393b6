-- ===== src/Platform.antt =====
-- What the agent takes from crates that are not in the repository: redb's tables, chrono's
-- instants and serde_json's encoding. Each is an interface with the documented laws.
pub mod Order
use analytics.Common.{
  ℕ, ℤ, Bool, true, false, Option, none, some, List, [], ◌∷◌, ◌≡◌, text_eq, ltb, ◌==◌,
  if◌then◌else◌, ◌||◌, ◌&&◌,
}

abbrev pub Bytes : Type 0
Bytes = List ℕ

-- The order of keys in a redb table: byte by byte, a prefix first. (On `&str` keys the order of the
-- code points is that of their UTF-8 bytes.)
unfoldable pub lex_lt : List ℕ → List ℕ → Bool
lex_lt [] [] = false
lex_lt [] (_ ∷ _) = true
lex_lt (_ ∷ _) [] = false
lex_lt (a ∷ s) (b ∷ t) = ltb a b || (a == b && lex_lt s t)

abbrev pub lookup {ℓ} : {V : Type ℓ} → List ℕ → List (List ℕ × V) → Option V
lookup k [] = none
lookup k ((j, v) ∷ m) = if text_eq j k then some v else lookup k m

-- Every key is below all later ones.
abbrev pub IsAscending {ℓ} : {V : Type ℓ} → List (List ℕ × V) → Type 0
IsAscending [] = Unit
IsAscending ((k, v) ∷ []) = Unit
IsAscending ((k, v) ∷ (j, w) ∷ m) = (lex_lt k j ≡ true) × IsAscending ((j, w) ∷ m)

pub record Platform : Type 1 where
  -- redb: one table inside a transaction
  pub Table : Type 0
  pub empty : Table
  pub get : Table → List ℕ → Option Bytes
  pub insert : List ℕ → Bytes → Table → Table
  pub remove : List ℕ → Table → Table
  pub iter : Table → List (List ℕ × Bytes)
  pub get-empty : (k : List ℕ) → get empty k ≡ none
  pub get-insert :
      (k j : List ℕ) (v : Bytes) (t : Table)
      → get (insert k v t) j ≡ (if text_eq k j then some v else get t j)
  pub get-remove :
      (k j : List ℕ) (t : Table) → get (remove k t) j ≡ (if text_eq k j then none else get t j)
  pub get-iter : (t : Table) (k : List ℕ) → lookup k (iter t) ≡ get t k
  pub iter-IsAscending : (t : Table) → IsAscending (iter t)
  -- chrono: `DateTime<Utc>` and `timestamp_millis`
  pub DateTime : Type 0
  pub timestamp_millis : DateTime → ℤ

-- serde_json: what `to_vec` writes, `from_slice` reads back.
pub record Codec (T : Type 0) : Type 0 where
  pub encode : T → Option Bytes
  pub decode : Bytes → Option T
  pub decode-encode : (x : T) (b : Bytes) → encode x ≡ some b → decode b ≡ some x
