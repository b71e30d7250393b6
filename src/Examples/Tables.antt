-- ===== src/Examples/Tables.antt =====
-- A table as a list in the order of its keys meets the laws of `Platform`. Instants are numbers of
-- milliseconds.
use analytics.Common.{
  ℕ, ℤ, ◌≡◌, refl, true, false, Bool-cases, none, some, List, [], ◌∷◌, arith, inl, inr, text_eq,
  text_eq_iff, if◌then◌else◌,
}
use analytics.Platform.Order.{lex_lt_trans}
use analytics.Platform.{Bytes, lex_lt, lookup, IsAscending, Platform}

abbrev Entries : Type 0
Entries = List (List ℕ × Bytes)

abbrev pub insert_entry : List ℕ → Bytes → Entries → Entries
insert_entry k v [] = (k, v) ∷ []
insert_entry k v ((j, w) ∷ m) =
    let rest = insert_entry k v m in
    if lex_lt k j then (k, v) ∷ (j, w) ∷ m else if text_eq j k then (k, v) ∷ m else (j, w) ∷ rest

abbrev pub remove_entry : List ℕ → Entries → Entries
remove_entry k [] = []
remove_entry k ((j, w) ∷ m) =
    let rest = remove_entry k m in if text_eq j k then rest else (j, w) ∷ rest

lex_lt_of_not : (a b : List ℕ) → lex_lt a b ≡ false → text_eq b a ≡ false → lex_lt b a ≡ true
unfolding lex_lt text_eq
lex_lt_of_not [] [] h k = cc
lex_lt_of_not [] (y ∷ b) h k = cc
lex_lt_of_not (x ∷ a) [] h k = refl
lex_lt_of_not (x ∷ a) (y ∷ b) h k = ground (arith, lex_lt_of_not a b)

pub lookup-insert_entry :
    (k j : List ℕ) (v : Bytes) (t : Entries)
    → lookup j (insert_entry k v t) ≡ (if text_eq k j then some v else lookup j t)
lookup-insert_entry k j v [] = refl
lookup-insert_entry k j v ((i, w) ∷ t) =
    ground (arith, lookup-insert_entry k j v t, text_eq_iff i k, text_eq_iff i j, text_eq_iff k j)

pub lookup-remove_entry :
    (k j : List ℕ) (t : Entries)
    → lookup j (remove_entry k t) ≡ (if text_eq k j then none else lookup j t)
lookup-remove_entry k j [] = ground arith
lookup-remove_entry k j ((i, w) ∷ t) =
    ground (arith, lookup-remove_entry k j t, text_eq_iff i k, text_eq_iff i j, text_eq_iff k j)

-- All keys are above `k`.
abbrev Above : List ℕ → Entries → Type 0
Above k [] = Unit
Above k ((j, w) ∷ m) = (lex_lt k j ≡ true) × Above k m

-- The ascending order with every pair of keys compared.
abbrev IsSorted : Entries → Type 0
IsSorted [] = Unit
IsSorted ((k, v) ∷ m) = Above k m × IsSorted m

Above-trans : (j k : List ℕ) (m : Entries) → lex_lt j k ≡ true → Above k m → Above j m
Above-trans j k [] h a = tt
Above-trans j k ((i, w) ∷ m) h a = (lex_lt_trans j k i h a.0, Above-trans j k m h a.1)

Above-insert :
    (j k : List ℕ) (v : Bytes) (m : Entries)
    → lex_lt j k ≡ true
    → Above j m
    → Above j (insert_entry k v m)
Above-insert j k v [] h a = (h, tt)
Above-insert j k v ((i, w) ∷ m) h a = elim (Bool-cases (lex_lt k i)) [
  | inl lt ↦ rw lt (h, a)
  | inr ge ↦ elim (Bool-cases (text_eq i k)) [
    | inl same ↦ rw (ge, same) (h, a.1)
    | inr other ↦ rw (ge, other) (a.0, Above-insert j k v m h a.1)
  ]
]

pub insert_entry-IsSorted :
    (k : List ℕ) (v : Bytes) (m : Entries) → IsSorted m → IsSorted (insert_entry k v m)
insert_entry-IsSorted k v [] s = (tt, tt)
insert_entry-IsSorted k v ((i, w) ∷ m) s = elim (Bool-cases (lex_lt k i)) [
  | inl lt ↦ rw lt ((lt, Above-trans k i m lt s.0), s)
  | inr ge ↦ elim (Bool-cases (text_eq i k)) [
    | inl same ↦ rw (ge, same) (rw ((text_eq_iff i k).0 same) at s)
    | inr other ↦
        rw (ge, other)
          (Above-insert i k v m (lex_lt_of_not k i ge other) s.0, insert_entry-IsSorted k v m s.1)
  ]
]

Above-remove : (j k : List ℕ) (m : Entries) → Above j m → Above j (remove_entry k m)
Above-remove j k [] a = tt
Above-remove j k ((i, w) ∷ m) a = elim (Bool-cases (text_eq i k)) [
  | inl same ↦ rw same (Above-remove j k m a.1)
  | inr other ↦ rw other (a.0, Above-remove j k m a.1)
]

pub remove_entry-IsSorted : (k : List ℕ) (m : Entries) → IsSorted m → IsSorted (remove_entry k m)
remove_entry-IsSorted k [] s = tt
remove_entry-IsSorted k ((i, w) ∷ m) s = elim (Bool-cases (text_eq i k)) [
  | inl same ↦ rw same (remove_entry-IsSorted k m s.1)
  | inr other ↦ rw other (Above-remove i k m s.0, remove_entry-IsSorted k m s.1)
]

pub IsAscending-of_IsSorted : (m : Entries) → IsSorted m → IsAscending m
IsAscending-of_IsSorted [] s = tt
IsAscending-of_IsSorted ((k, v) ∷ []) s = tt
IsAscending-of_IsSorted ((k, v) ∷ (j, w) ∷ m) s = (s.0.0, IsAscending-of_IsSorted ((j, w) ∷ m) s.1)

abbrev SortedTable : Type 0
SortedTable = (m : Entries) × IsSorted m

abbrev pub list_platform : Platform
list_platform = record {
  Table = SortedTable;
  empty = ([], tt);
  get = λ t k. lookup k t.0;
  insert = λ k v t. (insert_entry k v t.0, insert_entry-IsSorted k v t.0 t.1);
  remove = λ k t. (remove_entry k t.0, remove_entry-IsSorted k t.0 t.1);
  iter = λ t. t.0;
  get-empty = λ k. refl;
  get-insert = λ k j v t. lookup-insert_entry k j v t.0;
  get-remove = λ k j t. lookup-remove_entry k j t.0;
  get-iter = λ t k. refl;
  iter-IsAscending = λ t. IsAscending-of_IsSorted t.0 t.1;
  DateTime = ℤ;
  timestamp_millis = λ t. t;
}
