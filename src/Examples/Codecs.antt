-- ===== src/Examples/Codecs.antt =====
-- An encoding of each stored type that meets the law of `Codec`: fields one after the other, a text
-- behind its length.
pub mod Records
use mathlib.Core.List.{append_assoc, append-nil}
use analytics.Common.{
  ℕ, zero, suc, ℤ, pos, negsuc, ◌≡◌, refl, sym, ap, ◌∙◌, Bool, true, false, Option, none, some,
  List, [], ◌∷◌, ◌++◌, arith, length, Text,
}
use analytics.Platform.{Bytes, Codec}
use analytics.Store.Event.{EventKind, page_load, page_unload, custom, pixel, exception, StoredEvent}
use analytics.Store.Records.{
  Project, Source, SourceKind, website, application, Pixel, ExceptionTriage, LegacyTriage,
}
use analytics.Store.Db.{Json}
use analytics.Examples.Tables.{list_platform}

-- What is written in front of any rest is read back, and the rest is left.
pub record Stream (A : Type 0) : Type 0 where
  pub write : A → Bytes
  pub read : Bytes → Option (A × Bytes)
  pub read-write : (a : A) (rest : Bytes) → read (write a ++ rest) ≡ some (a, rest)

abbrev read_pair : {A B : Type 0} → Stream A → Stream B → Bytes → Option ((A × B) × Bytes)
read_pair sa sb bs = elim (sa.read bs) [
  | none ↦ none
  | some (a, r) ↦ elim (sb.read r) [ none ↦ none | some (b, r') ↦ some ((a, b), r') ]
]

pub read_pair-write :
    {A B : Type 0} (sa : Stream A) (sb : Stream B) (p : A × B) (rest : Bytes)
    → read_pair sa sb ((sa.write p.0 ++ sb.write p.1) ++ rest) ≡ some (p, rest)
read_pair-write sa sb p rest = ground (
  arith,
  append_assoc (sa.write p.0) (sb.write p.1) rest,
  sa.read-write p.0 (sb.write p.1 ++ rest),
  sb.read-write p.1 rest,
)

infixr 40 ◌⊗◌
abbrev pub ◌⊗◌ : {A B : Type 0} → Stream A → Stream B → Stream (A × B)
sa ⊗ sb = record {
  write = λ p. sa.write p.0 ++ sb.write p.1;
  read = read_pair sa sb;
  read-write = read_pair-write sa sb;
}

-- A record by its fields.
module _ {A B : Type 0} (to : A → B) (from : B → A) (from_to : (a : A) → from (to a) ≡ a)
    (s : Stream B) where
  abbrev read_via : Bytes → Option (A × Bytes)
  read_via bs = elim (s.read bs) [ none ↦ none | some (b, r) ↦ some (from b, r) ]

  pub read_via-write : (a : A) (rest : Bytes) → read_via (s.write (to a) ++ rest) ≡ some (a, rest)
  read_via-write a rest = ground (arith, s.read-write (to a) rest, from_to a)

  abbrev pub via : Stream A
  via = record { write = λ a. s.write (to a); read = read_via; read-write = read_via-write }

  abbrev decode_via : Bytes → Option A
  decode_via bs = elim (read_via bs) [ none ↦ none | some (a, r) ↦ some a ]

  pub decode_via_law : (x : A) (b : Bytes) → some (s.write (to x)) ≡ some b → decode_via b ≡ some x
  decode_via_law x b e = ground (arith, read_via-write x [], append-nil (s.write (to x)))

  abbrev pub codec_via : Codec A
  codec_via = record {
    encode = λ a. some (s.write (to a));
    decode = decode_via;
    decode-encode = decode_via_law;
  }

abbrev pub number : Stream ℕ
number = record {
  write = λ n. n ∷ [];
  read = λ bs. elim bs [ [] ↦ none | b ∷ r ↦ some (b, r) ];
  read-write = λ n r. refl;
}

abbrev read_int : Bytes → Option (ℤ × Bytes)
read_int [] = none
read_int (b ∷ []) = none
read_int (zero ∷ n ∷ r) = some (pos n, r)
read_int (suc b ∷ n ∷ r) = some (negsuc n, r)

abbrev write_int : ℤ → Bytes
write_int (pos n) = 0 ∷ n ∷ []
write_int (negsuc n) = 1 ∷ n ∷ []

pub read_int-write : (a : ℤ) (r : Bytes) → read_int (write_int a ++ r) ≡ some (a, r)
read_int-write (pos n) r = refl
read_int-write (negsuc n) r = refl

abbrev pub integer : Stream ℤ
integer = record { write = write_int; read = read_int; read-write = read_int-write }

abbrev write_flag : Bool → Bytes
write_flag false = 0 ∷ []
write_flag true = 1 ∷ []

abbrev read_flag : Bytes → Option (Bool × Bytes)
read_flag [] = none
read_flag (zero ∷ r) = some (false, r)
read_flag (suc b ∷ r) = some (true, r)

pub read_flag-write : (a : Bool) (r : Bytes) → read_flag (write_flag a ++ r) ≡ some (a, r)
read_flag-write false r = refl
read_flag-write true r = refl

abbrev pub flag : Stream Bool
flag = record { write = write_flag; read = read_flag; read-write = read_flag-write }

module _ {A : Type 0} (sa : Stream A) where
  abbrev read_items : ℕ → Bytes → Option (List A × Bytes)
  read_items zero bs = some ([], bs)
  read_items (suc n) bs = elim (sa.read bs) [
    | none ↦ none
    | some (a, r) ↦ elim (read_items n r) [ none ↦ none | some (as', r') ↦ some (a ∷ as', r') ]
  ]

  abbrev read_list : Bytes → Option (List A × Bytes)
  read_list [] = none
  read_list (n ∷ r) = read_items n r

  abbrev write_items : List A → Bytes
  write_items [] = []
  write_items (a ∷ l) = sa.write a ++ write_items l

  pub read_items-write :
      (l : List A) (r : Bytes) → read_items (length l) (write_items l ++ r) ≡ some (l, r)
  read_items-write [] r = refl
  read_items-write (a ∷ l) r = ground (
    arith,
    append_assoc (sa.write a) (write_items l) r,
    sa.read-write a (write_items l ++ r),
    read_items-write l r,
  )

  abbrev pub list : Stream (List A)
  list = record {
    write = λ l. length l ∷ write_items l;
    read = read_list;
    read-write = read_items-write;
  }

  abbrev write_option : Option A → Bytes
  write_option none = 0 ∷ []
  write_option (some a) = 1 ∷ sa.write a

  abbrev read_option : Bytes → Option (Option A × Bytes)
  read_option [] = none
  read_option (zero ∷ r) = some (none, r)
  read_option (suc b ∷ r) = elim (sa.read r) [ none ↦ none | some (a, r') ↦ some (some a, r') ]

  pub read_option-write :
      (o : Option A) (r : Bytes) → read_option (write_option o ++ r) ≡ some (o, r)
  read_option-write none r = refl
  read_option-write (some a) r = ground (arith, sa.read-write a r)

  abbrev pub option : Stream (Option A)
  option = record { write = write_option; read = read_option; read-write = read_option-write }

abbrev pub text : Stream Text
text = list number

abbrev pub texts : Stream (Option Text)
texts = option text

abbrev kind_number : EventKind → ℕ
kind_number page_load = 0
kind_number page_unload = 1
kind_number custom = 2
kind_number pixel = 3
kind_number exception = 4

abbrev number_kind : ℕ → EventKind
number_kind zero = page_load
number_kind (suc zero) = page_unload
number_kind (suc (suc zero)) = custom
number_kind (suc (suc (suc zero))) = pixel
number_kind (suc (suc (suc (suc n)))) = exception

pub number_kind-kind_number : (k : EventKind) → number_kind (kind_number k) ≡ k
number_kind-kind_number page_load = refl
number_kind-kind_number page_unload = refl
number_kind-kind_number custom = refl
number_kind-kind_number pixel = refl
number_kind-kind_number exception = refl

abbrev pub event_kind : Stream EventKind
event_kind = via kind_number number_kind number_kind-kind_number number
