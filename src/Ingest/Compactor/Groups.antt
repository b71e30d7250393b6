-- ===== src/Ingest/Compactor/Groups.antt =====
-- The map `by_date` holds for each day exactly the events of that day, in order.
use mathlib.Core.List.{append-nil, append_assoc}
use analytics.Common.{
  ℕ, ◌+◌, ◌≡◌, refl, sym, ap, ◌∙◌, ◌↔◌, Bool, true, false, Bool-cases, Option, none, some, List, [],
  ◌∷◌, ◌++◌, arith, inl, inr, if◌then◌else◌, keep, length, length-append,
}
use analytics.Store.Event.{StoredEvent}
use analytics.Ingest.Compactor.{
  Date, date_eq, date_lt, Groups, lookup_date, has_date, push_existing, insert_vacant, push_date,
  Archive, date_of, group_by_date,
}

pub date_eq_iff : (a b : Date) → (date_eq a b ≡ true) ↔ (a ≡ b)
date_eq_iff a b = ground arith

-- What pushing adds to a group that may not be there yet.
abbrev pub extended : Option (List StoredEvent) → List StoredEvent → Option (List StoredEvent)
extended none [] = none
extended none (e ∷ es) = some (e ∷ es)
extended (some g) es = some (g ++ es)

lookup-push_existing :
    (d c : Date) (e : StoredEvent) (m : Groups)
    → has_date d m ≡ true
    → lookup_date c (push_existing d e m)
      ≡ (if date_eq d c then extended (lookup_date c m) (e ∷ []) else lookup_date c m)
unfolding push_existing
lookup-push_existing d c e [] h = ground arith
lookup-push_existing d c e ((d', g) ∷ m) h = ground (
  arith,
  lookup-push_existing d c e m,
  date_eq_iff d' d,
  date_eq_iff d c,
  date_eq_iff d' c,
  date_eq_iff c c,
  date_eq_iff d d,
)

lookup-insert_vacant :
    (d c : Date) (e : StoredEvent) (m : Groups)
    → has_date d m ≡ false
    → lookup_date c (insert_vacant d e m) ≡ (if date_eq d c then some (e ∷ []) else lookup_date c m)
unfolding insert_vacant
lookup-insert_vacant d c e [] h = refl
lookup-insert_vacant d c e ((d', g) ∷ m) h =
    ground
      (arith, lookup-insert_vacant d c e m, date_eq_iff d' d, date_eq_iff d c, date_eq_iff d' c)

lookup-push_date :
    (d c : Date) (e : StoredEvent) (m : Groups)
    → lookup_date c (push_date d e m)
      ≡ (if date_eq d c then extended (lookup_date c m) (e ∷ []) else lookup_date c m)
unfolding push_date
lookup-push_date d c e m = elim (Bool-cases (has_date d m)) [
  | inl h ↦ rw h (lookup-push_existing d c e m h)
  | inr h ↦ rw h (new h)
]
  where
    new :
        has_date d m ≡ false
        → lookup_date c (insert_vacant d e m)
          ≡ (if date_eq d c then extended (lookup_date c m) (e ∷ []) else lookup_date c m)
    new h = ground (arith, lookup-insert_vacant d c e m h, date_eq_iff d c)

extended_twice :
    (o : Option (List StoredEvent)) (e : StoredEvent) (es : List StoredEvent)
    → extended (extended o (e ∷ [])) es ≡ extended o (e ∷ es)
extended_twice none e es = refl
extended_twice (some g) e es = ap some (append_assoc g (e ∷ []) es)

module _ (A : Archive) where
  abbrev pub on_day : Date → StoredEvent → Bool
  on_day c e = date_eq (date_of A e) c

  pub lookup-group_by_date :
      (c : Date) (m : Groups) (es : List StoredEvent)
      → lookup_date c (group_by_date A m es) ≡ extended (lookup_date c m) (keep (on_day c) es)
  unfolding group_by_date
  lookup-group_by_date c m [] = extended_nil (lookup_date c m)
    where
      extended_nil : (o : Option (List StoredEvent)) → o ≡ extended o []
      extended_nil none = refl
      extended_nil (some g) = ap some (sym (append-nil g))
  lookup-group_by_date c m (e ∷ es) = step (lookup-group_by_date c (push_date (date_of A e) e m) es)
    where
      step :
          lookup_date c (group_by_date A (push_date (date_of A e) e m) es)
            ≡ extended (lookup_date c (push_date (date_of A e) e m)) (keep (on_day c) es)
          → lookup_date c (group_by_date A (push_date (date_of A e) e m) es)
            ≡ extended (lookup_date c m) (keep (on_day c) (e ∷ es))
      step ih =
          ih
          ∙ rw (lookup-push_date (date_of A e) c e m) (elim (Bool-cases (on_day c e)) [
            | inl h ↦ rw h (extended_twice (lookup_date c m) e (keep (on_day c) es))
            | inr h ↦ rw h
          ])

-- Each day stands in the map once.
abbrev pub IsDistinct : Groups → Type 0
IsDistinct [] = Unit
IsDistinct ((d, g) ∷ m) = (lookup_date d m ≡ none) × IsDistinct m

absent-push_existing :
    (d c : Date) (e : StoredEvent) (m : Groups)
    → lookup_date c m ≡ none
    → lookup_date c (push_existing d e m) ≡ none
unfolding push_existing
absent-push_existing d c e [] h = refl
absent-push_existing d c e ((d', g) ∷ m) h = ground (arith, absent-push_existing d c e m)

push_existing-IsDistinct :
    (d : Date) (e : StoredEvent) (m : Groups) → IsDistinct m → IsDistinct (push_existing d e m)
unfolding push_existing
push_existing-IsDistinct d e [] h = tt
push_existing-IsDistinct d e ((d', g) ∷ m) h =
    ground (arith, push_existing-IsDistinct d e m h.1, absent-push_existing d d' e m h.0)

insert_vacant-IsDistinct :
    (d : Date) (e : StoredEvent) (m : Groups)
    → has_date d m ≡ false
    → IsDistinct m
    → IsDistinct (insert_vacant d e m)
unfolding insert_vacant
insert_vacant-IsDistinct d e [] h k = (refl, tt)
insert_vacant-IsDistinct d e ((d', g) ∷ m) h k = elim (Bool-cases (date_lt d d')) [
  | inl before ↦ rw before (ground arith, k)
  | inr after ↦ rw after (
      let later : has_date d m ≡ false = ground arith in
      (
        ground (arith, lookup-insert_vacant d d' e m, date_eq_iff d d', date_eq_iff d' d),
        insert_vacant-IsDistinct d e m later k.1,
      ))
]

pub push_date-IsDistinct :
    (d : Date) (e : StoredEvent) (m : Groups) → IsDistinct m → IsDistinct (push_date d e m)
unfolding push_date
push_date-IsDistinct d e m h = elim (Bool-cases (has_date d m)) [
  | inl found ↦ rw found (push_existing-IsDistinct d e m h)
  | inr vacant ↦ rw vacant (insert_vacant-IsDistinct d e m vacant h)
]

-- The number of events in all groups.
abbrev pub size : Groups → ℕ
size [] = 0
size ((d, g) ∷ m) = length g + size m

size-push_existing :
    (d : Date) (e : StoredEvent) (m : Groups)
    → has_date d m ≡ true
    → size (push_existing d e m) ≡ size m + 1
unfolding push_existing
size-push_existing d e [] h = cc
size-push_existing d e ((d', g) ∷ m) h =
    ground (arith, size-push_existing d e m, length-append g (e ∷ []))

size-insert_vacant :
    (d : Date) (e : StoredEvent) (m : Groups) → size (insert_vacant d e m) ≡ size m + 1
unfolding insert_vacant
size-insert_vacant d e [] = refl
size-insert_vacant d e ((d', g) ∷ m) = ground (arith, size-insert_vacant d e m)

size-push_date : (d : Date) (e : StoredEvent) (m : Groups) → size (push_date d e m) ≡ size m + 1
unfolding push_date
size-push_date d e m = elim (Bool-cases (has_date d m)) [
  | inl found ↦ rw found (size-push_existing d e m found)
  | inr vacant ↦ rw vacant (size-insert_vacant d e m)
]

module _ (A : Archive) where
  pub group_by_date-IsDistinct :
      (m : Groups) (es : List StoredEvent) → IsDistinct m → IsDistinct (group_by_date A m es)
  unfolding group_by_date
  group_by_date-IsDistinct m [] h = h
  group_by_date-IsDistinct m (e ∷ es) h =
      group_by_date-IsDistinct (push_date (date_of A e) e m) es (push_date-IsDistinct _ e m h)

  pub size-group_by_date :
      (m : Groups) (es : List StoredEvent) → size (group_by_date A m es) ≡ size m + length es
  unfolding group_by_date
  size-group_by_date m [] = omega arith
  size-group_by_date m (e ∷ es) =
      omega (
        arith,
        size-group_by_date (push_date (date_of A e) e m) es,
        size-push_date (date_of A e) e m,
      )
