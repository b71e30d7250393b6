-- ===== src/Ui/FilterSet/Terms.antt =====
-- The terms of a filter state: at most one for each dimension, and what the operations do to them.
use analytics.Common.{
  Bool, true, false, not, Option, none, some, List, [], ◌∷◌, ◌++◌, Text, text_eq, if◌then◌else◌,
  ◌≡◌, refl, sym, ap, ◌∙◌, eq_of_text_eq, text_eq_refl, Bool-cases, inl, inr, arith, is_empty, trim,
  codes, ℤ, ltb_ℤ,
}
use analytics.Ui.Dims.{Dim, param, same_dim, from_param_iff}
use analytics.Filter.{FilterNode}
use analytics.Ui.Times.{TimeRange, RangePreset, preset, custom, from_token}
use analytics.Ui.Printer.{Crate, Piece, term, advanced, decompose}
use analytics.Ui.Query.{
  Query, parse, query_of, add_pieces, retain_others, replace_term, empty_query,
}
use analytics.Ui.FilterSet.{
  FilterSet, Reading, find_term, get, with_term, without, without_advanced, with_query, with_range,
  of_pairs, read_pairs, read_pair, default_set, set_range, custom_range,
}

pub same_dim_refl : (d : Dim) → same_dim d d ≡ true
unfolding same_dim
same_dim_refl d = text_eq_refl (param d)

eq_of_same_dim : (d e : Dim) → same_dim d e ≡ true → d ≡ e
unfolding same_dim
eq_of_same_dim d e h =
    let p = (from_param_iff (param d) d).1 refl in
    let q = (from_param_iff (param d) e).1 (eq_of_text_eq _ _ h) in cc

pub same_dim_sym : (d e : Dim) → same_dim d e ≡ same_dim e d
same_dim_sym d e = elim (Bool-cases (same_dim d e)) [
  | inl h ↦
      ap (λ x. same_dim d x) (sym (eq_of_same_dim d e h))
      ∙ ap (λ x. same_dim x d) (eq_of_same_dim d e h)
  | inr h ↦ elim (Bool-cases (same_dim e d)) [
    | inl k ↦
        ap (λ x. same_dim x e) (sym (eq_of_same_dim e d k))
        ∙ ap (λ x. same_dim e x) (eq_of_same_dim e d k)
    | inr k ↦ h ∙ sym k
  ]
]

-- No dimension has two terms.
abbrev pub OneEach : List (Dim × Text) → Type 0
OneEach [] = Unit
OneEach ((d, v) ∷ rest) = (find_term d rest ≡ none) × OneEach rest

if_same : (b : Bool) (o : Option Text) → o ≡ (if b then o else o)
if_same true o = refl
if_same false o = refl

absent_stays :
    (b c : Bool) (w o f : Option Text)
    → c ≡ b
    → f ≡ (if b then none else o)
    → f ≡ (if b then none else if c then w else o)
absent_stays true c w o f h k = k
absent_stays false c w o f h k = rw h k

other_stays :
    (b c : Bool) (w o f : Option Text)
    → (b ≡ true → c ≡ false)
    → f ≡ (if b then none else o)
    → (if c then w else f) ≡ (if b then none else if c then w else o)
other_stays true c w o f h k = rw (h refl) k
other_stays false true w o f h k = refl
other_stays false false w o f h k = k

find_term-retain_others :
    (d e : Dim) (ts : List (Dim × Text))
    → find_term e (retain_others d ts) ≡ (if same_dim d e then none else find_term e ts)
unfolding find_term retain_others
find_term-retain_others d e [] = if_same (same_dim d e) none
find_term-retain_others d e ((x, v) ∷ ts) = go (same_dim x d) refl (find_term-retain_others d e ts)
  where
    go :
        (b : Bool)
        → same_dim x d ≡ b
        → find_term e (retain_others d ts) ≡ (if same_dim d e then none else find_term e ts)
        → find_term e (if not b then (x, v) ∷ retain_others d ts else retain_others d ts)
          ≡ (if same_dim d e then none else if same_dim x e then some v else find_term e ts)
    go true h ih =
        absent_stays (same_dim d e) (same_dim x e) (some v) _ _
          (ap (λ y. same_dim y e) (eq_of_same_dim x d h)) ih
    go false h ih =
        other_stays (same_dim d e) (same_dim x e) (some v) _ _
          (λ k. ap (λ y. same_dim x y) (sym (eq_of_same_dim d e k)) ∙ h) ih

find_term-append :
    (e : Dim) (ts us : List (Dim × Text))
    → find_term e ts ≡ none
    → find_term e (ts ++ us) ≡ find_term e us
unfolding find_term
find_term-append e [] us h = refl
find_term-append e ((x, v) ∷ ts) us h = elim (Bool-cases (same_dim x e)) [
  | inl k ↦ absurd (ground arith)
  | inr k ↦ rw k (find_term-append e ts us (rw k at h))
]

pub find_term-append_one :
    (e d : Dim) (v : Text) (ts : List (Dim × Text))
    → same_dim d e ≡ false
    → find_term e (ts ++ (d, v) ∷ []) ≡ find_term e ts
unfolding find_term
find_term-append_one e d v [] h = rw h
find_term-append_one e d v ((x, w) ∷ ts) h =
    ap (λ o. if same_dim x e then some w else o) (find_term-append_one e d v ts h)

-- Looking a dimension up after a term was set, and after one was removed.
find_term-replace_term :
    (d e : Dim) (v : Text) (ts : List (Dim × Text))
    → find_term e (replace_term d v ts) ≡ (if same_dim d e then some v else find_term e ts)
unfolding replace_term find_term
find_term-replace_term d e v ts = elim (Bool-cases (same_dim d e)) [
  | inl k ↦ rw k (
      find_term-append e (retain_others d ts) ((d, v) ∷ [])
        (find_term-retain_others d e ts ∙ rw k refl)
      ∙ rw k refl)
  | inr k ↦ rw k (
      find_term-append_one e d v (retain_others d ts) k
      ∙ find_term-retain_others d e ts
      ∙ rw k refl)
]

OneEach-retain_others :
    (d : Dim) (ts : List (Dim × Text)) → OneEach ts → OneEach (retain_others d ts)
unfolding retain_others
OneEach-retain_others d [] h = tt
OneEach-retain_others d ((x, v) ∷ ts) (h, hs) = go (same_dim x d) (OneEach-retain_others d ts hs)
  where
    go :
        (b : Bool)
        → OneEach (retain_others d ts)
        → OneEach (if not b then (x, v) ∷ retain_others d ts else retain_others d ts)
    go true k = k
    go false k = (find_term-retain_others d x ts ∙ rw h (sym (if_same (same_dim d x) none)), k)

OneEach-append_one :
    (d : Dim) (v : Text) (ts : List (Dim × Text))
    → OneEach ts
    → find_term d ts ≡ none
    → OneEach (ts ++ (d, v) ∷ [])
unfolding find_term
OneEach-append_one d v [] h k = (refl, tt)
OneEach-append_one d v ((x, w) ∷ ts) (h, hs) k = elim (Bool-cases (same_dim x d)) [
  | inl e ↦ absurd (ground arith)
  | inr e ↦ (
    find_term-append_one x d v ts (same_dim_sym d x ∙ e) ∙ h,
    OneEach-append_one d v ts hs (rw e at k),
  )
]

pub OneEach-replace_term :
    (d : Dim) (v : Text) (ts : List (Dim × Text)) → OneEach ts → OneEach (replace_term d v ts)
unfolding replace_term
OneEach-replace_term d v ts h =
    OneEach-append_one d v (retain_others d ts) (OneEach-retain_others d ts h)
      (find_term-retain_others d d ts ∙ rw (same_dim_refl d) refl)

OneEach-add_pieces :
    (ps : List Piece) (ts : List (Dim × Text)) (texts : List Text)
    → OneEach ts
    → OneEach (query_of (add_pieces ps ts texts)).terms
unfolding add_pieces
OneEach-add_pieces [] ts texts h = h
OneEach-add_pieces (term d v ∷ ps) ts texts h =
    OneEach-add_pieces ps (replace_term d v ts) texts (OneEach-replace_term d v ts h)
OneEach-add_pieces (advanced a ∷ ps) ts texts h = OneEach-add_pieces ps ts (texts ++ a ∷ []) h

-- Setting a term of a filter state is seen at its dimension and at no other one; removing one leaves
-- its dimension without a term and the others as they were.
pub get-with_term :
    (d e : Dim) (v : Text) (s : FilterSet)
    → (get e (with_term d v s) ≡ (if same_dim d e then some v else get e s))
      × (get e (without d s) ≡ (if same_dim d e then none else get e s))
unfolding get with_term without
get-with_term d e v s =
    (find_term-replace_term d e v s.query.terms, find_term-retain_others d e s.query.terms)

module _ (F : Crate) where
  OneEach-parse : (expression : Text) → OneEach (parse F expression).terms
  unfolding parse
  OneEach-parse expression = go (is_empty (trim expression)) (F.parse (trim expression))
    where
      go :
          (b : Bool) (o : Option FilterNode)
          → OneEach
              (if b then empty_query else elim o as (λ _. Query) [
                | none ↦ record { terms = []; advanced = some (trim expression) }
                | some tree ↦ query_of (add_pieces (decompose F tree) [] [])
              ]).terms
      go true o = tt
      go false none = tt
      go false (some tree) = OneEach-add_pieces (decompose F tree) [] [] tt

  abbrev HasOneEach : FilterSet → Type 0
  HasOneEach s = OneEach s.query.terms

  if-HasOneEach :
      (b : Bool) (x y : Reading)
      → HasOneEach x.set
      → HasOneEach y.set
      → HasOneEach (if b then x else y).set
  if-HasOneEach true x y h k = h
  if-HasOneEach false x y h k = k

  set_range-HasOneEach : (s : FilterSet) (v : Text) → HasOneEach s → HasOneEach (set_range s v)
  set_range-HasOneEach s v h = go (from_token v)
    where
      go :
          (o : Option RangePreset)
          → HasOneEach
              (elim o as (λ _. FilterSet) [ none ↦ s | some p ↦ record s { range = preset p } ])
      go none = h
      go (some p) = h

  read_pairs-HasOneEach :
      (ps : List (Text × Text)) (r : Reading)
      → HasOneEach r.set
      → HasOneEach (read_pairs F ps r).set
  unfolding read_pairs read_pair
  read_pairs-HasOneEach [] r h = h
  read_pairs-HasOneEach ((key, v) ∷ ps) r h = read_pairs-HasOneEach ps _ (
      if-HasOneEach (text_eq key (codes "range")) _ _ (set_range-HasOneEach r.set v h) (
        if-HasOneEach (text_eq key (codes "from")) _ _ h (
          if-HasOneEach (text_eq key (codes "to")) _ _ h
            (if-HasOneEach (text_eq key (codes "q")) _ _ (OneEach-parse v) h))))

  custom_range-HasOneEach :
      (a b : Option ℤ) (s : FilterSet) → HasOneEach s → HasOneEach (custom_range a b s)
  custom_range-HasOneEach none b s h = h
  custom_range-HasOneEach (some a) none s h = h
  custom_range-HasOneEach (some a) (some b) s h = go (ltb_ℤ a b)
    where
      go : (x : Bool) → HasOneEach (if x then record s { range = custom a b } else s)
      go true = h
      go false = h

  -- What a user does with a view: open its URL, or replace its state by an edited one.
  pub data Reached : FilterSet → Type 0 where
    opened : (pairs : List (Text × Text)) → Reached (of_pairs F pairs)
    set_term : {s : FilterSet} (d : Dim) (v : Text) → Reached s → Reached (with_term d v s)
    removed : {s : FilterSet} (d : Dim) → Reached s → Reached (without d s)
    cleared : {s : FilterSet} → Reached s → Reached (without_advanced s)
    typed :
        {s : FilterSet} (expression : Text)
        → Reached s
        → Reached (with_query (parse F expression) s)
    ranged : {s : FilterSet} (range : TimeRange) → Reached s → Reached (with_range range s)

  -- However a state of the filters was reached, no dimension has two terms.
  pub reached-OneEach : (s : FilterSet) → Reached s → OneEach s.query.terms
  unfolding of_pairs with_term without without_advanced with_query with_range
  reached-OneEach s (opened pairs) =
      let start : Reading = record { set = default_set; from = none; to = none } in
      let r = read_pairs F pairs start in
      custom_range-HasOneEach r.from r.to r.set (read_pairs-HasOneEach pairs start tt)
  reached-OneEach s (set_term d v h) = OneEach-replace_term d v _ (reached-OneEach _ h)
  reached-OneEach s (removed d h) = OneEach-retain_others d _ (reached-OneEach _ h)
  reached-OneEach s (cleared h) = reached-OneEach _ h
  reached-OneEach s (typed expression h) = OneEach-parse expression
  reached-OneEach s (ranged range h) = reached-OneEach _ h
