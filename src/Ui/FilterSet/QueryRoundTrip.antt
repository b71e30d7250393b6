-- ===== src/Ui/FilterSet/QueryRoundTrip.antt =====
-- A query that is all terms reads back from its expression.
use analytics.Common.{
  ℕ, Bool, true, false, not, Option, none, some, List, [], ◌∷◌, ◌++◌, map, Text, codes, join, trim,
  trim_start_by, trim_end_by, is_whitespace, is_empty, if◌then◌else◌, ◌≡◌, ◌≢◌, refl, sym, ap, ◌∙◌,
  subst, Bool-cases, inl, inr, arith, to_ascii_lowercase,
}
use mathlib.Core.List.{append_assoc, append-nil}
use analytics.Filter.{FilterNode, equals, and_op, literal, property, string, binary, logical}
use analytics.Ui.Dims.{
  Dim, param, same_dim, from_param, from_param_iff, project, source, path, referrer, country,
  language, browser, version, os, device, utm_source, utm_medium, utm_campaign, app_version,
  event_name,
}
use analytics.Ui.Printer.{Crate, Piece, term, decompose, quote, escape, piece_of, with_value, print}
use analytics.Ui.FilterSet.{find_term}
use analytics.Ui.FilterSet.Terms.{OneEach, same_dim_sym}
use analytics.Ui.Query.{
  Query, to_expression, parse, query_of, add_pieces, retain_others, replace_term, term_text,
}

-- The trees that spell a conjunction of terms, however the conjuncts are grouped.
pub data Spells : FilterNode → List (Dim × Text) → Type 0 where
  one :
      (d : Dim) (v : Text)
      → Spells (binary (property (param d)) equals (literal (string v))) ((d, v) ∷ [])
  both :
      {l r : FilterNode} {ts us : List (Dim × Text)}
      → Spells l ts
      → Spells r us
      → Spells (logical l and_op r) (ts ++ us)

abbrev piece : Dim × Text → Piece
piece (d, v) = term d v

pub to_ascii_lowercase-param : (d : Dim) → to_ascii_lowercase (param d) ≡ param d
unfolding param
to_ascii_lowercase-param project = refl
to_ascii_lowercase-param source = refl
to_ascii_lowercase-param path = refl
to_ascii_lowercase-param referrer = refl
to_ascii_lowercase-param country = refl
to_ascii_lowercase-param language = refl
to_ascii_lowercase-param browser = refl
to_ascii_lowercase-param version = refl
to_ascii_lowercase-param os = refl
to_ascii_lowercase-param device = refl
to_ascii_lowercase-param utm_source = refl
to_ascii_lowercase-param utm_medium = refl
to_ascii_lowercase-param utm_campaign = refl
to_ascii_lowercase-param app_version = refl
to_ascii_lowercase-param event_name = refl

from_param-lowercase : (d : Dim) → from_param (to_ascii_lowercase (param d)) ≡ some d
from_param-lowercase d =
    (from_param_iff (to_ascii_lowercase (param d)) d).1 (to_ascii_lowercase-param d)

map-append : (ts us : List (Dim × Text)) → map piece (ts ++ us) ≡ map piece ts ++ map piece us
map-append [] us = refl
map-append (t ∷ ts) us = ap (λ xs. piece t ∷ xs) (map-append ts us)

decompose-Spells :
    (F : Crate) (e : FilterNode) (ts : List (Dim × Text))
    → Spells e ts
    → decompose F e ≡ map piece ts
unfolding decompose
decompose-Spells F _ _ (one d v) =
    ap
      (λ o.
        piece_of (with_value o v)
          (print F (binary (property (param d)) equals (literal (string v))))
        ∷ [])
      (from_param-lowercase d)
decompose-Spells F _ _ (both {l} {r} {ts} {us} h k) =
    rw (decompose-Spells F l ts h, decompose-Spells F r us k) (sym (map-append ts us))

find_term-later :
    (x d : Dim) (v : Text) (acc ts : List (Dim × Text))
    → find_term x (acc ++ (d, v) ∷ ts) ≡ none
    → same_dim d x ≡ false
unfolding find_term
find_term-later x d v [] ts h = ground arith
find_term-later x d v ((y, w) ∷ acc) ts h = elim (Bool-cases (same_dim y x)) [
  | inl k ↦ absurd (ground arith)
  | inr k ↦ find_term-later x d v acc ts (rw k at h)
]

-- A term of a new dimension replaces none.
retain_others-new :
    (d : Dim) (v : Text) (acc ts : List (Dim × Text))
    → OneEach (acc ++ (d, v) ∷ ts)
    → retain_others d acc ≡ acc
unfolding retain_others
retain_others-new d v [] ts h = refl
retain_others-new d v ((x, w) ∷ acc) ts (h, hs) =
    kept (same_dim x d) (same_dim_sym x d ∙ find_term-later x d v acc ts h)
      (retain_others-new d v acc ts hs)
  where
    kept :
        (b : Bool)
        → b ≡ false
        → retain_others d acc ≡ acc
        → (if not b then (x, w) ∷ retain_others d acc else retain_others d acc) ≡ (x, w) ∷ acc
    kept true k ih = cc
    kept false k ih = ap (λ xs. (x, w) ∷ xs) ih

add_pieces-terms :
    (ts acc : List (Dim × Text)) (texts : List Text)
    → OneEach (acc ++ ts)
    → add_pieces (map piece ts) acc texts ≡ (acc ++ ts, texts)
unfolding add_pieces replace_term
add_pieces-terms [] acc texts h = ap (λ xs. (xs, texts)) (sym (append-nil acc))
add_pieces-terms ((d, v) ∷ ts) acc texts h =
    ap (λ xs. add_pieces (map piece ts) (xs ++ (d, v) ∷ []) texts) (retain_others-new d v acc ts h)
    ∙ add_pieces-terms ts (acc ++ (d, v) ∷ []) texts
        (subst OneEach (sym (append_assoc acc ((d, v) ∷ []) ts)) h)
    ∙ ap (λ xs. (xs, texts)) (append_assoc acc ((d, v) ∷ []) ts)

-- The expression begins with a letter and ends with a quotation mark, so trimming keeps it.
param-head : (d : Dim) → (c : ℕ) × (s : Text) × (param d ≡ c ∷ s) × (is_whitespace c ≡ false)
unfolding param
param-head project = (b'p', _, refl, refl)
param-head source = (b's', _, refl, refl)
param-head path = (b'p', _, refl, refl)
param-head referrer = (b'r', _, refl, refl)
param-head country = (b'c', _, refl, refl)
param-head language = (b'l', _, refl, refl)
param-head browser = (b'b', _, refl, refl)
param-head version = (b'v', _, refl, refl)
param-head os = (b'o', _, refl, refl)
param-head device = (b'd', _, refl, refl)
param-head utm_source = (b'u', _, refl, refl)
param-head utm_medium = (b'u', _, refl, refl)
param-head utm_campaign = (b'u', _, refl, refl)
param-head app_version = (b'a', _, refl, refl)
param-head event_name = (b'e', _, refl, refl)

snoc-ne-nil : (s : Text) (c : ℕ) → s ++ c ∷ [] ≢ []
snoc-ne-nil [] c h = cc
snoc-ne-nil (d ∷ s) c h = cc

trim_end_by-last :
    (s : Text) (c : ℕ)
    → is_whitespace c ≡ false
    → trim_end_by is_whitespace (s ++ c ∷ []) ≡ s ++ c ∷ []
unfolding trim_end_by
trim_end_by-last [] c h = last (is_whitespace c) h
  where
    last : (b : Bool) → b ≡ false → (if b then [] else c ∷ []) ≡ c ∷ []
    last true k = cc
    last false k = refl
trim_end_by-last (d ∷ s) c h =
    kept (trim_end_by is_whitespace (s ++ c ∷ [])) (s ++ c ∷ []) (trim_end_by-last s c h)
      (snoc-ne-nil s c)
  where
    kept :
        (u t : Text)
        → u ≡ t
        → t ≢ []
        → (elim u as (λ _. Text) [
          | [] ↦ if is_whitespace d then [] else d ∷ []
          | e ∷ r ↦ d ∷ e ∷ r
        ])
          ≡ d ∷ t
    kept [] t e n = absurd (n (sym e))
    kept (x ∷ u) t e n = ap (λ y. d ∷ y) e

trim-same :
    (c : ℕ) (s front : Text)
    → is_whitespace c ≡ false
    → c ∷ s ≡ front ++ b'"' ∷ []
    → trim (c ∷ s) ≡ c ∷ s
unfolding trim trim_start_by
trim-same c s front h e =
    ap (trim_end_by is_whitespace) (start (is_whitespace c) h)
    ∙ ap (trim_end_by is_whitespace) e
    ∙ trim_end_by-last front b'"' refl
    ∙ sym e
  where
    start : (b : Bool) → b ≡ false → (if b then trim_start_by is_whitespace s else c ∷ s) ≡ c ∷ s
    start true k = cc
    start false k = refl

abbrev expression_of : List (Dim × Text) → Text
expression_of ts = join (codes " && ") (map term_text ts)

-- Where an expression of terms begins and ends.
term_text-ends : (t : Dim × Text) → (front : Text) × (term_text t ≡ front ++ b'"' ∷ [])
unfolding quote
term_text-ends (d, v) = (
  param d ++ (codes " == " ++ (b'"' ∷ escape v)),
  sym (append_assoc (param d) (codes " == " ++ (b'"' ∷ escape v)) (b'"' ∷ [])),
)

expression-ends :
    (t : Dim × Text) (ts : List (Dim × Text))
    → (front : Text) × (expression_of (t ∷ ts) ≡ front ++ b'"' ∷ [])
unfolding join
expression-ends t [] = term_text-ends t
expression-ends t (u ∷ ts) =
    let (front, e) = expression-ends u ts in
    (
      term_text t ++ (codes " && " ++ front),
      ap (λ x. term_text t ++ (codes " && " ++ x)) e
          ∙ sym (append_assoc (term_text t) (codes " && " ++ front) (b'"' ∷ [])),
    )

expression-begins :
    (d : Dim) (v : Text) (ts : List (Dim × Text))
    → (rest : Text) × (expression_of ((d, v) ∷ ts) ≡ param d ++ rest)
unfolding join
expression-begins d v [] = (_, refl)
expression-begins d v (u ∷ ts) = (_, append_assoc (param d) _ _)

expression-trim :
    (t : Dim × Text) (ts : List (Dim × Text))
    → (trim (expression_of (t ∷ ts)) ≡ expression_of (t ∷ ts))
      × (is_empty (expression_of (t ∷ ts)) ≡ false)
expression-trim (d, v) ts =
    let (front, e) = expression-ends (d, v) ts in
    let (rest, b) = expression-begins d v ts in
    let (c, s, p, w) = param-head d in
    let whole : expression_of ((d, v) ∷ ts) ≡ c ∷ (s ++ rest) = b ∙ ap (λ x. x ++ rest) p in
    (ap trim whole ∙ trim-same c (s ++ rest) front w (sym whole ∙ e) ∙ sym whole, ap is_empty whole)

-- The crate reads the printed terms as a conjunction of comparisons of these fields and texts.
abbrev pub ReadsTerms : Crate → List (Dim × Text) → Type 0
ReadsTerms F [] = Unit
ReadsTerms F (t ∷ ts) =
    (e : FilterNode) × (F.parse (expression_of (t ∷ ts)) ≡ some e) × Spells e (t ∷ ts)

module _ (F : Crate) where
  parse-expression_of :
      (t : Dim × Text) (ts : List (Dim × Text)) (e : FilterNode)
      → F.parse (expression_of (t ∷ ts)) ≡ some e
      → Spells e (t ∷ ts)
      → OneEach (t ∷ ts)
      → parse F (expression_of (t ∷ ts)) ≡ record { terms = t ∷ ts; advanced = none }
  unfolding parse
  parse-expression_of t ts e hp hs ho =
      let (same, filled) = expression-trim t ts in
      ap (λ x. read x) same
      ∙ go (is_empty (expression_of (t ∷ ts))) (F.parse (expression_of (t ∷ ts))) filled hp
      ∙ ap (λ ps. query_of (add_pieces ps [] [])) (decompose-Spells F e (t ∷ ts) hs)
      ∙ ap query_of (add_pieces-terms (t ∷ ts) [] [] ho)
    where
      read : Text → Query
      read x = if is_empty x then record { terms = []; advanced = none } else elim (F.parse x) [
        | none ↦ record { terms = []; advanced = some x }
        | some tree ↦ query_of (add_pieces (decompose F tree) [] [])
      ]

      go :
          (b : Bool) (o : Option FilterNode)
          → b ≡ false
          → o ≡ some e
          → (if b then record { terms = []; advanced = none } else elim o as (λ _. Query) [
            | none ↦ record { terms = []; advanced = some (expression_of (t ∷ ts)) }
            | some tree ↦ query_of (add_pieces (decompose F tree) [] [])
          ])
            ≡ query_of (add_pieces (decompose F e) [] [])
      go true o k h = cc
      go false none k h = cc
      go false (some tree) k h =
          ap (λ x. query_of (add_pieces (decompose F x) [] [])) {x = tree} {y = e} (cc)

  -- A query of terms reads back from its expression.
  pub parse-to_expression :
      (ts : List (Dim × Text))
      → ReadsTerms F ts
      → OneEach ts
      → parse F (to_expression record { terms = ts; advanced = none })
        ≡ record { terms = ts; advanced = none }
  unfolding to_expression parse trim trim_start_by trim_end_by join
  parse-to_expression [] h k = refl
  parse-to_expression (t ∷ ts) (e, hp, hs) k = parse-expression_of t ts e hp hs k
