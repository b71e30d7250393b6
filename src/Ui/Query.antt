-- ===== src/Ui/Query.antt =====
-- ui/src/filters.rs: the structured form of a filter expression.

use analytics.Common.{
  Bool, not, Option, none, some, List, [], ◌∷◌, ◌++◌, map, keep, Text, codes, join, trim, is_empty,
  if◌then◌else◌,
}
use analytics.Filter.Columns.{FieldSet}
use analytics.Ui.Dims.{Dim, param, same_dim, applies_to, fields_of, fields_apply}
use analytics.Ui.Printer.{
  Crate, Piece, term, advanced, decompose, quote, parenthesised, collect_fields,
}

pub record Query : Type 0 where
  pub terms : List (Dim × Text)
  pub advanced : Option Text

abbrev pub empty_query : Query
empty_query = record { terms = []; advanced = none }

-- `terms.retain(|(d, _)| *d != dim)`, and the same with a push.
unfoldable pub retain_others : Dim → List (Dim × Text) → List (Dim × Text)
unfolding same_dim
retain_others dim terms = keep (λ (t : Dim × Text). not (same_dim t.0 dim)) terms

unfoldable pub replace_term : Dim → Text → List (Dim × Text) → List (Dim × Text)
unfolding retain_others
replace_term dim v terms = retain_others dim terms ++ (dim, v) ∷ []

abbrev pub term_text : Dim × Text → Text
term_text (dim, v) = param dim ++ (codes " == " ++ quote v)

abbrev with_advanced : Text → List Text → List Text
with_advanced a [] = a ∷ []
with_advanced a (p ∷ ps) = (p ∷ ps) ++ parenthesised a ∷ []

abbrev parts : List Text → Option Text → List Text
parts ps none = ps
parts ps (some a) = if is_empty (trim a) then ps else with_advanced a ps

unfoldable pub to_expression : Query → Text
unfolding param quote trim join
to_expression q = join (codes " && ") (parts (map term_text q.terms) q.advanced)

-- The pieces in order: the last term of a dimension wins.
unfoldable pub add_pieces :
    List Piece → List (Dim × Text) → List Text → List (Dim × Text) × List Text
unfolding replace_term
add_pieces [] terms texts = (terms, texts)
add_pieces (term dim v ∷ ps) terms texts = add_pieces ps (replace_term dim v terms) texts
add_pieces (advanced a ∷ ps) terms texts = add_pieces ps terms (texts ++ a ∷ [])

abbrev pub joined_texts : List Text → Option Text
joined_texts [] = none
joined_texts (a ∷ texts) = some (join (codes " && ") (a ∷ texts))

abbrev pub query_of : List (Dim × Text) × List Text → Query
query_of (terms, texts) = record { terms = terms; advanced = joined_texts texts }

abbrev filter_option : Bool → Option Text → Option Text
filter_option b none = none
filter_option b (some a) = if b then some a else none

module _ (F : Crate) where
  unfoldable pub parse : Text → Query
  unfolding trim add_pieces decompose
  parse expression =
      if is_empty (trim expression) then empty_query else elim (F.parse (trim expression)) [
        | none ↦ record { terms = []; advanced = some (trim expression) }
        | some tree ↦ query_of (add_pieces (decompose F tree) [] [])
      ]

  unfoldable pub advanced_fields : Query → List Text
  unfolding collect_fields
  advanced_fields q = elim q.advanced [
    | none ↦ []
    | some a ↦ elim (F.parse a) [ none ↦ [] | some tree ↦ collect_fields tree ]
  ]

  -- The part of the query that an endpoint can honour, in `stats_query` and `exceptions_query`.
  unfoldable pub honoured : FieldSet → Query → Query
  unfolding advanced_fields fields_apply
  honoured fs q = record {
    terms = keep (λ (t : Dim × Text). applies_to fs t.0) q.terms;
    advanced = filter_option (fields_apply (advanced_fields q) (fields_of fs)) q.advanced;
  }

  -- The message under the query bar.
  unfoldable pub validate_expression : Text → Option Text
  unfolding trim
  validate_expression expression =
      if is_empty (trim expression) then none else elim (F.parse (trim expression)) [
        | none ↦ some (F.syntax_error (trim expression))
        | some _ ↦ none
      ]
