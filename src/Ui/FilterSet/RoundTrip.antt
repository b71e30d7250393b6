-- ===== src/Ui/FilterSet/RoundTrip.antt =====
-- The state of a view reads back from its URL parameters.
use analytics.Common.{
  true, Option, none, some, List, [], ◌∷◌, ◌++◌, Text, codes, trim, trim_start_by, trim_end_by,
  text_eq, ◌≡◌, refl, ap, ◌∙◌, ℤ, ltb_ℤ, IsI64, to_string, parse_i64-to_string,
}
use analytics.Ui.Dims.{Dim}
use analytics.Ui.Times.{
  TimeRange, RangePreset, preset, custom, range_token, from_token-range_token, day, week, month,
  quarter, half_year, year, forever,
}
use analytics.Ui.Printer.{Crate}
use analytics.Ui.Query.{Query, to_expression, parse, empty_query}
use analytics.Ui.FilterSet.{
  FilterSet, Reading, of_pairs, to_pairs, read_pairs, read_pair, range_pairs, query_pairs,
  custom_range, default_set,
}
use analytics.Ui.FilterSet.Terms.{OneEach}
use analytics.Ui.FilterSet.QueryRoundTrip.{ReadsTerms, parse-to_expression}

-- A range that a URL can hold: a preset, or instants of an i64 in order.
abbrev pub IsRange : TimeRange → Type 0
IsRange (preset p) = Unit
IsRange (custom a b) = IsI64 a × IsI64 b × (ltb_ℤ a b ≡ true)

module _ (F : Crate) where
  abbrev start : Reading
  start = record { set = default_set; from = none; to = none }

  abbrev after_range : TimeRange → Reading
  after_range (preset p) = record {
    set = record { range = preset p; query = empty_query };
    from = none;
    to = none;
  }
  after_range (custom a b) = record { set = default_set; from = some a; to = some b }

  read_range :
      (p : RangePreset)
      → read_pairs F ((codes "range", range_token p) ∷ []) start ≡ after_range (preset p)
  unfolding read_pairs read_pair text_eq
  read_range p = ap (λ o. read_of o) (from_token-range_token p)
    where
      read_of : Option RangePreset → Reading
      read_of o = record {
        set = (elim o as (λ _. FilterSet) [
          | none ↦ default_set
          | some p ↦ record { range = preset p; query = empty_query }
        ]);
        from = none;
        to = none;
      }

  read_bounds :
      (a b : ℤ)
      → IsI64 a
      → IsI64 b
      → read_pairs F ((codes "from", to_string a) ∷ (codes "to", to_string b) ∷ []) start
        ≡ after_range (custom a b)
  unfolding read_pairs read_pair text_eq
  read_bounds a b ha hb = rw (parse_i64-to_string a ha, parse_i64-to_string b hb) refl

  abbrev with_query_of : TimeRange → Query → FilterSet
  with_query_of range q = record { range = range; query = q }

  abbrev of_reading : Reading → FilterSet
  of_reading r = custom_range r.from r.to r.set

  read_range_pairs :
      (range : TimeRange) (rest : List (Text × Text))
      → IsRange range
      → read_pairs F (range_pairs range ++ rest) start ≡ read_pairs F rest (after_range range)
  unfolding read_pairs
  read_range_pairs (preset week) rest h = refl
  read_range_pairs (preset day) rest h = ap (read_pairs F rest) (read_range day)
  read_range_pairs (preset month) rest h = ap (read_pairs F rest) (read_range month)
  read_range_pairs (preset quarter) rest h = ap (read_pairs F rest) (read_range quarter)
  read_range_pairs (preset half_year) rest h = ap (read_pairs F rest) (read_range half_year)
  read_range_pairs (preset year) rest h = ap (read_pairs F rest) (read_range year)
  read_range_pairs (preset forever) rest h = ap (read_pairs F rest) (read_range forever)
  read_range_pairs (custom a b) rest (ha, hb, lt) = ap (read_pairs F rest) (read_bounds a b ha hb)

  -- The query parameter, after the range.
  read_query :
      (range : TimeRange) (e : Text)
      → IsRange range
      → of_reading (read_pairs F (query_pairs e) (after_range range))
        ≡ record { range = range; query = parse F e }
  unfolding read_pairs read_pair parse text_eq trim trim_start_by trim_end_by
  read_query (preset p) [] h = refl
  read_query (preset p) (c ∷ e) h = refl
  read_query (custom a b) [] (ha, hb, lt) = rw lt refl
  read_query (custom a b) (c ∷ e) (ha, hb, lt) = rw lt refl

  -- A range that a URL can hold and a query of terms, no two of one dimension, read back from the URL
  -- parameters that they are written as.
  pub of_pairs-to_pairs :
      (range : TimeRange) (ts : List (Dim × Text))
      → IsRange range
      → OneEach ts
      → ReadsTerms F ts
      → of_pairs F
          (to_pairs record { range = range; query = record { terms = ts; advanced = none } })
        ≡ record { range = range; query = record { terms = ts; advanced = none } }
  unfolding of_pairs to_pairs
  of_pairs-to_pairs range ts h k hr =
      let e : Text = to_expression record { terms = ts; advanced = none } in
      ap of_reading (read_range_pairs range (query_pairs e) h)
      ∙ read_query range e h
      ∙ ap (with_query_of range) (parse-to_expression F ts hr k)
