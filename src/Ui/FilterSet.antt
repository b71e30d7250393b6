-- ===== src/Ui/FilterSet.antt =====
-- ui/src/filters.rs: the filter state of a view and its URL. The codec of URI components is the
-- browser's, an argument.
pub mod Terms
pub mod QueryRoundTrip
pub mod RoundTrip
use analytics.Common.{
  ℕ, Bool, true, false, ◌&&◌, not, Option, none, some, List, [], ◌∷◌, ◌++◌, map, keep, Text, codes,
  join, trim, is_empty, text_eq, if◌then◌else◌, ℤ, parse_i64, to_string, ltb_ℤ, split_by,
  split_once, ◌==◌, trim_start_by,
}
use analytics.Filter.Columns.{FieldSet, dashboard, exceptions}
use analytics.Ui.Dims.{Dim, same_dim, fields_of, fields_apply}
use analytics.Ui.Times.{
  TimeRange, preset, custom, week, range_token, from_token, default_range, resolve,
}
use analytics.Ui.Printer.{Crate}
use analytics.Ui.Query.{
  Query, empty_query, parse, to_expression, retain_others, replace_term, honoured, advanced_fields,
}

pub record FilterSet : Type 0 where
  pub range : TimeRange
  pub query : Query

abbrev pub default_set : FilterSet
default_set = record { range = default_range; query = empty_query }

-- js_sys: `decodeURIComponent`, which may throw, and `encodeURIComponent`.
pub record UriCodec : Type 0 where
  pub decode_component : Text → Option Text
  pub encode_component : Text → Text

abbrev Pairs : Type 0
Pairs = List (Text × Text)

unfoldable pub decode : UriCodec → Text → Text
decode U v = elim (U.decode_component (map (λ c. if c == b'+' then b' ' else c) v)) [
  | none ↦ v
  | some t ↦ t
]

abbrev pair_of : UriCodec → Text → Option (Text × Text) → Text × Text
pair_of U part none = (decode U part, decode U [])
pair_of U part (some (key, v)) = (decode U key, decode U v)

unfoldable pub pairs_of : UriCodec → Text → Pairs
unfolding split_by split_once trim_start_by decode
pairs_of U query =
    map (λ part. pair_of U part (split_once b'=' part))
      (keep (λ part. not (is_empty part))
        (split_by (λ c. c == b'&') (trim_start_by (λ c. c == b'?') query)))

unfoldable pub find_param : Text → Pairs → Option Text
find_param key [] = none
find_param key ((k, v) ∷ rest) = if text_eq k key then some v else find_param key rest

unfoldable pub query_param : UriCodec → Text → Text → Option Text
unfolding pairs_of find_param
query_param U query key = find_param key (pairs_of U query)

unfoldable pub encode_pairs : UriCodec → Pairs → Text
unfolding join
encode_pairs U pairs =
    join (codes "&") (map (λ (p : Text × Text). p.0 ++ (codes "=" ++ U.encode_component p.1)) pairs)

-- What the loop of `parse` has read.
pub record Reading : Type 0 where
  pub set : FilterSet
  pub from : Option ℤ
  pub to : Option ℤ

abbrev pub set_range : FilterSet → Text → FilterSet
set_range s v = elim (from_token v) [ none ↦ s | some p ↦ record s { range = preset p } ]

abbrev pub custom_range : Option ℤ → Option ℤ → FilterSet → FilterSet
custom_range (some a) (some b) s = if ltb_ℤ a b then record s { range = custom a b } else s
custom_range _ _ s = s

abbrev finished : Reading → FilterSet
finished r = custom_range r.from r.to r.set

abbrev pub range_pairs : TimeRange → Pairs
range_pairs (preset week) = []
range_pairs (preset p) = (codes "range", range_token p) ∷ []
range_pairs (custom a b) = (codes "from", to_string a) ∷ (codes "to", to_string b) ∷ []

abbrev pub query_pairs : Text → Pairs
query_pairs expression = if is_empty expression then [] else (codes "q", expression) ∷ []

unfoldable pub to_pairs : FilterSet → Pairs
unfolding to_expression range_token to_string
to_pairs s = range_pairs s.range ++ query_pairs (to_expression s.query)

unfoldable pub canonical : FilterSet → Text
unfolding to_pairs join
canonical s = join (codes "&") (map (λ (p : Text × Text). p.0 ++ (codes "=" ++ p.1)) (to_pairs s))

unfoldable pub find_term : Dim → List (Dim × Text) → Option Text
unfolding same_dim
find_term dim [] = none
find_term dim ((d, v) ∷ rest) = if same_dim d dim then some v else find_term dim rest

unfoldable pub get : Dim → FilterSet → Option Text
unfolding find_term
get dim s = find_term dim s.query.terms

unfoldable pub with_term : Dim → Text → FilterSet → FilterSet
unfolding replace_term
with_term dim v s = record s { query = record s.query { terms = replace_term dim v s.query.terms } }

unfoldable pub without : Dim → FilterSet → FilterSet
unfolding retain_others
without dim s = record s { query = record s.query { terms = retain_others dim s.query.terms } }

unfoldable pub without_advanced : FilterSet → FilterSet
without_advanced s = record s { query = record s.query { advanced = none } }

unfoldable pub with_query : Query → FilterSet → FilterSet
with_query q s = record s { query = q }

unfoldable pub with_range : TimeRange → FilterSet → FilterSet
with_range range s = record s { range = range }

-- The resolved range as it is sent.
abbrev from_to : ℤ → ℤ → Pairs
from_to a b = (codes "from", to_string a) ∷ (codes "to", to_string b) ∷ []

unfoldable pub range_query : FilterSet → ℤ → Text
unfolding resolve to_string
range_query s now =
    let (a, b, interval) = resolve s.range now in
    codes "from=" ++ (to_string a ++ (codes "&to=" ++ to_string b))

module _ (F : Crate) where
  unfoldable pub read_pair : Text × Text → Reading → Reading
  unfolding from_token parse parse_i64
  read_pair (key, v) r =
      if text_eq key (codes "range")
      then record r { set = set_range r.set v }
      else if text_eq key (codes "from")
      then record r { from = parse_i64 v }
      else if text_eq key (codes "to")
      then record r { to = parse_i64 v }
      else if text_eq key (codes "q")
      then record r { set = record r.set { query = parse F v } }
      else r

  unfoldable pub read_pairs : Pairs → Reading → Reading
  unfolding read_pair
  read_pairs [] r = r
  read_pairs (p ∷ ps) r = read_pairs ps (read_pair p r)

  unfoldable pub of_pairs : Pairs → FilterSet
  unfolding read_pairs
  of_pairs pairs = finished (read_pairs pairs record { set = default_set; from = none; to = none })

  unfoldable pub parse_url : UriCodec → Text → FilterSet
  unfolding pairs_of of_pairs
  parse_url U query = of_pairs (pairs_of U query)

  unfoldable pub stats_query : UriCodec → FilterSet → ℤ → Text
  unfolding encode_pairs resolve honoured to_expression to_string
  stats_query U s now =
      let (a, b, interval) = resolve s.range now in
      encode_pairs U (
        from_to a b
        ++ (codes "interval", interval)
          ∷ query_pairs (to_expression (honoured F dashboard s.query)))

  unfoldable pub exceptions_query : UriCodec → FilterSet → ℤ → Text
  unfolding encode_pairs resolve honoured to_expression to_string
  exceptions_query U s now =
      let (a, b, interval) = resolve s.range now in
      encode_pairs U (from_to a b ++ query_pairs (to_expression (honoured F exceptions s.query)))

  -- `advanced_applies_to_exceptions` and `advanced_applies_to_dashboard`
  unfoldable pub advanced_applies_to : FieldSet → FilterSet → Bool
  unfolding advanced_fields fields_apply
  advanced_applies_to fs s = fields_apply (advanced_fields F s.query) (fields_of fs)
