-- ===== src/Examples/Queries.antt =====
-- A query that both ends handle: browser == "Chrome" && country == "DE", and the state of a view.
use analytics.Common.{
  true, ◌||◌, none, some, List, [], ◌∷◌, Text, codes, text_eq, join, to_ascii_lowercase,
  if◌then◌else◌, ◌≡◌, ◌↔◌, refl, pos, arith,
}
use analytics.Filter.{FilterNode, literal, property, string, binary, logical, equals, and_op}
use analytics.Filter.Columns.{dashboard, exceptions, column, find_field}
use analytics.Filter.Predicate.{truth, elem}
use analytics.Filter.Node.{ok}
use analytics.Filter.Comparison.{
  Compiler, into_predicate, compare_nodes, comparison, field_text, string_eq,
}
use analytics.Filter.Compile.{CompiledFilter, visit, visit_literal, visit_property, compile_tree}
use analytics.Filter.Meaning.{EventRow, cells, holds, is_typed, is_typed_relation, operand}
use analytics.Filter.Refines.{compile_tree-holds}
use analytics.Ui.Dims.{
  Dim, browser, country, os, applies_to_dashboard, param, from_param, from_param_iff, fields_of,
  fields_apply, same_dim,
}
use analytics.Ui.Times.{custom}
use analytics.Ui.Printer.{Crate, collect_fields, quote, escape}
use analytics.Ui.Query.{to_expression}
use analytics.Ui.FilterSet.{default_set, of_pairs, to_pairs, find_term, get, with_term, without}
use analytics.Ui.FilterSet.Terms.{OneEach, opened, set_term, get-with_term, reached-OneEach}
use analytics.Ui.FilterSet.QueryRoundTrip.{Spells, one, both}
use analytics.Ui.FilterSet.RoundTrip.{of_pairs-to_pairs}
use analytics.Ui.Agreement.{is_some, fields_of-column}
use analytics.Ui.Agreement.Fields.{compile_tree-collect_fields}
use analytics.Ui.Agreement.Chips.{compile_tree-Spells}
use analytics.Examples.Frames.{Frame, model_frames}

abbrev browser_is : Text → FilterNode
browser_is v = binary (property (codes "browser")) equals (literal (string v))

abbrev country_is : Text → FilterNode
country_is v = binary (property (codes "country")) equals (literal (string v))

abbrev chrome_in_de : FilterNode
chrome_in_de = logical (browser_is (codes "Chrome")) and_op (country_is (codes "DE"))

abbrev chips : List (Dim × Text)
chips = (browser, codes "Chrome") ∷ (country, codes "DE") ∷ []

abbrev agent : Compiler
agent = record { fields = dashboard; project_sources = λ _. []; to_lowercase = to_ascii_lowercase }

abbrev visit_row : EventRow
visit_row = record {
  kind = codes "page_load";
  dimension = λ c. if text_eq c (codes "ua_browser") then some (codes "chrome") else none;
  handled = none;
}

abbrev compiled : CompiledFilter model_frames agent
compiled = record {
  predicate =
      Frame.both
        (Frame.equal (Frame.lowered (Frame.col (codes "ua_browser")))
          (Frame.lit_text (codes "chrome")))
        (Frame.equal (Frame.lowered (Frame.col (codes "country"))) (Frame.lit_text (codes "de")));
  referenced = codes "country" ∷ codes "browser" ∷ [];
}

compiles : compile_tree model_frames agent chrome_in_de ≡ ok compiled
unfolding compile_tree visit visit_literal visit_property column find_field text_eq into_predicate
    compare_nodes comparison field_text string_eq
compiles = refl

typed : is_typed dashboard chrome_in_de ≡ true
unfolding is_typed operand is_typed_relation column find_field text_eq
typed = refl

-- Unknown, as the event has no country.
compile_tree-holds_example :
    model_frames.eval (cells visit_row) compiled.predicate
    ≡ truth (holds model_frames agent visit_row chrome_in_de)
compile_tree-holds_example =
    compile_tree-holds model_frames agent visit_row chrome_in_de compiled compiles typed

compile_tree-collect_fields_example :
    ((s : Text) → elem compiled.referenced s ≡ elem (collect_fields chrome_in_de) s)
    × (fields_apply (collect_fields chrome_in_de) (fields_of dashboard) ≡ true)
compile_tree-collect_fields_example =
    compile_tree-collect_fields model_frames agent chrome_in_de compiled compiles

fields_of-column_example :
    elem (fields_of exceptions) (codes "app")
    ≡ (text_eq (codes "app") (codes "project") || is_some (column exceptions (codes "app")))
fields_of-column_example = fields_of-column exceptions (codes "app")

spells : Spells chrome_in_de chips
unfolding param
spells = both (one browser (codes "Chrome")) (one country (codes "DE"))

compile_tree-Spells_example :
    (c : CompiledFilter model_frames agent) × (compile_tree model_frames agent chrome_in_de ≡ ok c)
unfolding applies_to_dashboard
compile_tree-Spells_example =
    compile_tree-Spells model_frames agent chrome_in_de chips spells (refl, (refl, tt))

from_param_iff_example : (from_param (codes "os") ≡ some os) ↔ (codes "os" ≡ param os)
from_param_iff_example = from_param_iff (codes "os") os

abbrev printed : Text
printed = codes "browser == \"Chrome\" && country == \"DE\""

-- A parser that knows one expression.
abbrev crate : Crate
crate = record {
  parse = λ t. if text_eq t printed then some chrome_in_de else none;
  syntax_error = λ t. t;
  display = λ v. [];
  symbol = λ op. codes "==";
  logical_symbol = λ op. codes "&&";
  unary_symbol = λ op. codes "!";
}

one_each : OneEach chips
unfolding find_term same_dim param text_eq
one_each = (refl, (refl, tt))

of_pairs-to_pairs_example :
    of_pairs crate (
      to_pairs record {
        range = custom (pos 5) (pos 9);
        query = record { terms = chips; advanced = none };
      })
    ≡ record { range = custom (pos 5) (pos 9); query = record { terms = chips; advanced = none } }
unfolding to_expression param quote escape join text_eq
of_pairs-to_pairs_example =
    of_pairs-to_pairs crate (custom (pos 5) (pos 9)) chips (omega arith, omega arith, refl) one_each
      (chrome_in_de, refl, spells)

get-with_term_example :
    (get country (with_term os (codes "Linux") default_set)
      ≡ (if same_dim os country then some (codes "Linux") else get country default_set))
    × (get country (without os default_set)
        ≡ (if same_dim os country then none else get country default_set))
get-with_term_example = get-with_term os country (codes "Linux") default_set

reached-OneEach_example :
    OneEach (with_term os (codes "Linux") (of_pairs crate ((codes "q", printed) ∷ []))).query.terms
reached-OneEach_example =
    reached-OneEach crate
      (with_term os (codes "Linux") (of_pairs crate ((codes "q", printed) ∷ [])))
      (set_term os (codes "Linux") (opened ((codes "q", printed) ∷ [])))
