-- ===== src/Filter/Compile.antt =====
-- agent/src/analytics/filter.rs: the visitor that folds a query into a predicate. The set of
-- properties that it has seen is passed along; where the fold fails the compiler is dropped, and the
-- set with it.
use analytics.Common.{
  Option, none, some, List, [], Text, codes, text_eq, is_empty, to_ascii_lowercase, trim,
  if◌then◌else◌,
}
use analytics.Filter.{
  FilterValue, bool, string, tuple, other, LogicalOperator, and_op, or_op, not_op, FilterNode,
  literal, property, function_call, binary, logical, unary, like, matches,
}
use analytics.Filter.Columns.{Field, column}
use analytics.Filter.Predicate.{Polars}
use analytics.Filter.Node.{
  Node, predicate, field, project, str, flag, list, null, Kind, describe, Rejection,
  unsupported_literal, unknown_field, no_functions, like_expects_field, matches_expects_field, Fold,
  ok, err, ◌>>=◌, list_items, insert_name,
}
use analytics.Filter.GlobRegex.{glob_regex}
use analytics.Filter.Comparison.{Compiler, into_predicate, compare_nodes}

module _ (Q : Polars) (C : Compiler) where
  unfoldable pub visit_literal : FilterValue → Fold (Node Q.Expr)
  unfolding list_items
  visit_literal FilterValue.null = ok null
  visit_literal (bool b) = ok (flag b)
  visit_literal (string s) = ok (str s)
  visit_literal (tuple values) = do items ← list_items values; ok (list items)
  visit_literal (other t) = err (unsupported_literal (other t))

  abbrev pub node_of : Text → Option Field → Fold (Node Q.Expr)
  node_of name none = err (unknown_field name)
  node_of name (some f) = ok (field f)

  unfoldable pub visit_property : Text → Fold (Node Q.Expr)
  unfolding column
  visit_property name =
      if text_eq name (codes "project") then ok project else node_of name (column C.fields name)

  unfoldable pub visit_subject : (Kind → Rejection) → Node Q.Expr → Text → Fold (Node Q.Expr)
  visit_subject why (field f) pattern = ok (predicate (Q.contains (Q.col f.column) pattern))
  visit_subject why n pattern = err (why (describe n))

  abbrev pub join_predicates : LogicalOperator → Q.Expr → Q.Expr → Q.Expr
  join_predicates and_op e f = Q.and e f
  join_predicates or_op e f = Q.or e f

  unfoldable pub visit : FilterNode → List Text → Fold (Node Q.Expr × List Text)
  unfolding into_predicate compare_nodes visit_literal visit_property visit_subject glob_regex
  visit (literal v) seen = do n ← visit_literal v; ok (n, seen)
  visit (property name) seen = do
    n ← visit_property (to_ascii_lowercase name)
    ok (n, insert_name (to_ascii_lowercase name) seen)
  visit (function_call name args) seen = err (no_functions name)
  visit (binary l op r) seen = do
    a ← visit l seen
    b ← visit r a.1
    n ← compare_nodes Q C a.0 op b.0
    ok (n, b.1)
  visit (logical l op r) seen = do
    a ← visit l seen
    e ← into_predicate Q a.0
    b ← visit r a.1
    f ← into_predicate Q b.0
    ok (predicate (join_predicates op e f), b.1)
  visit (unary not_op r) seen = do
    a ← visit r seen
    e ← into_predicate Q a.0
    ok (predicate (Q.negate e), a.1)
  visit (like l glob) seen = do
    a ← visit l seen
    n ← visit_subject like_expects_field a.0 (glob_regex glob.pattern glob.case_sensitive)
    ok (n, a.1)
  visit (matches l pattern) seen = do
    a ← visit l seen
    n ← visit_subject matches_expects_field a.0 pattern
    ok (n, a.1)

  -- `CompiledFilter`
  pub record CompiledFilter : Type 0 where
    pub predicate : Q.Expr
    pub referenced : List Text

  unfoldable pub compile_tree : FilterNode → Fold CompiledFilter
  unfolding visit into_predicate
  compile_tree tree = do
    a ← visit tree []
    e ← into_predicate Q a.0
    ok record { predicate = e; referenced = a.1 }

  -- `parse` is the parser of the crate (`Filter::new`); its error is a `syntax`.
  unfoldable pub compile_query : (Text → Fold FilterNode) → Text → Fold (Option CompiledFilter)
  unfolding trim compile_tree
  compile_query parse q =
      if is_empty (trim q)
      then ok none
      else (do tree ← parse (trim q); c ← compile_tree tree; ok (some c))
