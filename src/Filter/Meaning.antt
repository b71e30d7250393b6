-- ===== src/Filter/Meaning.antt =====
-- What a query says of one event, directly on the tree of the query: true, false or unknown (none).
use analytics.Common.{
  Bool, true, false, ◌&&◌, ◌||◌, not, Option, none, some, List, [], ◌∷◌, map, Text, codes, text_eq,
  is_empty, to_ascii_lowercase, eq_ignore_ascii_case, if◌then◌else◌,
}
use analytics.Filter.{
  bool, string, tuple, BinaryOperator, LogicalOperator, and_op, or_op, not_op, FilterNode, literal,
  property, binary, logical, unary, like, matches,
}
use analytics.Filter.Columns.{FieldSet, dashboard, exceptions, Field, column}
use analytics.Filter.Predicate.{
  Polars, Cell, text, truth, of_text, not3, and3, or3, lift_option, or_default, same, elem,
  has_prefix, has_infix, has_suffix,
}
use analytics.Filter.Node.{
  Node, predicate, field, project, str, flag, list, null, Fold, ok, err, list_items,
  is_operand_literal,
}
use analytics.Filter.GlobRegex.{glob_regex}
use analytics.Filter.Comparison.{Compiler, flat_map, forms_of}

-- An event of the data frame: its kind, its columns of text, and whether an exception was handled.
pub record EventRow : Type 0 where
  pub kind : Text
  pub dimension : Text → Option Text
  pub handled : Option Bool

unfoldable pub cells : EventRow → Text → Cell
cells r c =
    if text_eq c (codes "kind")
    then text r.kind
    else if text_eq c (codes "exc_handled")
    then truth r.handled
    else of_text (r.dimension c)

-- The leaves of a comparison; any other tree is a condition.
abbrev pub field_or_null : Option Field → Node FilterNode
field_or_null none = null
field_or_null (some f) = field f

abbrev pub items_or_null : Fold (List Text) → Node FilterNode
items_or_null (ok items) = list items
items_or_null (err _) = null

unfoldable pub operand : FieldSet → FilterNode → Node FilterNode
unfolding column list_items
operand fs (literal (bool b)) = flag b
operand fs (literal (string s)) = str s
operand fs (literal (tuple values)) = items_or_null (list_items values)
operand fs (literal _) = null
operand fs (property name) =
    if text_eq (to_ascii_lowercase name) (codes "project")
    then project
    else field_or_null (column fs (to_ascii_lowercase name))
operand fs e = predicate e

abbrev pub is_absent : Option Text → Bool
is_absent none = true
is_absent (some s) = is_empty s

abbrev pub is_missing {ℓ} : {A : Type ℓ} → Option A → Bool
is_missing none = true
is_missing (some _) = false

-- Pixels and custom events have no dimensions; only the name of an event is theirs.
unfoldable pub in_scope : FieldSet → Field → Text → Bool
in_scope exceptions f kind = true
in_scope dashboard f kind =
    let named = text_eq kind (codes "pixel") || text_eq kind (codes "custom") in
    if text_eq f.column (codes "event_name") then named else not named

module _ (Q : Polars) (C : Compiler) (r : EventRow) where
  -- Whether a text of a field is the one that a query names.
  unfoldable pub is_named : Field → Text → Text → Bool
  unfolding flat_map
  is_named f v s =
      if text_eq f.column (codes "source")
      then elem (flat_map (forms_of C.to_lowercase) (v ∷ [])) (Q.lower s)
      else text_eq (Q.lower s) (C.to_lowercase v)

  unfoldable pub text_relation : Field → BinaryOperator → Text → Option Text → Option Bool
  unfolding in_scope is_named
  text_relation f BinaryOperator.equals v t =
      if is_empty v
      then some (is_absent t && in_scope C.fields f r.kind)
      else lift_option (is_named f v) t
  text_relation f BinaryOperator.not_equals v t =
      if is_empty v
      then some (not (is_absent t))
      else some (not (or_default false (lift_option (is_named f v) t)))
  text_relation f BinaryOperator.contains v t =
      lift_option (λ s. has_infix (C.to_lowercase v) (Q.lower s)) t
  text_relation f BinaryOperator.contains_cs v t = lift_option (has_infix v) t
  text_relation f BinaryOperator.starts_with v t =
      lift_option (λ s. has_prefix (C.to_lowercase v) (Q.lower s)) t
  text_relation f BinaryOperator.starts_with_cs v t = lift_option (has_prefix v) t
  text_relation f BinaryOperator.ends_with v t =
      lift_option (λ s. has_suffix (C.to_lowercase v) (Q.lower s)) t
  text_relation f BinaryOperator.ends_with_cs v t = lift_option (has_suffix v) t
  text_relation f _ v t = none

  -- An exception that does not say whether it was handled counts as not handled.
  abbrev was_handled : Bool
  was_handled = or_default false r.handled

  unfoldable pub handled_relation : BinaryOperator → Bool → Option Bool
  handled_relation BinaryOperator.equals b = some (same was_handled b)
  handled_relation BinaryOperator.not_equals b = some (not (same was_handled b))
  handled_relation _ b = none

  -- `handled != "true"` holds as well where the exception does not say.
  unfoldable pub handled_text : BinaryOperator → Bool → Option Bool
  handled_text BinaryOperator.equals b = some (same was_handled b)
  handled_text BinaryOperator.not_equals b = some (not (same was_handled b) || is_missing r.handled)
  handled_text _ b = none

  unfoldable pub null_relation : {A : Type 0} → BinaryOperator → Option A → Option Bool
  null_relation BinaryOperator.equals t = some (is_missing t)
  null_relation BinaryOperator.not_equals t = some (not (is_missing t))
  null_relation _ t = none

  unfoldable pub list_relation : Field → BinaryOperator → List Text → Option Text → Option Bool
  unfolding flat_map
  list_relation f BinaryOperator.in_list vs t =
      if text_eq f.column (codes "source")
      then lift_option (λ s. elem (flat_map (forms_of C.to_lowercase) vs) (Q.lower s)) t
      else lift_option (λ s. elem (map C.to_lowercase vs) (Q.lower s)) t
  list_relation f BinaryOperator.in_cs vs t =
      if text_eq f.column (codes "source")
      then lift_option (λ s. elem (flat_map (forms_of C.to_lowercase) vs) (Q.lower s)) t
      else lift_option (elem vs) t
  list_relation f _ vs t = none

  -- Membership in the sources of projects.
  abbrev pub is_of : List Text → Option Bool
  is_of names = lift_option (elem (flat_map C.project_sources names)) (r.dimension (codes "source"))

  unfoldable pub project_relation : BinaryOperator → List Text → Option Bool
  unfolding flat_map
  project_relation BinaryOperator.equals names = is_of names
  project_relation BinaryOperator.not_equals names = not3 (is_of names)
  project_relation BinaryOperator.in_list names = is_of names
  project_relation BinaryOperator.in_cs names = is_of names
  project_relation _ names = none

  unfoldable pub relation : Node FilterNode → BinaryOperator → Node FilterNode → Option Bool
  unfolding text_relation handled_relation handled_text null_relation list_relation project_relation
  relation project op (str name) = project_relation op (name ∷ [])
  relation project op (list names) = project_relation op names
  relation (field f) op (str v) =
      if f.boolean
      then handled_text op (eq_ignore_ascii_case v (codes "true"))
      else text_relation f op v (r.dimension f.column)
  relation (field f) op null =
      if f.boolean then null_relation op r.handled else null_relation op (r.dimension f.column)
  relation (field f) op (flag b) = if f.boolean then handled_relation op b else none
  relation (field f) op (list vs) =
      if f.boolean then none else list_relation f op vs (r.dimension f.column)
  relation _ op _ = none

  unfoldable pub matched : Node FilterNode → Text → Option Bool
  matched (field f) pattern =
      if f.boolean then none else lift_option (Q.is_match pattern) (r.dimension f.column)
  matched _ pattern = none

  -- A leaf that stands as a condition: a field holds where it is there and not empty.
  unfoldable pub condition : Node FilterNode → Option Bool → Option Bool
  condition (predicate _) m = m
  condition (field f) m =
      some (if f.boolean then was_handled else not (is_absent (r.dimension f.column)))
  condition (flag b) m = some b
  condition _ m = none

  abbrev pub join3 : LogicalOperator → Option Bool → Option Bool → Option Bool
  join3 and_op a b = and3 a b
  join3 or_op a b = or3 a b

  abbrev pub compared : Node FilterNode → BinaryOperator → Node FilterNode → Option Bool
  compared a op b = if is_operand_literal a then relation b op a else relation a op b

  unfoldable pub meaning : FilterNode → Option Bool
  unfolding relation matched condition operand glob_regex
  meaning (binary l op s) = compared (operand C.fields l) op (operand C.fields s)
  meaning (logical l op s) =
      join3 op (condition (operand C.fields l) (meaning l))
        (condition (operand C.fields s) (meaning s))
  meaning (unary not_op s) = not3 (condition (operand C.fields s) (meaning s))
  meaning (like l glob) = matched (operand C.fields l) (glob_regex glob.pattern glob.case_sensitive)
  meaning (matches l pattern) = matched (operand C.fields l) pattern
  meaning _ = none

  unfoldable pub holds : FilterNode → Option Bool
  unfolding meaning condition operand
  holds e = condition (operand C.fields e) (meaning e)

-- The operators that have a value on whether an exception was handled: the others treat the column as
-- text, which it is not.
abbrev pub handled_typed : BinaryOperator → Text → Bool
handled_typed BinaryOperator.equals v = true
handled_typed BinaryOperator.not_equals v = not (is_empty v)
handled_typed _ v = false

unfoldable pub is_typed_relation : Node FilterNode → BinaryOperator → Node FilterNode → Bool
is_typed_relation (field f) op (str v) = not f.boolean || handled_typed op v
is_typed_relation (field f) op (list _) = not f.boolean
is_typed_relation _ op _ = true

abbrev pub is_typed_pair : Node FilterNode → BinaryOperator → Node FilterNode → Bool
is_typed_pair a op b =
    if is_operand_literal a then is_typed_relation b op a else is_typed_relation a op b

unfoldable pub is_typed_subject : Node FilterNode → Bool
is_typed_subject (field f) = not f.boolean
is_typed_subject _ = true

unfoldable pub is_typed : FieldSet → FilterNode → Bool
unfolding is_typed_relation is_typed_subject operand
is_typed fs (binary l op s) =
    is_typed fs l && is_typed fs s && is_typed_pair (operand fs l) op (operand fs s)
is_typed fs (logical l op s) = is_typed fs l && is_typed fs s
is_typed fs (unary _ s) = is_typed fs s
is_typed fs (like l _) = is_typed fs l && is_typed_subject (operand fs l)
is_typed fs (matches l _) = is_typed fs l && is_typed_subject (operand fs l)
is_typed fs _ = true
