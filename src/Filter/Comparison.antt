-- ===== src/Filter/Comparison.antt =====
-- agent/src/analytics/filter.rs: the predicates that a comparison compiles to, branch by branch. The
-- branches are grouped by the kind of the subject and the object; each answers an operator that has
-- no branch with none, which is the last branch.
use analytics.Common.{
  Bool, true, false, Option, none, some, List, [], ◌∷◌, ◌++◌, map, Text, codes, text_eq, is_empty,
  contains, eq_ignore_ascii_case, if◌then◌else◌,
}
use analytics.Filter.{BinaryOperator}
use analytics.Filter.Columns.{FieldSet, dashboard, exceptions, Field}
use analytics.Filter.Predicate.{Polars}
use analytics.Filter.Node.{
  Node, predicate, field, project, str, flag, list, null, project_alone, no_condition, Fold, ok,
  err, reject, is_operand_literal,
}

-- What the compiler knows: the field set, the sources of a project in the store, and Rust's
-- `to_lowercase`.
pub record Compiler : Type 0 where
  pub fields : FieldSet
  pub project_sources : Text → List Text
  pub to_lowercase : Text → Text

-- `source_in`: the canonical forms of a name that has no scheme.
abbrev pub forms_of : (Text → Text) → Text → List Text
forms_of lower v =
    let name = lower v in
    if contains (codes "://") name
    then name ∷ []
    else (codes "https://" ++ name)
      ∷ (codes "app://" ++ name)
      ∷ (codes "pixel://" ++ name)
      ∷ name
      ∷ []

unfoldable pub flat_map {ℓ κ} : {A : Type ℓ} {B : Type κ} → (A → List B) → List A → List B
flat_map f [] = []
flat_map f (x ∷ xs) = f x ++ flat_map f xs

module _ (Q : Polars) where
  -- The predicate for a value that is not an operand of a comparison.
  unfoldable pub into_predicate : Node Q.Expr → Fold Q.Expr
  into_predicate (predicate e) = ok e
  into_predicate (field f) = ok (
      if f.boolean
      then Q.fill_null false (Q.col f.column)
      else Q.and (Q.is_not_null (Q.col f.column)) (Q.neq (Q.col f.column) (Q.lit_text [])))
  into_predicate (flag b) = ok (Q.lit_bool b)
  into_predicate project = err project_alone
  into_predicate _ = err no_condition

  module _ (C : Compiler) where
    unfoldable pub source_membership : List Text → Q.Expr
    unfolding flat_map
    source_membership projects =
        Q.is_in_values (Q.col (codes "source")) (flat_map C.project_sources projects)

    unfoldable pub source_in : List Text → Q.Expr
    unfolding flat_map
    source_in values =
        Q.is_in_values (Q.to_lowercase (Q.col (codes "source")))
          (flat_map (forms_of C.to_lowercase) values)

    -- The comparison with the empty text, inside `string_eq`.
    abbrev event_kinds : Q.Expr
    event_kinds =
        Q.or (Q.eq (Q.col (codes "kind")) (Q.lit_text (codes "pixel")))
          (Q.eq (Q.col (codes "kind")) (Q.lit_text (codes "custom")))

    abbrev absent : Field → Q.Expr
    absent f = Q.or (Q.is_null (Q.col f.column)) (Q.eq (Q.col f.column) (Q.lit_text []))

    unfoldable pub absent_eq : FieldSet → Field → Q.Expr
    absent_eq dashboard f =
        Q.and (absent f)
          (if text_eq f.column (codes "event_name") then event_kinds else Q.negate event_kinds)
    absent_eq exceptions f = absent f

    unfoldable pub string_eq : Field → Text → Bool → Q.Expr
    unfolding absent_eq source_in
    string_eq f v case_sensitive =
        if f.boolean
        then Q.eq (Q.fill_null false (Q.col f.column))
            (Q.lit_bool (eq_ignore_ascii_case v (codes "true")))
        else if is_empty v
        then absent_eq C.fields f
        else if text_eq f.column (codes "source")
        then source_in (v ∷ [])
        else if case_sensitive
        then Q.eq (Q.col f.column) (Q.lit_text v)
        else Q.eq (Q.to_lowercase (Q.col f.column)) (Q.lit_text (C.to_lowercase v))

    -- `ci`: the column and the needle.
    abbrev pub ci_column : Field → Bool → Q.Expr
    ci_column f case_sensitive =
        if case_sensitive then Q.col f.column else Q.to_lowercase (Q.col f.column)

    abbrev pub ci_needle : Text → Bool → Text
    ci_needle v case_sensitive = if case_sensitive then v else C.to_lowercase v

    abbrev pub differs : Field → Text → Q.Expr
    differs f v =
        if is_empty v
        then Q.and (Q.is_not_null (Q.col f.column)) (Q.neq (Q.col f.column) (Q.lit_text []))
        else Q.or (Q.negate (string_eq f v false)) (Q.is_null (Q.col f.column))

    -- The branches of `visit_binary` for a field, by the kind of the object.
    unfoldable pub field_text : Field → BinaryOperator → Text → Option Q.Expr
    unfolding string_eq
    field_text f BinaryOperator.equals v = some (string_eq f v false)
    field_text f BinaryOperator.not_equals v = some (differs f v)
    field_text f BinaryOperator.contains v =
        some (Q.contains_literal (ci_column f false) (ci_needle v false))
    field_text f BinaryOperator.contains_cs v =
        some (Q.contains_literal (ci_column f true) (ci_needle v true))
    field_text f BinaryOperator.starts_with v =
        some (Q.starts_with (ci_column f false) (ci_needle v false))
    field_text f BinaryOperator.starts_with_cs v =
        some (Q.starts_with (ci_column f true) (ci_needle v true))
    field_text f BinaryOperator.ends_with v =
        some (Q.ends_with (ci_column f false) (ci_needle v false))
    field_text f BinaryOperator.ends_with_cs v =
        some (Q.ends_with (ci_column f true) (ci_needle v true))
    field_text f _ v = none

    unfoldable pub field_null : Field → BinaryOperator → Option Q.Expr
    field_null f BinaryOperator.equals = some (Q.is_null (Q.col f.column))
    field_null f BinaryOperator.not_equals = some (Q.is_not_null (Q.col f.column))
    field_null f _ = none

    abbrev pub boolean_test : Field → BinaryOperator → Bool → Option Q.Expr
    boolean_test f BinaryOperator.equals b =
        some (Q.eq (Q.fill_null false (Q.col f.column)) (Q.lit_bool b))
    boolean_test f BinaryOperator.not_equals b =
        some (Q.neq (Q.fill_null false (Q.col f.column)) (Q.lit_bool b))
    boolean_test f _ b = none

    unfoldable pub field_flag : Field → BinaryOperator → Bool → Option Q.Expr
    field_flag f op b = if f.boolean then boolean_test f op b else none

    abbrev pub in_values : Field → List Text → Bool → Q.Expr
    in_values f values case_sensitive =
        if text_eq f.column (codes "source")
        then source_in values
        else Q.is_in_values (ci_column f case_sensitive)
            (if case_sensitive then values else map C.to_lowercase values)

    unfoldable pub field_list : Field → BinaryOperator → List Text → Option Q.Expr
    unfolding source_in
    field_list f BinaryOperator.in_list values = some (in_values f values false)
    field_list f BinaryOperator.in_cs values = some (in_values f values true)
    field_list f _ values = none

    unfoldable pub project_text : BinaryOperator → Text → Option Q.Expr
    unfolding source_membership
    project_text BinaryOperator.equals name = some (source_membership (name ∷ []))
    project_text BinaryOperator.not_equals name = some (Q.negate (source_membership (name ∷ [])))
    project_text _ name = none

    unfoldable pub project_list : BinaryOperator → List Text → Option Q.Expr
    unfolding source_membership
    project_list BinaryOperator.in_list names = some (source_membership names)
    project_list BinaryOperator.in_cs names = some (source_membership names)
    project_list _ names = none

    unfoldable pub comparison : Node Q.Expr → BinaryOperator → Node Q.Expr → Option Q.Expr
    unfolding field_text field_null field_flag field_list project_text project_list
    comparison project op (str name) = project_text op name
    comparison project op (list names) = project_list op names
    comparison (field f) op (str v) = field_text f op v
    comparison (field f) op null = field_null f op
    comparison (field f) op (flag b) = field_flag f op b
    comparison (field f) op (list vs) = field_list f op vs
    comparison _ op _ = none

    abbrev pub or_reject :
        Node Q.Expr → BinaryOperator → Node Q.Expr → Option Q.Expr → Fold (Node Q.Expr)
    or_reject subject op object none = err (reject subject op object)
    or_reject subject op object (some e) = ok (predicate e)

    unfoldable pub compare_nodes : Node Q.Expr → BinaryOperator → Node Q.Expr → Fold (Node Q.Expr)
    unfolding comparison
    compare_nodes l op r =
        if is_operand_literal l
        then or_reject r op l (comparison r op l)
        else or_reject l op r (comparison l op r)
