-- ===== src/Filter/Relations.antt =====
-- The predicate of a comparison agrees with the relation that it stands for.
use analytics.Common.{
  Bool, true, false, ◌||◌, not, Option, none, some, List, [], ◌∷◌, map, Text, codes, text_eq,
  is_empty, eq_ignore_ascii_case, if◌then◌else◌, ◌≡◌, refl, sym, ◌∙◌, ap, arith, subst,
}
use analytics.Filter.{BinaryOperator}
use analytics.Filter.Columns.{Field}
use analytics.Filter.Predicate.{Polars, truth, flag, of_text, or_default, same, is_empty_cell}
use analytics.Filter.Comparison.{
  Compiler, flat_map, source_membership, string_eq, field_text, field_null, field_flag, field_list,
  project_text, project_list,
}
use analytics.Filter.Meaning.{
  EventRow, cells, is_missing, handled_relation, handled_text, null_relation, list_relation, is_of,
  project_relation, relation,
}
use analytics.Filter.Means.{
  Means, MayMean, FieldCell, if-Means, else-Means, then-Means, missing-Means, given-Means,
  folded_in-Means, is_empty_truth,
}
use analytics.Filter.TextRelations.{field_text-MayMean, source_in-Means, or3-some}
use analytics.Filter.Node.{Node, predicate, field, project, str, list, null}
use analytics.Filter.{FilterNode}
use analytics.Filter.Comparison.{comparison, boolean_test}
use analytics.Filter.Meaning.{is_typed_relation, handled_typed}

-- The operand that a node came from, where `e` is its tree.
abbrev pub leaf_as : {E : Type 0} → FilterNode → Node E → Node FilterNode
leaf_as e (predicate _) = predicate e
leaf_as e (field f) = field f
leaf_as e project = project
leaf_as e (str s) = str s
leaf_as e (Node.flag b) = Node.flag b
leaf_as e (list vs) = list vs
leaf_as e null = null

module _ (Q : Polars) (C : Compiler) (r : EventRow) where
  if-MayMean :
      (b : Bool) (e : Option Q.Expr) (o p : Option Bool)
      → (b ≡ true → MayMean Q C r e o)
      → (b ≡ false → MayMean Q C r e p)
      → MayMean Q C r e (if b then o else p)
  if-MayMean true e o p f g = f refl
  if-MayMean false e o p f g = g refl

  -- The field that holds a Boolean.
  module _ (f : Field) (hb : f.boolean ≡ true)
      (h : Q.eval (cells r) (Q.col f.column) ≡ truth r.handled) where
    filled-Means :
        Means Q C r (Q.fill_null false (Q.col f.column)) (some (or_default false r.handled))
    filled-Means = Q.eval-fill_null (cells r) false (Q.col f.column) r.handled h

    filled_eq :
        (b : Bool)
        → Means Q C r
            (Q.eq (Q.fill_null false (Q.col f.column)) (Q.lit_bool b))
            (some (same (or_default false r.handled) b))
    filled_eq b =
        Q.eval-eq_bool (cells r) _ _ (some (or_default false r.handled)) (some b) filled-Means
          (Q.eval-lit_bool (cells r) b)

    handled_eq :
        (v : Text)
        → Means Q C r
            (string_eq Q C f v false)
            (some (same (or_default false r.handled) (eq_ignore_ascii_case v (codes "true"))))
    unfolding string_eq
    handled_eq v =
        then-Means Q C r f.boolean _ _
          (some (same (or_default false r.handled) (eq_ignore_ascii_case v (codes "true")))) hb
          (filled_eq (eq_ignore_ascii_case v (codes "true")))

    handled_missing : Means Q C r (Q.is_null (Q.col f.column)) (some (is_missing r.handled))
    handled_missing =
        Q.eval-is_null (cells r) (Q.col f.column)
        ∙ ap (λ x. flag (is_empty_cell x)) h
        ∙ ap flag (is_empty_truth Q C r r.handled)

    handled_text-MayMean :
        (op : BinaryOperator) (v : Text)
        → handled_typed op v ≡ true
        → MayMean Q C r
            (field_text Q C f op v)
            (handled_text Q C r op (eq_ignore_ascii_case v (codes "true")))
    unfolding field_text handled_text
    handled_text-MayMean BinaryOperator.equals v ht = handled_eq v
    handled_text-MayMean BinaryOperator.not_equals v ht =
        else-Means Q C r (is_empty v) _ _
          (some (
            not (same (or_default false r.handled) (eq_ignore_ascii_case v (codes "true")))
            || is_missing r.handled))
          (ground arith)
          (Q.eval-or (cells r) _ _
              (some
                (not (same (or_default false r.handled) (eq_ignore_ascii_case v (codes "true")))))
              (some (is_missing r.handled))
              (Q.eval-negate (cells r) _
                (some (same (or_default false r.handled) (eq_ignore_ascii_case v (codes "true"))))
                (handled_eq v))
              handled_missing
            ∙ ap truth (or3-some _ _))
    handled_text-MayMean _ v ht = cc

    handled_null-MayMean :
        (op : BinaryOperator)
        → MayMean Q C r (field_null Q C f op) (null_relation Q C r op r.handled)
    unfolding field_null null_relation
    handled_null-MayMean BinaryOperator.equals = handled_missing
    handled_null-MayMean BinaryOperator.not_equals =
        Q.eval-is_not_null (cells r) (Q.col f.column)
        ∙ ap (λ x. flag (not (is_empty_cell x))) h
        ∙ ap (λ b. flag (not b)) (is_empty_truth Q C r r.handled)
    handled_null-MayMean _ = tt

    handled_flag-MayMean :
        (op : BinaryOperator) (b : Bool)
        → MayMean Q C r (field_flag Q C f op b) (handled_relation Q C r op b)
    unfolding field_flag handled_relation
    handled_flag-MayMean op b =
        subst
          (λ x.
            MayMean Q C r (if x then boolean_test Q C f op b else none)
              (handled_relation Q C r op b))
          (sym hb) (tests op)
      where
        tests :
            (op : BinaryOperator)
            → MayMean Q C r (boolean_test Q C f op b) (handled_relation Q C r op b)
        tests BinaryOperator.equals = filled_eq b
        tests BinaryOperator.not_equals =
            Q.eval-neq_bool (cells r) _ _ (some (or_default false r.handled)) (some b) filled-Means
              (Q.eval-lit_bool (cells r) b)
        tests _ = tt

  -- A field that holds a text.
  module _ (f : Field) (hb : f.boolean ≡ false)
      (h : Q.eval (cells r) (Q.col f.column) ≡ of_text (r.dimension f.column)) where
    text_null-MayMean :
        (op : BinaryOperator)
        → MayMean Q C r (field_null Q C f op) (null_relation Q C r op (r.dimension f.column))
    unfolding field_null null_relation
    text_null-MayMean BinaryOperator.equals = missing-Means Q C r f.column (r.dimension f.column) h
    text_null-MayMean BinaryOperator.not_equals =
        given-Means Q C r f.column (r.dimension f.column) h
    text_null-MayMean _ = tt

    text_flag-MayMean :
        (op : BinaryOperator) (b : Bool) → MayMean Q C r (field_flag Q C f op b) none
    unfolding field_flag
    text_flag-MayMean op b =
        subst (λ x. MayMean Q C r (if x then boolean_test Q C f op b else none) none) (sym hb) tt

    text_list-MayMean :
        (op : BinaryOperator) (vs : List Text)
        → MayMean Q C r
            (field_list Q C f op vs)
            (list_relation Q C r f op vs (r.dimension f.column))
    unfolding field_list list_relation
    text_list-MayMean BinaryOperator.in_list vs =
        if-Means Q C r (text_eq f.column (codes "source")) _ _ _ _
          (source_in-Means Q C r f (r.dimension f.column) h vs)
          (λ _. folded_in-Means Q C r f.column (r.dimension f.column) h (map C.to_lowercase vs))
    text_list-MayMean BinaryOperator.in_cs vs =
        if-Means Q C r (text_eq f.column (codes "source")) _ _ _ _
          (source_in-Means Q C r f (r.dimension f.column) h vs)
          (λ _. Q.eval-is_in_values (cells r) _ vs (r.dimension f.column) h)
    text_list-MayMean _ vs = tt

  membership-Means :
      (names : List Text) → Means Q C r (source_membership Q C names) (is_of Q C r names)
  unfolding source_membership cells text_eq
  membership-Means names =
      Q.eval-is_in_values (cells r) _ (flat_map C.project_sources names)
        (r.dimension (codes "source")) (Q.eval-col (cells r) (codes "source"))

  project_text-MayMean :
      (op : BinaryOperator) (name : Text)
      → MayMean Q C r (project_text Q C op name) (project_relation Q C r op (name ∷ []))
  unfolding project_text project_relation
  project_text-MayMean BinaryOperator.equals name = membership-Means (name ∷ [])
  project_text-MayMean BinaryOperator.not_equals name =
      Q.eval-negate (cells r) _ (is_of Q C r (name ∷ [])) (membership-Means (name ∷ []))
  project_text-MayMean _ name = tt

  project_list-MayMean :
      (op : BinaryOperator) (names : List Text)
      → MayMean Q C r (project_list Q C op names) (project_relation Q C r op names)
  unfolding project_list project_relation
  project_list-MayMean BinaryOperator.in_list names = membership-Means names
  project_list-MayMean BinaryOperator.in_cs names = membership-Means names
  project_list-MayMean _ names = tt

  abbrev pub CellOf : Node Q.Expr → Type 0
  CellOf (field f) = FieldCell Q C r f
  CellOf _ = Unit

  pub text_cell :
      (f : Field)
      → FieldCell Q C r f
      → f.boolean ≡ false
      → Q.eval (cells r) (Q.col f.column) ≡ of_text (r.dimension f.column)
  text_cell f hc hb =
      Q.eval-col (cells r) f.column
      ∙ hc
      ∙ ap (λ b. if b then truth r.handled else of_text (r.dimension f.column)) hb

  pub handled_cell :
      (f : Field)
      → FieldCell Q C r f
      → f.boolean ≡ true
      → Q.eval (cells r) (Q.col f.column) ≡ truth r.handled
  handled_cell f hc hb =
      Q.eval-col (cells r) f.column
      ∙ hc
      ∙ ap (λ b. if b then truth r.handled else of_text (r.dimension f.column)) hb

  pub comparison-MayMean :
      (d e : FilterNode) (a b : Node Q.Expr) (op : BinaryOperator)
      → CellOf a
      → is_typed_relation (leaf_as d a) op (leaf_as e b) ≡ true
      → MayMean Q C r (comparison Q C a op b) (relation Q C r (leaf_as d a) op (leaf_as e b))
  unfolding comparison relation is_typed_relation
  comparison-MayMean d e project (str name) op hc ht = project_text-MayMean op name
  comparison-MayMean d e project (list names) op hc ht = project_list-MayMean op names
  comparison-MayMean d e (field f) (str v) op hc ht =
      if-MayMean f.boolean _ _ _
        (λ hb. handled_text-MayMean f hb (handled_cell f hc hb) op v (ground arith))
        (λ hb. field_text-MayMean Q C r f (r.dimension f.column) (text_cell f hc hb) op v hb)
  comparison-MayMean d e (field f) null op hc ht =
      if-MayMean f.boolean _ _ _ (λ hb. handled_null-MayMean f hb (handled_cell f hc hb) op)
        (λ hb. text_null-MayMean f hb (text_cell f hc hb) op)
  comparison-MayMean d e (field f) (Node.flag b) op hc ht =
      if-MayMean f.boolean _ _ _ (λ hb. handled_flag-MayMean f hb (handled_cell f hc hb) op b)
        (λ hb. text_flag-MayMean f hb (text_cell f hc hb) op b)
  comparison-MayMean d e (field f) (list vs) op hc ht =
      if-MayMean f.boolean _ _ _ (λ hb. absurd (ground arith))
        (λ hb. text_list-MayMean f hb (text_cell f hc hb) op vs)
  comparison-MayMean d e _ _ op hc ht = tt
