-- ===== src/Filter/TextRelations.antt =====
-- The predicates for a column of text agree with the relations that they stand for.
use analytics.Common.{
  Bool, true, false, ◌&&◌, ◌||◌, not, Option, some, List, [], ◌∷◌, Text, codes, text_eq, is_empty,
  if◌then◌else◌, ◌≡◌, refl, ◌∙◌, ap, subst, eq_of_text_eq,
}
use analytics.Filter.{BinaryOperator}
use analytics.Filter.Columns.{FieldSet, dashboard, exceptions, Field}
use analytics.Filter.Predicate.{
  Polars, truth, of_text, not3, and3, or3, lift_option, or_default, elem, has_prefix, has_infix,
  has_suffix,
}
use analytics.Filter.Comparison.{
  Compiler, flat_map, forms_of, source_in, absent_eq, string_eq, differs, field_text,
}
use analytics.Filter.Meaning.{
  EventRow, cells, is_absent, is_missing, in_scope, is_named, text_relation,
}
use analytics.Filter.Means.{
  Means, MayMean, differs_or, if-Means, else-Means, kind_eq, missing-Means, absent-Means,
  present-Means, folded, named-Means, folded_in-Means, map_map,
}

pub and3-some : (a b : Bool) → and3 (some a) (some b) ≡ some (a && b)
and3-some true true = refl
and3-some true false = refl
and3-some false b = refl

pub or3-some : (a b : Bool) → or3 (some a) (some b) ≡ some (a || b)
or3-some true b = refl
or3-some false true = refl
or3-some false false = refl

and_true : (a : Bool) → a ≡ (a && true)
and_true true = refl
and_true false = refl

module _ (Q : Polars) (C : Compiler) (r : EventRow) where
  -- A field that is a column of text.
  module _ (f : Field) (t : Option Text) (h : Q.eval (cells r) (Q.col f.column) ≡ of_text t) where
    event_kinds-Means :
        Means Q C r
          (Q.or
            (Q.eq (Q.col (codes "kind")) (Q.lit_text (codes "pixel")))
            (Q.eq (Q.col (codes "kind")) (Q.lit_text (codes "custom"))))
          (some (text_eq r.kind (codes "pixel") || text_eq r.kind (codes "custom")))
    event_kinds-Means =
        Q.eval-or (cells r) _ _ (some (text_eq r.kind (codes "pixel")))
          (some (text_eq r.kind (codes "custom"))) (kind_eq Q C r (codes "pixel"))
          (kind_eq Q C r (codes "custom"))
        ∙ ap truth (or3-some (text_eq r.kind (codes "pixel")) (text_eq r.kind (codes "custom")))

    absent_eq-Means :
        (fs : FieldSet)
        → Means Q C r (absent_eq Q C fs f) (some (is_absent t && in_scope fs f r.kind))
    unfolding absent_eq in_scope
    absent_eq-Means exceptions =
        absent-Means Q C r f.column t h ∙ ap (λ b. truth (some b)) (and_true (is_absent t))
    absent_eq-Means dashboard =
        Q.eval-and (cells r) _ _ (some (is_absent t))
          (some (scope (text_eq f.column (codes "event_name")))) (absent-Means Q C r f.column t h)
          (scope-Means (text_eq f.column (codes "event_name")))
        ∙ ap truth (and3-some (is_absent t) (scope (text_eq f.column (codes "event_name"))))
      where
        named : Bool
        named = text_eq r.kind (codes "pixel") || text_eq r.kind (codes "custom")

        kinds : Q.Expr
        kinds =
            Q.or (Q.eq (Q.col (codes "kind")) (Q.lit_text (codes "pixel")))
              (Q.eq (Q.col (codes "kind")) (Q.lit_text (codes "custom")))

        scope : Bool → Bool
        scope b = if b then named else not named

        scope-Means :
            (b : Bool) → Means Q C r (if b then kinds else Q.negate kinds) (some (scope b))
        scope-Means true = event_kinds-Means
        scope-Means false = Q.eval-negate (cells r) kinds (some named) event_kinds-Means

    pub source_in-Means :
        (vs : List Text)
        → text_eq f.column (codes "source") ≡ true
        → Means Q C r
            (source_in Q C vs)
            (lift_option (λ s. elem (flat_map (forms_of C.to_lowercase) vs) (Q.lower s)) t)
    unfolding source_in
    source_in-Means vs e =
        folded_in-Means Q C r (codes "source") t
          (subst (λ c. Q.eval (cells r) (Q.col c) ≡ of_text t)
            (eq_of_text_eq f.column (codes "source") e) h)
          (flat_map (forms_of C.to_lowercase) vs)

    -- Where the field is the source or another one.
    by_source :
        (x y : Q.Expr) (g k : Text → Bool)
        → (text_eq f.column (codes "source") ≡ true → Means Q C r x (lift_option g t))
        → Means Q C r y (lift_option k t)
        → Means Q C r
            (if text_eq f.column (codes "source") then x else y)
            (lift_option (λ s. if text_eq f.column (codes "source") then g s else k s) t)
    by_source x y g k m n = go (text_eq f.column (codes "source")) m
      where
        go :
            (b : Bool)
            → (b ≡ true → Means Q C r x (lift_option g t))
            → Means Q C r (if b then x else y) (lift_option (λ s. if b then g s else k s) t)
        go true m = m refl
        go false m = n

    string_eq-Means :
        (v : Text)
        → f.boolean ≡ false
        → Means Q C r (string_eq Q C f v false) (
            if is_empty v
            then some (is_absent t && in_scope C.fields f r.kind)
            else lift_option (is_named Q C r f v) t)
    unfolding string_eq is_named
    string_eq-Means v hb = else-Means Q C r f.boolean _ _ _ hb (
        if-Means Q C r (is_empty v) _ _ _ _ (λ _. absent_eq-Means C.fields)
          (λ _.
            by_source _ _ _ _ (source_in-Means (v ∷ []))
              (named-Means Q C r f.column t h (C.to_lowercase v))))

    differs-Means :
        (v : Text)
        → f.boolean ≡ false
        → Means Q C r (differs Q C f v) (
            if is_empty v
            then some (not (is_absent t))
            else some (not (or_default false (lift_option (is_named Q C r f v) t))))
    differs-Means v hb =
        if-Means Q C r (is_empty v) _ _ _ _ (λ _. present-Means Q C r f.column t h)
          (λ e.
            Q.eval-or (cells r) _ _ (not3 (lift_option (is_named Q C r f v) t))
              (some (is_missing t))
              (Q.eval-negate (cells r) _ (lift_option (is_named Q C r f v) t) (
                subst
                  (λ b. Means Q C r (string_eq Q C f v false) (
                    if b
                    then some (is_absent t && in_scope C.fields f r.kind)
                    else lift_option (is_named Q C r f v) t))
                  e (string_eq-Means v hb)))
              (missing-Means Q C r f.column t h)
            ∙ ap truth (differs_or Q C r (is_named Q C r f v) t))

    pub field_text-MayMean :
        (op : BinaryOperator) (v : Text)
        → f.boolean ≡ false
        → MayMean Q C r (field_text Q C f op v) (text_relation Q C r f op v t)
    unfolding field_text text_relation
    field_text-MayMean BinaryOperator.equals v hb = string_eq-Means v hb
    field_text-MayMean BinaryOperator.not_equals v hb = differs-Means v hb
    field_text-MayMean BinaryOperator.contains v hb =
        Q.eval-contains_literal (cells r) _ _ _ (folded Q C r f.column t h)
        ∙ ap truth (map_map Q C r (has_infix (C.to_lowercase v)) Q.lower t)
    field_text-MayMean BinaryOperator.contains_cs v hb = Q.eval-contains_literal (cells r) _ v t h
    field_text-MayMean BinaryOperator.starts_with v hb =
        Q.eval-starts_with (cells r) _ _ _ (folded Q C r f.column t h)
        ∙ ap truth (map_map Q C r (has_prefix (C.to_lowercase v)) Q.lower t)
    field_text-MayMean BinaryOperator.starts_with_cs v hb = Q.eval-starts_with (cells r) _ v t h
    field_text-MayMean BinaryOperator.ends_with v hb =
        Q.eval-ends_with (cells r) _ _ _ (folded Q C r f.column t h)
        ∙ ap truth (map_map Q C r (has_suffix (C.to_lowercase v)) Q.lower t)
    field_text-MayMean BinaryOperator.ends_with_cs v hb = Q.eval-ends_with (cells r) _ v t h
    field_text-MayMean _ v hb = tt
