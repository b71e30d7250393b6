-- ===== src/Filter/Means.antt =====
-- The predicate that a query compiles to agrees with what the query says of an event.
use analytics.Common.{
  Bool, true, false, not, Option, none, some, List, [], ◌∷◌, Text, codes, text_eq, if◌then◌else◌,
  ◌≡◌, refl, ◌∙◌, ap,
}
use analytics.Filter.Columns.{Field}
use analytics.Filter.Predicate.{
  Polars, truth, flag, of_text, not3, and3, or3, lift_option, map2_option, or_default, elem,
  is_empty_cell,
}
use analytics.Filter.Comparison.{Compiler}
use analytics.Filter.Meaning.{EventRow, cells, is_absent, is_missing}

module _ (Q : Polars) (C : Compiler) (r : EventRow) where
  abbrev pub Means : Q.Expr → Option Bool → Type 0
  Means e o = Q.eval (cells r) e ≡ truth o

  abbrev pub MayMean : Option Q.Expr → Option Bool → Type 0
  MayMean none o = Unit
  MayMean (some e) o = Means e o

  -- The cell of a field of the event.
  abbrev pub FieldCell : Field → Type 0
  FieldCell f =
      cells r f.column ≡ (if f.boolean then truth r.handled else of_text (r.dimension f.column))

  is_empty_text : (t : Option Text) → is_empty_cell (of_text t) ≡ is_missing t
  is_empty_text none = refl
  is_empty_text (some s) = refl

  pub is_empty_truth : (t : Option Bool) → is_empty_cell (truth t) ≡ is_missing t
  is_empty_truth none = refl
  is_empty_truth (some s) = refl

  absent_or :
      (t : Option Text)
      → or3 (some (is_missing t)) (map2_option text_eq t (some [])) ≡ some (is_absent t)
  unfolding text_eq
  absent_or none = refl
  absent_or (some []) = refl
  absent_or (some (x ∷ s)) = refl

  present_and :
      (t : Option Text)
      → and3 (some (not (is_missing t))) (not3 (map2_option text_eq t (some [])))
        ≡ some (not (is_absent t))
  unfolding text_eq
  present_and none = refl
  present_and (some []) = refl
  present_and (some (x ∷ s)) = refl

  pub differs_or :
      (p : Text → Bool) (t : Option Text)
      → or3 (not3 (lift_option p t)) (some (is_missing t))
        ≡ some (not (or_default false (lift_option p t)))
  differs_or p none = refl
  differs_or p (some s) = elim (p s) as (λ q. or3 (some (not q)) (some false) ≡ some (not q)) [
    | true ↦ refl
    | false ↦ refl
  ]

  map2_named :
      (p : Text) (lower : Text → Text) (t : Option Text)
      → map2_option text_eq (lift_option lower t) (some p)
        ≡ lift_option (λ s. text_eq (lower s) p) t
  map2_named p lower none = refl
  map2_named p lower (some s) = refl

  pub map_map :
      (f : Text → Bool) (g : Text → Text) (t : Option Text)
      → lift_option f (lift_option g t) ≡ lift_option (λ s. f (g s)) t
  map_map f g none = refl
  map_map f g (some s) = refl

  pub if-Means :
      (b : Bool) (x y : Q.Expr) (o p : Option Bool)
      → (b ≡ true → Means x o)
      → (b ≡ false → Means y p)
      → Means (if b then x else y) (if b then o else p)
  if-Means true x y o p f g = f refl
  if-Means false x y o p f g = g refl

  -- Where the test is known to fail.
  pub else-Means :
      (b : Bool) (x y : Q.Expr) (o : Option Bool)
      → b ≡ false
      → Means y o
      → Means (if b then x else y) o
  else-Means true x y o h m = cc
  else-Means false x y o h m = m

  pub then-Means :
      (b : Bool) (x y : Q.Expr) (o : Option Bool)
      → b ≡ true
      → Means x o
      → Means (if b then x else y) o
  then-Means true x y o h m = m
  then-Means false x y o h m = cc

  -- The event's kind, as `string_eq` asks for it.
  pub kind_eq :
      (v : Text) → Means (Q.eq (Q.col (codes "kind")) (Q.lit_text v)) (some (text_eq r.kind v))
  unfolding cells text_eq
  kind_eq v =
      Q.eval-eq (cells r) _ _ (some r.kind) (some v) (Q.eval-col (cells r) (codes "kind"))
        (Q.eval-lit_text (cells r) v)

  -- A column of text: its expression evaluates to the text or to null.
  module _ (c : Text) (t : Option Text) (h : Q.eval (cells r) (Q.col c) ≡ of_text t) where
    pub missing-Means : Means (Q.is_null (Q.col c)) (some (is_missing t))
    missing-Means =
        Q.eval-is_null (cells r) (Q.col c)
        ∙ ap (λ x. flag (is_empty_cell x)) h
        ∙ ap flag (is_empty_text t)

    pub given-Means : Means (Q.is_not_null (Q.col c)) (some (not (is_missing t)))
    given-Means =
        Q.eval-is_not_null (cells r) (Q.col c)
        ∙ ap (λ x. flag (not (is_empty_cell x))) h
        ∙ ap (λ b. flag (not b)) (is_empty_text t)

    empty-Means : Means (Q.eq (Q.col c) (Q.lit_text [])) (map2_option text_eq t (some []))
    empty-Means = Q.eval-eq (cells r) _ _ t (some []) h (Q.eval-lit_text (cells r) [])

    pub absent-Means :
        Means (Q.or (Q.is_null (Q.col c)) (Q.eq (Q.col c) (Q.lit_text []))) (some (is_absent t))
    absent-Means =
        Q.eval-or (cells r) _ _ (some (is_missing t)) _ missing-Means empty-Means
        ∙ ap truth (absent_or t)

    pub present-Means :
        Means
          (Q.and (Q.is_not_null (Q.col c)) (Q.neq (Q.col c) (Q.lit_text [])))
          (some (not (is_absent t)))
    present-Means =
        Q.eval-and (cells r) _ _ (some (not (is_missing t))) _ given-Means
          (Q.eval-neq (cells r) _ _ t (some []) h (Q.eval-lit_text (cells r) []))
        ∙ ap truth (present_and t)

    pub folded : Q.eval (cells r) (Q.to_lowercase (Q.col c)) ≡ of_text (lift_option Q.lower t)
    folded = Q.eval-to_lowercase (cells r) (Q.col c) t h

    pub named-Means :
        (v : Text)
        → Means
            (Q.eq (Q.to_lowercase (Q.col c)) (Q.lit_text v))
            (lift_option (λ s. text_eq (Q.lower s) v) t)
    named-Means v =
        Q.eval-eq (cells r) _ _ (lift_option Q.lower t) (some v) folded
          (Q.eval-lit_text (cells r) v)
        ∙ ap truth (map2_named v Q.lower t)

    pub folded_in-Means :
        (vs : List Text)
        → Means
            (Q.is_in_values (Q.to_lowercase (Q.col c)) vs)
            (lift_option (λ s. elem vs (Q.lower s)) t)
    folded_in-Means vs =
        Q.eval-is_in_values (cells r) _ vs (lift_option Q.lower t) folded
        ∙ ap truth (map_map (elem vs) Q.lower t)
