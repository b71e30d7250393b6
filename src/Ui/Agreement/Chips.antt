-- ===== src/Ui/Agreement/Chips.antt =====
-- A query of chips that an endpoint honours is one that the agent takes.
use analytics.Common.{
  Bool, true, false, Option, none, some, List, [], ◌∷◌, ◌++◌, All, Text, codes, text_eq,
  to_ascii_lowercase, if◌then◌else◌, ◌≡◌, refl, sym, ap, ◌∙◌, subst, inl, inr, ◌⊎◌,
}
use analytics.Filter.{FilterNode, literal, property, string, binary, logical, equals, and_op}
use analytics.Filter.Columns.{FieldSet, dashboard, exceptions, Field, column, find_field}
use analytics.Filter.Predicate.{Polars}
use analytics.Filter.Node.{Node, predicate, project, field, str, ok, insert_name}
use analytics.Filter.Comparison.{
  Compiler, into_predicate, compare_nodes, comparison, field_text, project_text,
}
use analytics.Filter.Compile.{
  CompiledFilter, visit, visit_literal, visit_property, node_of, compile_tree,
}
use analytics.Ui.Dims.{Dim, param, applies_to, applies_to_dashboard, applies_to_exceptions}
use analytics.Ui.FilterSet.QueryRoundTrip.{Spells, one, both, to_ascii_lowercase-param}

-- The dimensions of an endpoint that are not the project have a column there.
abbrev HasColumn : FieldSet → Dim → Type 0
HasColumn fs d =
    (d ≡ Dim.project)
    ⊎ ((f : Field) × (text_eq (param d) (codes "project") ≡ false) × (column fs (param d) ≡ some f))

applies-HasColumn : (fs : FieldSet) (d : Dim) → applies_to fs d ≡ true → HasColumn fs d
unfolding param column find_field text_eq applies_to_dashboard applies_to_exceptions
applies-HasColumn fs Dim.project h = inl refl
applies-HasColumn dashboard Dim.source h = inr (_, refl, refl)
applies-HasColumn exceptions Dim.source h = inr (_, refl, refl)
applies-HasColumn dashboard Dim.path h = inr (_, refl, refl)
applies-HasColumn exceptions Dim.path h = cc
applies-HasColumn dashboard Dim.referrer h = inr (_, refl, refl)
applies-HasColumn exceptions Dim.referrer h = cc
applies-HasColumn dashboard Dim.country h = inr (_, refl, refl)
applies-HasColumn exceptions Dim.country h = cc
applies-HasColumn dashboard Dim.language h = inr (_, refl, refl)
applies-HasColumn exceptions Dim.language h = cc
applies-HasColumn dashboard Dim.browser h = inr (_, refl, refl)
applies-HasColumn exceptions Dim.browser h = inr (_, refl, refl)
applies-HasColumn dashboard Dim.version h = inr (_, refl, refl)
applies-HasColumn exceptions Dim.version h = inr (_, refl, refl)
applies-HasColumn dashboard Dim.os h = inr (_, refl, refl)
applies-HasColumn exceptions Dim.os h = inr (_, refl, refl)
applies-HasColumn dashboard Dim.device h = inr (_, refl, refl)
applies-HasColumn exceptions Dim.device h = inr (_, refl, refl)
applies-HasColumn dashboard Dim.utm_source h = inr (_, refl, refl)
applies-HasColumn exceptions Dim.utm_source h = cc
applies-HasColumn dashboard Dim.utm_medium h = inr (_, refl, refl)
applies-HasColumn exceptions Dim.utm_medium h = cc
applies-HasColumn dashboard Dim.utm_campaign h = inr (_, refl, refl)
applies-HasColumn exceptions Dim.utm_campaign h = cc
applies-HasColumn dashboard Dim.app_version h = cc
applies-HasColumn exceptions Dim.app_version h = inr (_, refl, refl)
applies-HasColumn dashboard Dim.event_name h = inr (_, refl, refl)
applies-HasColumn exceptions Dim.event_name h = cc

module _ (Q : Polars) (C : Compiler) where
  -- A tree that compiles to a predicate.
  abbrev Compiles : FilterNode → Type 0
  Compiles e =
      (seen : List Text)
      → (p : Q.Expr) × (names : List Text) × (visit Q C e seen ≡ ok (predicate p, names))

  -- The node of the field of a chip.
  abbrev IsSubject : Node Q.Expr → Type 0
  IsSubject n = (n ≡ project) ⊎ ((f : Field) × (n ≡ field f))

  visit_property-IsSubject :
      (d : Dim)
      → HasColumn C.fields d
      → (n : Node Q.Expr) × IsSubject n × (visit_property Q C (param d) ≡ ok n)
  unfolding visit_property param text_eq
  visit_property-IsSubject d (inl e) =
      (project, inl refl, ap (λ x. visit_property Q C (param x)) e ∙ refl)
  visit_property-IsSubject d (inr (f, other, hf)) = (
    field f,
    inr (f, refl),
    go (text_eq (param d) (codes "project")) other (column C.fields (param d)) hf,
  )
    where
      go :
          (b : Bool)
          → b ≡ false
          → (o : Option Field) → o ≡ some f
          → (if b then ok project else node_of Q C (param d) o) ≡ ok (field f)
      go true k o h = cc
      go false k none h = cc
      go false k (some g) h = cc

  compare_equals :
      (n : Node Q.Expr) (v : Text)
      → IsSubject n
      → (p : Q.Expr) × (compare_nodes Q C n equals (str v) ≡ ok (predicate p))
  unfolding compare_nodes comparison field_text project_text
  compare_equals n v (inl e) =
      subst (λ m. (p : Q.Expr) × (compare_nodes Q C m equals (str v) ≡ ok (predicate p))) (sym e)
        (_, refl)
  compare_equals n v (inr (f, e)) =
      subst (λ m. (p : Q.Expr) × (compare_nodes Q C m equals (str v) ≡ ok (predicate p))) (sym e)
        (_, refl)

  one-Compiles :
      (d : Dim) (v : Text)
      → applies_to C.fields d ≡ true
      → Compiles (binary (property (param d)) equals (literal (string v)))
  unfolding visit visit_literal
  one-Compiles d v h seen =
      let (n, hn, e) = visit_property-IsSubject d (applies-HasColumn C.fields d h) in
      let (p, k) = compare_equals n v hn in
      let e' = ap (visit_property Q C) (to_ascii_lowercase-param d) ∙ e in
      (p, insert_name (to_ascii_lowercase (param d)) seen, rw (e', k) refl)

  both-Compiles : (l r : FilterNode) → Compiles l → Compiles r → Compiles (logical l and_op r)
  unfolding visit into_predicate
  both-Compiles l r hl hr seen =
      let (p, names, e) = hl seen in
      let (q, names', e') = hr names in (Q.and p q, names', rw (e, e') refl)

  abbrev AllApply : List (Dim × Text) → Type 0
  AllApply ts = All (λ (t : Dim × Text). applies_to C.fields t.0 ≡ true) ts

  All-split : (ts us : List (Dim × Text)) → AllApply (ts ++ us) → AllApply ts × AllApply us
  All-split [] us h = (tt, h)
  All-split (t ∷ ts) us (h, hs) = let (a, b) = All-split ts us hs in ((h, a), b)

  visit-Compiles :
      (e : FilterNode) (ts : List (Dim × Text)) → Spells e ts → AllApply ts → Compiles e
  visit-Compiles _ _ (one d v) (h, _) = one-Compiles d v h
  visit-Compiles _ _ (both {l} {r} {ts} {us} h k) a =
      let (x, y) = All-split ts us a in
      both-Compiles l r (visit-Compiles l ts h x) (visit-Compiles r us k y)

  -- The agent takes every conjunction of chips whose dimensions apply to the endpoint.
  pub compile_tree-Spells :
      (e : FilterNode) (ts : List (Dim × Text))
      → Spells e ts
      → All (λ (t : Dim × Text). applies_to C.fields t.0 ≡ true) ts
      → (c : CompiledFilter Q C) × (compile_tree Q C e ≡ ok c)
  unfolding compile_tree into_predicate
  compile_tree-Spells e ts h a =
      let (p, names, k) = visit-Compiles e ts h a [] in
      (record { predicate = p; referenced = names }, rw k refl)
