-- ===== src/Ui/Agreement/Fields.antt =====
-- The fields that a compiled query has referenced.
use analytics.Common.{
  Bool, true, false, ◌&&◌, ◌||◌, Option, none, some, List, [], ◌∷◌, ◌++◌, Text, codes, text_eq, all,
  to_ascii_lowercase, if◌then◌else◌, ◌≡◌, refl, sym, ◌∙◌, subst, eq_of_text_eq, arith,
}
use analytics.Filter.{
  FilterNode, literal, property, function_call, binary, logical, unary, like, matches, not_op,
}
use analytics.Filter.Columns.{Field, column}
use analytics.Filter.Predicate.{Polars, elem}
use analytics.Filter.Node.{
  Node, project, ok, bind-eq-ok, ok-injective, insert_name, like_expects_field,
  matches_expects_field,
}
use analytics.Filter.Comparison.{Compiler, into_predicate, compare_nodes}
use analytics.Filter.Compile.{
  CompiledFilter, visit, visit_literal, visit_property, visit_subject, node_of, compile_tree,
}
use analytics.Ui.Dims.{fields_of, fields_apply}
use analytics.Ui.Printer.{collect_fields}
use analytics.Ui.Agreement.{is_some, fields_of-column}

elem-append : (xs ys : List Text) (s : Text) → elem (xs ++ ys) s ≡ (elem xs s || elem ys s)
elem-append [] ys s = refl
elem-append (x ∷ xs) ys s = ground (arith, elem-append xs ys s)

or_absorb : (a b : Bool) → (b ≡ true → a ≡ true) → a ≡ (a || b)
or_absorb true b f = refl
or_absorb false true f = f refl
or_absorb false false f = refl

elem-insert_name :
    (n : Text) (xs : List Text) (s : Text) → elem (insert_name n xs) s ≡ (elem xs s || text_eq s n)
elem-insert_name n xs s = go (elem xs n) refl
  where
    go : (b : Bool) → elem xs n ≡ b → elem (if b then xs else n ∷ xs) s ≡ (elem xs s || text_eq s n)
    go false h = ground arith
    go true h =
        or_absorb (elem xs s) (text_eq s n)
          λ k. subst (λ y. elem xs y ≡ true) (sym (eq_of_text_eq s n k)) h

or_append :
    (a b c : Bool) (xs ys : List Text) (s : Text)
    → b ≡ (a || elem xs s)
    → c ≡ (b || elem ys s)
    → c ≡ (a || elem (xs ++ ys) s)
or_append a b c xs ys s h k = rw (elem-append xs ys s) (ground arith)

all-append : (p : Text → Bool) (xs ys : List Text) → all p (xs ++ ys) ≡ (all p xs && all p ys)
all-append p [] ys = refl
all-append p (x ∷ xs) ys = ground (arith, all-append p xs ys)

module _ (Q : Polars) (C : Compiler) where
  -- What a fold has done: it has seen the fields of its tree, and knows them all.
  abbrev Saw : FilterNode → List Text → Node Q.Expr × List Text → Type 0
  Saw e seen a =
      ((s : Text) → elem a.1 s ≡ (elem seen s || elem (collect_fields e) s))
      × (fields_apply (collect_fields e) (fields_of C.fields) ≡ true)

  property-known :
      (name : Text) (n : Node Q.Expr)
      → visit_property Q C name ≡ ok n
      → elem (fields_of C.fields) name ≡ true
  unfolding visit_property
  property-known name n h =
      fields_of-column C.fields name ∙ go (text_eq name (codes "project")) (column C.fields name) h
    where
      go :
          (b : Bool) (o : Option Field)
          → (if b then ok project else node_of Q C name o) ≡ ok n
          → (b || is_some o) ≡ true
      go true o h = refl
      go false none h = cc
      go false (some f) h = refl

  visit-Saw_both :
      (l r : FilterNode) (seen : List Text) (x y : Node Q.Expr × List Text)
      → Saw l seen x
      → Saw r x.1 y
      → ((s : Text) → elem y.1 s ≡ (elem seen s || elem (collect_fields l ++ collect_fields r) s))
        × (fields_apply (collect_fields l ++ collect_fields r) (fields_of C.fields) ≡ true)
  unfolding fields_apply
  visit-Saw_both l r seen x y (hl, kl) (hr, kr) = (
    λ s.
        or_append (elem seen s) (elem x.1 s) (elem y.1 s) (collect_fields l) (collect_fields r) s
          (hl s) (hr s),
    rw (all-append (elem (fields_of C.fields)) (collect_fields l) (collect_fields r), kl, kr) refl,
  )

  visit-Saw :
      (e : FilterNode) (seen : List Text) (a : Node Q.Expr × List Text)
      → visit Q C e seen ≡ ok a
      → Saw e seen a
  unfolding visit collect_fields fields_apply
  visit-Saw (literal v) seen a h =
      let (n, hn, ha) = bind-eq-ok (visit_literal Q C v) _ a h in
      subst (Saw (literal v) seen) (ok-injective _ a ha) (λ s. ground arith, refl)
  visit-Saw (property name) seen a h =
      let (n, hn, ha) = bind-eq-ok (visit_property Q C (to_ascii_lowercase name)) _ a h in
      subst (Saw (property name) seen) (ok-injective _ a ha) (
        λ s. elem-insert_name (to_ascii_lowercase name) seen s ∙ ground arith,
        rw (property-known (to_ascii_lowercase name) n hn) refl,
      )
  visit-Saw (function_call f args) seen a h = cc
  visit-Saw (binary l op r) seen a h =
      let (x, hx, k) = bind-eq-ok (visit Q C l seen) _ a h in
      let (y, hy, k1) = bind-eq-ok (visit Q C r x.1) _ a k in
      let (n, hn, ha) = bind-eq-ok (compare_nodes Q C x.0 op y.0) _ a k1 in
      subst (Saw (binary l op r) seen) (ok-injective _ a ha)
        (visit-Saw_both l r seen x y (visit-Saw l seen x hx) (visit-Saw r x.1 y hy))
  visit-Saw (logical l op r) seen a h =
      let (x, hx, k) = bind-eq-ok (visit Q C l seen) _ a h in
      let (p, hp, k1) = bind-eq-ok (into_predicate Q x.0) _ a k in
      let (y, hy, k2) = bind-eq-ok (visit Q C r x.1) _ a k1 in
      let (q, hq, ha) = bind-eq-ok (into_predicate Q y.0) _ a k2 in
      subst (Saw (logical l op r) seen) (ok-injective _ a ha)
        (visit-Saw_both l r seen x y (visit-Saw l seen x hx) (visit-Saw r x.1 y hy))
  visit-Saw (unary not_op r) seen a h =
      let (x, hx, k) = bind-eq-ok (visit Q C r seen) _ a h in
      let (p, hp, ha) = bind-eq-ok (into_predicate Q x.0) _ a k in
      subst (Saw (unary not_op r) seen) (ok-injective _ a ha) (visit-Saw r seen x hx)
  visit-Saw (like l glob) seen a h =
      let (x, hx, k) = bind-eq-ok (visit Q C l seen) _ a h in
      let (n, hn, ha) = bind-eq-ok (visit_subject Q C like_expects_field x.0 _) _ a k in
      subst (Saw (like l glob) seen) (ok-injective _ a ha) (visit-Saw l seen x hx)
  visit-Saw (matches l pattern) seen a h =
      let (x, hx, k) = bind-eq-ok (visit Q C l seen) _ a h in
      let (n, hn, ha) = bind-eq-ok (visit_subject Q C matches_expects_field x.0 pattern) _ a k in
      subst (Saw (matches l pattern) seen) (ok-injective _ a ha) (visit-Saw l seen x hx)

  -- A query that the agent takes has referenced exactly the fields that the dashboard collects from
  -- its tree, and each of them is a field that the dashboard takes the endpoint to know.
  pub compile_tree-collect_fields :
      (e : FilterNode) (c : CompiledFilter Q C)
      → compile_tree Q C e ≡ ok c
      → ((s : Text) → elem c.referenced s ≡ elem (collect_fields e) s)
        × (fields_apply (collect_fields e) (fields_of C.fields) ≡ true)
  unfolding compile_tree
  compile_tree-collect_fields e c h =
      let (a, ha, k) = bind-eq-ok (visit Q C e []) _ c h in
      let (p, hp, hc) = bind-eq-ok (into_predicate Q a.0) _ c k in
      subst
        (λ (x : CompiledFilter Q C).
          ((s : Text) → elem x.referenced s ≡ elem (collect_fields e) s)
          × (fields_apply (collect_fields e) (fields_of C.fields) ≡ true))
        (ok-injective _ c hc) (visit-Saw e [] a ha)
