-- ===== src/Filter/Refines.antt =====
-- The predicate that a query compiles to agrees with what the query says of an event.
use analytics.Common.{Bool, true, Option, List, [], Text, to_ascii_lowercase, ◌≡◌, refl, subst}
use analytics.Filter.Predicate.{Polars, truth}
use analytics.Filter.Comparison.{Compiler}
use analytics.Filter.Meaning.{EventRow, cells, condition}
use analytics.Filter.Means.{Means}
use analytics.Filter.Node.{Node}
use analytics.Filter.{FilterNode}
use analytics.Common.{and_parts, and_parts3}
use analytics.Filter.{
  literal, property, function_call, binary, logical, unary, like, matches, LogicalOperator, and_op,
  or_op, not_op,
}
use analytics.Filter.Node.{like_expects_field, matches_expects_field, ok, bind-eq-ok, ok-injective}
use analytics.Filter.Comparison.{into_predicate, compare_nodes}
use analytics.Filter.Compile.{
  visit, visit_literal, visit_property, visit_subject, compile_tree, CompiledFilter,
  join_predicates,
}
use analytics.Filter.Meaning.{operand, meaning, holds, is_typed, join3}
use analytics.Filter.Nodes.{
  NodePost, into_predicate-Means, literal-NodePost, property-NodePost, subject-NodePost,
  binary-NodePost,
}

module _ (Q : Polars) (C : Compiler) (r : EventRow) where
  visit-NodePost :
      (e : FilterNode) (seen : List Text) (a : Node Q.Expr × List Text)
      → is_typed C.fields e ≡ true
      → visit Q C e seen ≡ ok a
      → NodePost Q C r e a.0
  unfolding visit is_typed meaning operand
  visit-NodePost (literal v) seen a ht h =
      let (n, hn, ha) = bind-eq-ok (visit_literal Q C v) _ a h in
      subst (λ x. NodePost Q C r (literal v) x.0) (ok-injective _ a ha)
        (literal-NodePost Q C r v n hn)
  visit-NodePost (property name) seen a ht h =
      let (n, hn, ha) = bind-eq-ok (visit_property Q C (to_ascii_lowercase name)) _ a h in
      subst (λ x. NodePost Q C r (property name) x.0) (ok-injective _ a ha)
        (property-NodePost Q C r name n hn)
  visit-NodePost (function_call f args) seen a ht h = cc
  visit-NodePost (binary l op s) seen a ht h =
      let (tl, ts, tp) = and_parts3 _ _ _ ht in
      let (x, hx, k) = bind-eq-ok (visit Q C l seen) _ a h in
      let (y, hy, k') = bind-eq-ok (visit Q C s x.1) _ a k in
      let (n, hn, ha) = bind-eq-ok (compare_nodes Q C x.0 op y.0) _ a k' in
      subst (λ z. NodePost Q C r (binary l op s) z.0) (ok-injective _ a ha)
        (binary-NodePost Q C r l s x.0 y.0 n op (visit-NodePost l seen x tl hx)
          (visit-NodePost s x.1 y ts hy) tp hn)
  visit-NodePost (logical l op s) seen a ht h =
      let (tl, ts) = and_parts _ _ ht in
      let (x, hx, k) = bind-eq-ok (visit Q C l seen) _ a h in
      let (p, hp, k1) = bind-eq-ok (into_predicate Q x.0) _ a k in
      let (y, hy, k2) = bind-eq-ok (visit Q C s x.1) _ a k1 in
      let (q, hq, ha) = bind-eq-ok (into_predicate Q y.0) _ a k2 in
      subst (λ z. NodePost Q C r (logical l op s) z.0) (ok-injective _ a ha)
        (
          refl,
          joined_texts op p q _ _
              (into_predicate-Means Q C r l x.0 p (visit-NodePost l seen x tl hx) hp)
              (into_predicate-Means Q C r s y.0 q (visit-NodePost s x.1 y ts hy) hq),
        )
    where
      joined_texts :
          (op : LogicalOperator) (p q : Q.Expr) (o u : Option Bool)
          → Means Q C r p o
          → Means Q C r q u
          → Means Q C r (join_predicates Q C op p q) (join3 Q C r op o u)
      joined_texts and_op p q o u m k = Q.eval-and (cells r) p q o u m k
      joined_texts or_op p q o u m k = Q.eval-or (cells r) p q o u m k
  visit-NodePost (unary not_op s) seen a ht h =
      let (x, hx, k) = bind-eq-ok (visit Q C s seen) _ a h in
      let (p, hp, ha) = bind-eq-ok (into_predicate Q x.0) _ a k in
      subst (λ z. NodePost Q C r (unary not_op s) z.0) (ok-injective _ a ha)
        (
          refl,
          Q.eval-negate (cells r) p _
              (into_predicate-Means Q C r s x.0 p (visit-NodePost s seen x ht hx) hp),
        )
  visit-NodePost (like l glob) seen a ht h =
      let (tl, tm) = and_parts _ _ ht in
      let (x, hx, k) = bind-eq-ok (visit Q C l seen) _ a h in
      let (n, hn, ha) = bind-eq-ok (visit_subject Q C like_expects_field x.0 _) _ a k in
      subst (λ z. NodePost Q C r (like l glob) z.0) (ok-injective _ a ha)
        (subject-NodePost Q C r (like l glob) l x.0 n like_expects_field _
          (visit-NodePost l seen x tl hx) refl refl tm hn)
  visit-NodePost (matches l pattern) seen a ht h =
      let (tl, tm) = and_parts _ _ ht in
      let (x, hx, k) = bind-eq-ok (visit Q C l seen) _ a h in
      let (n, hn, ha) = bind-eq-ok (visit_subject Q C matches_expects_field x.0 pattern) _ a k in
      subst (λ z. NodePost Q C r (matches l pattern) z.0) (ok-injective _ a ha)
        (subject-NodePost Q C r (matches l pattern) l x.0 n matches_expects_field pattern
          (visit-NodePost l seen x tl hx) refl refl tm hn)

  -- A query that the compiler takes, and that treats no Boolean column as text, compiles to a
  -- predicate that is true, false or null on an event as the query is true, false or unknown of it.
  pub compile_tree-holds :
      (e : FilterNode) (c : CompiledFilter Q C)
      → compile_tree Q C e ≡ ok c
      → is_typed C.fields e ≡ true
      → Q.eval (cells r) c.predicate ≡ truth (holds Q C r e)
  unfolding compile_tree holds
  compile_tree-holds e c h ht =
      let (a, ha, k) = bind-eq-ok (visit Q C e []) _ c h in
      let (p, hp, hc) = bind-eq-ok (into_predicate Q a.0) _ c k in
      subst
        (λ (x : CompiledFilter Q C).
          Means Q C r x.predicate (condition Q C r (operand C.fields e) (meaning Q C r e)))
        (ok-injective _ c hc) (into_predicate-Means Q C r e a.0 p (visit-NodePost e [] a ht ha) hp)
