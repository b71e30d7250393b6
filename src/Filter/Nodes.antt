-- ===== src/Filter/Nodes.antt =====
-- What a node of the fold means, kind by kind of the tree that it came from.
use analytics.Common.{
  Bool, true, false, not, Option, none, some, List, [], ◌∷◌, Text, codes, text_eq,
  to_ascii_lowercase, if◌then◌else◌, ◌≡◌, refl, sym, ◌∙◌, ap, ◌++◌, subst,
}
use analytics.Filter.Columns.{FieldSet, dashboard, exceptions, Field, column, find_field}
use analytics.Filter.Predicate.{Polars, lift_option, lift_option, or_default}
use analytics.Filter.Comparison.{Compiler}
use analytics.Filter.Meaning.{EventRow, cells, is_absent, relation, matched, condition}
use analytics.Filter.Means.{Means, MayMean, FieldCell, present-Means}
use analytics.Filter.Node.{Node, predicate, field, project, str, list, null}
use analytics.Filter.{FilterNode}
use analytics.Filter.Comparison.{comparison}
use analytics.Filter.Meaning.{is_typed_relation}
use analytics.Common.{All}
use analytics.Filter.{
  BinaryOperator, FilterValue, bool, string, tuple, other, literal, property, binary,
}
use analytics.Filter.Columns.{common_fields, own_fields}
use analytics.Filter.Node.{
  Kind, Rejection, Fold, ok, bind-eq-ok, ok-injective, list_items, is_operand_literal,
}
use analytics.Filter.Comparison.{into_predicate, compare_nodes, or_reject}
use analytics.Filter.Compile.{visit_literal, visit_property, visit_subject, node_of}
use analytics.Filter.Meaning.{
  operand, meaning, is_typed_subject, is_typed_pair, compared, field_or_null, items_or_null,
}
use analytics.Filter.Relations.{leaf_as, CellOf, text_cell, handled_cell, comparison-MayMean}

find_field-All :
    (P : Field → Type 0) (name : Text) (table : List (Text × Field)) (f : Field)
    → All (λ (e : Text × Field). P e.1) table
    → find_field name table ≡ some f
    → P f
unfolding find_field
find_field-All P name [] f h e = cc
find_field-All P name ((n, g) ∷ rest) f (p, ps) e =
    go (text_eq n name) e (find_field-All P name rest f ps)
  where
    go :
        (b : Bool)
        → (if b then some g else find_field name rest) ≡ some f
        → (find_field name rest ≡ some f → P f)
        → P f
    go true e k = subst P (cc) p
    go false e k = k e

module _ (Q : Polars) (C : Compiler) (r : EventRow) where
  column-FieldCell :
      (fs : FieldSet) (name : Text) (f : Field) → column fs name ≡ some f → FieldCell Q C r f
  unfolding column cells text_eq
  column-FieldCell dashboard name f e =
      find_field-All (FieldCell Q C r) name (common_fields ++ own_fields dashboard) f
        (
          refl,
          (
            refl,
            (
              refl,
              (refl, (refl, (refl, (refl, (refl, (refl, (refl, (refl, (refl, (refl, tt)))))))))),
            ),
          ),
        )
        e
  column-FieldCell exceptions name f e =
      find_field-All (FieldCell Q C r) name (common_fields ++ own_fields exceptions) f
        (refl, (refl, (refl, (refl, (refl, (refl, (refl, (refl, (refl, (refl, tt)))))))))) e

  abbrev pub NodeMeans : FilterNode → Node Q.Expr → Type 0
  NodeMeans e (predicate p) = Means Q C r p (meaning Q C r e)
  NodeMeans e n = CellOf Q C r n

  abbrev pub NodePost : FilterNode → Node Q.Expr → Type 0
  NodePost e n = (operand C.fields e ≡ leaf_as e n) × NodeMeans e n

  bare :
      (f : Field)
      → FieldCell Q C r f
      → (b : Bool) → f.boolean ≡ b
      → Means Q C r
          (if b
            then Q.fill_null false (Q.col f.column)
            else Q.and (Q.is_not_null (Q.col f.column)) (Q.neq (Q.col f.column) (Q.lit_text [])))
          (some (if b then or_default false r.handled else not (is_absent (r.dimension f.column))))
  bare f hc true hb =
      Q.eval-fill_null (cells r) false (Q.col f.column) r.handled (handled_cell Q C r f hc hb)
  bare f hc false hb = present-Means Q C r f.column (r.dimension f.column) (text_cell Q C r f hc hb)

  pub into_predicate-Means :
      (e : FilterNode) (n : Node Q.Expr) (p : Q.Expr)
      → NodePost e n
      → into_predicate Q n ≡ ok p
      → Means Q C r p (condition Q C r (operand C.fields e) (meaning Q C r e))
  unfolding into_predicate condition
  into_predicate-Means e n p (same_leaf, means) h =
      subst (λ x. Means Q C r p (condition Q C r x (meaning Q C r e))) (sym same_leaf)
        (go n means h)
    where
      go :
          (n : Node Q.Expr)
          → NodeMeans e n
          → into_predicate Q n ≡ ok p
          → Means Q C r p (condition Q C r (leaf_as e n) (meaning Q C r e))
      go (predicate q) m h = subst (λ x. Means Q C r x (meaning Q C r e)) (ok-injective q p h) m
      go (field f) m h =
          subst
            (λ x. Means Q C r x (
              some (
                if f.boolean
                then or_default false r.handled
                else not (is_absent (r.dimension f.column)))))
            (ok-injective _ p h) (bare f m f.boolean refl)
      go (Node.flag b) m h =
          subst (λ x. Means Q C r x (some b)) (ok-injective _ p h) (Q.eval-lit_bool (cells r) b)
      go project m h = cc
      go (str s) m h = cc
      go (list s) m h = cc
      go null m h = cc

  pub literal-NodePost :
      (v : FilterValue) (n : Node Q.Expr) → visit_literal Q C v ≡ ok n → NodePost (literal v) n
  unfolding visit_literal operand
  literal-NodePost FilterValue.null n h =
      subst (NodePost (literal FilterValue.null)) (ok-injective _ n h) (refl, tt)
  literal-NodePost (bool b) n h =
      subst (NodePost (literal (bool b))) (ok-injective _ n h) (refl, tt)
  literal-NodePost (string s) n h =
      subst (NodePost (literal (string s))) (ok-injective _ n h) (refl, tt)
  literal-NodePost (tuple vs) n h =
      let (items, he, hn) = bind-eq-ok (list_items vs) _ n h in
      subst (NodePost (literal (tuple vs))) (ok-injective _ n hn) (ap items_or_null he, tt)
  literal-NodePost (other t) n h = cc

  pub property-NodePost :
      (name : Text) (n : Node Q.Expr)
      → visit_property Q C (to_ascii_lowercase name) ≡ ok n
      → NodePost (property name) n
  unfolding visit_property operand
  property-NodePost name n h =
      go (text_eq (to_ascii_lowercase name) (codes "project"))
        (column C.fields (to_ascii_lowercase name)) refl h
    where
      go :
          (b : Bool) (o : Option Field)
          → column C.fields (to_ascii_lowercase name) ≡ o
          → (if b then ok project else node_of Q C (to_ascii_lowercase name) o) ≡ ok n
          → ((if b then project else field_or_null o) ≡ leaf_as (property name) n)
            × NodeMeans (property name) n
      go true o e h =
          subst (λ m. (project ≡ leaf_as (property name) m) × NodeMeans (property name) m)
            (ok-injective _ n h) (refl, tt)
      go false none e h = cc
      go false (some f) e h =
          subst (λ m. (field f ≡ leaf_as (property name) m) × NodeMeans (property name) m)
            (ok-injective _ n h) (refl, column-FieldCell C.fields _ f e)

  pub predicate-NodePost :
      (e : FilterNode) (p : Q.Expr) (n : Node Q.Expr)
      → operand C.fields e ≡ predicate e
      → Means Q C r p (meaning Q C r e)
      → ◌≡◌ {A = Fold (Node Q.Expr)} (ok (predicate p)) (ok n)
      → NodePost e n
  predicate-NodePost e p n hl m h = subst (NodePost e) (ok-injective (predicate p) n h) (hl, m)

  pub subject-NodePost :
      (e l : FilterNode) (a n : Node Q.Expr) (why : Kind → Rejection) (pattern : Text)
      → NodePost l a
      → operand C.fields e ≡ predicate e
      → meaning Q C r e ≡ matched Q C r (operand C.fields l) pattern
      → is_typed_subject (operand C.fields l) ≡ true
      → visit_subject Q C why a pattern ≡ ok n
      → NodePost e n
  unfolding visit_subject is_typed_subject matched
  subject-NodePost e l (field f) n why pattern (leaf, hc) hl hm ht h =
      predicate-NodePost e _ n hl
        (subst (Means Q C r (Q.contains (Q.col f.column) pattern)) (sym hm)
          (go (operand C.fields l) leaf ht))
        h
    where
      text :
          f.boolean ≡ false
          → Means Q C r
              (Q.contains (Q.col f.column) pattern)
              (lift_option (Q.is_match pattern) (r.dimension f.column))
      text hb = Q.eval-contains (cells r) _ pattern (r.dimension f.column) (text_cell Q C r f hc hb)

      given :
          (b : Bool)
          → f.boolean ≡ b
          → not b ≡ true
          → Means Q C r
              (Q.contains (Q.col f.column) pattern)
              (if b then none else lift_option (Q.is_match pattern) (r.dimension f.column))
      given true hb k = cc
      given false hb k = text hb

      go :
          (o : Node FilterNode)
          → o ≡ field f
          → is_typed_subject o ≡ true
          → Means Q C r (Q.contains (Q.col f.column) pattern) (matched Q C r o pattern)
      go o ho k =
          subst
            (λ x.
              is_typed_subject x ≡ true
              → Means Q C r (Q.contains (Q.col f.column) pattern) (matched Q C r x pattern))
            (sym ho) (λ k. given f.boolean refl k) k
  subject-NodePost e l (predicate p) n why pattern post hl hm ht h = cc
  subject-NodePost e l project n why pattern post hl hm ht h = cc
  subject-NodePost e l (str s) n why pattern post hl hm ht h = cc
  subject-NodePost e l (Node.flag b) n why pattern post hl hm ht h = cc
  subject-NodePost e l (list vs) n why pattern post hl hm ht h = cc
  subject-NodePost e l null n why pattern post hl hm ht h = cc

  or_reject-Means :
      (a b : Node Q.Expr) (op : BinaryOperator) (c : Option Q.Expr) (o : Option Bool)
      (n : Node Q.Expr)
      → MayMean Q C r c o
      → or_reject Q C a op b c ≡ ok n
      → (p : Q.Expr) × (predicate p ≡ n) × Means Q C r p o
  or_reject-Means a b op none o n m h = cc
  or_reject-Means a b op (some p) o n m h = (p, ok-injective _ n h, m)

  literal_leaf :
      (d : FilterNode) (a : Node Q.Expr) → is_operand_literal (leaf_as d a) ≡ is_operand_literal a
  literal_leaf d (predicate _) = refl
  literal_leaf d (field f) = refl
  literal_leaf d project = refl
  literal_leaf d (str s) = refl
  literal_leaf d (Node.flag b) = refl
  literal_leaf d (list vs) = refl
  literal_leaf d null = refl

  NodeMeans-CellOf : (d : FilterNode) (a : Node Q.Expr) → NodeMeans d a → CellOf Q C r a
  NodeMeans-CellOf d (predicate _) m = tt
  NodeMeans-CellOf d (field f) m = m
  NodeMeans-CellOf d project m = m
  NodeMeans-CellOf d (str s) m = m
  NodeMeans-CellOf d (Node.flag b) m = m
  NodeMeans-CellOf d (list vs) m = m
  NodeMeans-CellOf d null m = m

  -- A comparison of operands that stand for the leaves of a tree.
  compare_nodes-Means :
      (d s : FilterNode) (a b n : Node Q.Expr) (op : BinaryOperator)
      → NodeMeans d a
      → NodeMeans s b
      → is_typed_pair (leaf_as d a) op (leaf_as s b) ≡ true
      → compare_nodes Q C a op b ≡ ok n
      → (p : Q.Expr) × (predicate p ≡ n)
        × Means Q C r p (compared Q C r (leaf_as d a) op (leaf_as s b))
  unfolding compare_nodes
  compare_nodes-Means d s a b n op ma mb ht h =
      go (is_operand_literal a) (is_operand_literal (leaf_as d a)) (literal_leaf d a) ht h
    where
      Goal : Option Bool → Type 0
      Goal o = (p : Q.Expr) × (predicate p ≡ n) × Means Q C r p o

      go :
          (x y : Bool)
          → y ≡ x
          → (if y
              then is_typed_relation (leaf_as s b) op (leaf_as d a)
              else is_typed_relation (leaf_as d a) op (leaf_as s b))
            ≡ true
          → (if x
              then or_reject Q C b op a (comparison Q C b op a)
              else or_reject Q C a op b (comparison Q C a op b))
            ≡ ok n
          → Goal (
              if y
              then relation Q C r (leaf_as s b) op (leaf_as d a)
              else relation Q C r (leaf_as d a) op (leaf_as s b))
      go true true e t k =
          or_reject-Means b a op _ _ n
            (comparison-MayMean Q C r s d b a op (NodeMeans-CellOf s b mb) t) k
      go false false e t k =
          or_reject-Means a b op _ _ n
            (comparison-MayMean Q C r d s a b op (NodeMeans-CellOf d a ma) t) k
      go true false e t k = cc
      go false true e t k = cc

  pub binary-NodePost :
      (d s : FilterNode) (a b n : Node Q.Expr) (op : BinaryOperator)
      → NodePost d a
      → NodePost s b
      → is_typed_pair (operand C.fields d) op (operand C.fields s) ≡ true
      → compare_nodes Q C a op b ≡ ok n
      → NodePost (binary d op s) n
  unfolding operand meaning
  binary-NodePost d s a b n op (la, ma) (lb, mb) ht h =
      let (p, hp, m) = compare_nodes-Means d s a b n op ma mb (rw (la, lb) at ht) h in
      subst (NodePost (binary d op s)) hp (
        refl,
        subst (λ x. Means Q C r p x)
            (ap (λ x. compared Q C r x op (leaf_as s b)) (sym la)
              ∙ ap (λ x. compared Q C r (operand C.fields d) op x) (sym lb))
            m,
      )
