-- ===== src/Filter/Node.antt =====
-- agent/src/analytics/filter.rs: the values of the fold, its errors, and the literals. A rejection
-- carries what its message names.
use analytics.Common.{◌≡◌, refl, Bool, true, false, List, [], ◌∷◌, Text, if◌then◌else◌}
use analytics.Filter.{FilterValue, string, FilterValues, no_values, value, BinaryOperator}
use analytics.Filter.Columns.{Field}
use analytics.Filter.Predicate.{elem}

pub data Node (E : Type 0) : Type 0 where
  predicate : E → Node E
  field : Field → Node E
  project : Node E
  str : Text → Node E
  flag : Bool → Node E
  list : List Text → Node E
  null : Node E

-- `describe`
pub data Kind : Type 0 where
  a_condition a_field project a_string a_boolean a_list null : Kind

abbrev pub describe : {E : Type 0} → Node E → Kind
describe (predicate _) = a_condition
describe (field _) = a_field
describe project = project
describe (str _) = a_string
describe (flag _) = a_boolean
describe (list _) = a_list
describe null = null

-- The messages of the source, in its order.
pub data Rejection : Type 0 where
  project_alone no_condition : Rejection
  list_item unsupported_literal : FilterValue → Rejection
  unknown_field : Text → Rejection
  no_functions : Text → Rejection
  no_ordering no_arithmetic : Kind → Rejection
  cannot_apply : BinaryOperator → Kind → Kind → Rejection
  like_expects_field matches_expects_field : Kind → Rejection
  syntax : Text → Rejection

pub data Fold {ℓ} (A : Type ℓ) : Type ℓ where
  ok : A → Fold A
  err : Rejection → Fold A

infixl 5 ◌>>=◌
abbrev pub ◌>>=◌ {ℓ κ} : {A : Type ℓ} {B : Type κ} → Fold A → (A → Fold B) → Fold B
ok a >>= f = f a
err e >>= f = err e

abbrev cons_item : Text → Fold (List Text) → Fold (List Text)
cons_item s (ok items) = ok (s ∷ items)
cons_item s (err e) = err e

-- The items of a list literal, up to the first that is no string.
unfoldable pub list_items : FilterValues → Fold (List Text)
list_items no_values = ok []
list_items (value (string s) rest) = cons_item s (list_items rest)
list_items (value v _) = err (list_item v)

-- `HashSet::insert`, on a list without repetition.
abbrev pub insert_name : Text → List Text → List Text
insert_name name names = if elem names name then names else name ∷ names

-- The last branch of `visit_binary`.
abbrev pub reject : {E : Type 0} → Node E → BinaryOperator → Node E → Rejection
reject subject BinaryOperator.greater_than _ = no_ordering (describe subject)
reject subject BinaryOperator.greater_equal _ = no_ordering (describe subject)
reject subject BinaryOperator.smaller_than _ = no_ordering (describe subject)
reject subject BinaryOperator.smaller_equal _ = no_ordering (describe subject)
reject subject BinaryOperator.plus _ = no_arithmetic (describe subject)
reject subject BinaryOperator.minus _ = no_arithmetic (describe subject)
reject subject operator object = cannot_apply operator (describe subject) (describe object)

abbrev pub is_operand_literal : {E : Type 0} → Node E → Bool
is_operand_literal (str _) = true
is_operand_literal (list _) = true
is_operand_literal null = true
is_operand_literal (flag _) = true
is_operand_literal _ = false

-- A successful chain has a successful first step.
pub bind-eq-ok {ℓ κ} :
    {A : Type ℓ} {B : Type κ} (m : Fold A) (f : A → Fold B) (b : B)
    → (m >>= f) ≡ ok b
    → (a : A) × (m ≡ ok a) × (f a ≡ ok b)
bind-eq-ok (ok a) f b h = (a, refl, h)
bind-eq-ok (err e) f b h = cc

pub ok-injective {ℓ} : {A : Type ℓ} (a b : A) → ◌≡◌ {A = Fold A} (ok a) (ok b) → a ≡ b
ok-injective a b h = cc
