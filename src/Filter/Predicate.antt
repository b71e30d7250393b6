-- ===== src/Filter/Predicate.antt =====
-- The expressions of polars that filter.rs builds, as an interface: the calls it makes, and what the
-- documentation says of their value on a row. A null is neither true nor false: a comparison with it
-- is null, and `and`, `or` and `not` are those of Kleene's logic.
use analytics.Common.{
  Bool, true, false, not, Option, none, some, List, ◌≡◌, Text, text_eq, any, starts_with, contains,
  ends_with,
}

pub data Cell : Type 0 where
  null : Cell
  text : Text → Cell
  flag : Bool → Cell

-- A value of a Boolean expression, and of a column of text.
abbrev pub truth : Option Bool → Cell
truth none = null
truth (some b) = flag b

abbrev pub of_text : Option Text → Cell
of_text none = null
of_text (some s) = text s

abbrev pub is_empty_cell : Cell → Bool
is_empty_cell null = true
is_empty_cell _ = false

abbrev pub or_default : Bool → Option Bool → Bool
or_default b none = b
or_default b (some c) = c

abbrev pub not3 : Option Bool → Option Bool
not3 none = none
not3 (some b) = some (not b)

abbrev pub and3 : Option Bool → Option Bool → Option Bool
and3 (some false) b = some false
and3 a (some false) = some false
and3 (some true) (some true) = some true
and3 _ _ = none

abbrev pub or3 : Option Bool → Option Bool → Option Bool
or3 (some true) b = some true
or3 a (some true) = some true
or3 (some false) (some false) = some false
or3 _ _ = none

abbrev pub lift_option {ℓ κ} : {A : Type ℓ} {B : Type κ} → (A → B) → Option A → Option B
lift_option f none = none
lift_option f (some a) = some (f a)

abbrev pub map2_option {ℓ κ μ} :
    {A : Type ℓ} {B : Type κ} {C : Type μ} → (A → B → C) → Option A → Option B → Option C
map2_option f (some a) (some b) = some (f a b)
map2_option f _ _ = none

abbrev pub same : Bool → Bool → Bool
same true b = b
same false b = not b

abbrev pub elem : List Text → Text → Bool
elem xs s = any (text_eq s) xs

abbrev pub has_prefix : Text → Text → Bool
has_prefix p s = starts_with p s

abbrev pub has_infix : Text → Text → Bool
has_infix p s = contains p s

abbrev pub has_suffix : Text → Text → Bool
has_suffix p s = ends_with p s

-- `Polars`: its Expr, the constructors, and `eval` of one at a row that gives each column a cell.
-- The last two fields are the case folding and the regular expressions that it applies.
pub record Polars : Type 1 where
  pub Expr : Type 0
  pub col : Text → Expr
  pub lit_text : Text → Expr
  pub lit_bool : Bool → Expr
  pub is_null : Expr → Expr
  pub is_not_null : Expr → Expr
  pub fill_null : Bool → Expr → Expr
  pub negate : Expr → Expr
  pub and : Expr → Expr → Expr
  pub or : Expr → Expr → Expr
  pub eq : Expr → Expr → Expr
  pub neq : Expr → Expr → Expr
  pub to_lowercase : Expr → Expr
  pub is_in_values : Expr → List Text → Expr
  pub contains_literal : Expr → Text → Expr
  pub starts_with : Expr → Text → Expr
  pub ends_with : Expr → Text → Expr
  pub contains : Expr → Text → Expr
  pub eval : (Text → Cell) → Expr → Cell
  pub lower : Text → Text
  pub is_match : Text → Text → Bool
  pub eval-col : (row : Text → Cell) (c : Text) → eval row (col c) ≡ row c
  pub eval-lit_text : (row : Text → Cell) (s : Text) → eval row (lit_text s) ≡ text s
  pub eval-lit_bool : (row : Text → Cell) (b : Bool) → eval row (lit_bool b) ≡ flag b
  pub eval-is_null :
      (row : Text → Cell) (e : Expr) → eval row (is_null e) ≡ flag (is_empty_cell (eval row e))
  pub eval-is_not_null :
      (row : Text → Cell) (e : Expr)
      → eval row (is_not_null e) ≡ flag (not (is_empty_cell (eval row e)))
  pub eval-fill_null :
      (row : Text → Cell) (b : Bool) (e : Expr) (o : Option Bool)
      → eval row e ≡ truth o
      → eval row (fill_null b e) ≡ flag (or_default b o)
  pub eval-negate :
      (row : Text → Cell) (e : Expr) (o : Option Bool)
      → eval row e ≡ truth o
      → eval row (negate e) ≡ truth (not3 o)
  pub eval-and :
      (row : Text → Cell) (e f : Expr) (o p : Option Bool)
      → eval row e ≡ truth o
      → eval row f ≡ truth p
      → eval row (and e f) ≡ truth (and3 o p)
  pub eval-or :
      (row : Text → Cell) (e f : Expr) (o p : Option Bool)
      → eval row e ≡ truth o
      → eval row f ≡ truth p
      → eval row (or e f) ≡ truth (or3 o p)
  pub eval-eq :
      (row : Text → Cell) (e f : Expr) (o p : Option Text)
      → eval row e ≡ of_text o
      → eval row f ≡ of_text p
      → eval row (eq e f) ≡ truth (map2_option text_eq o p)
  pub eval-neq :
      (row : Text → Cell) (e f : Expr) (o p : Option Text)
      → eval row e ≡ of_text o
      → eval row f ≡ of_text p
      → eval row (neq e f) ≡ truth (not3 (map2_option text_eq o p))
  pub eval-eq_bool :
      (row : Text → Cell) (e f : Expr) (o p : Option Bool)
      → eval row e ≡ truth o
      → eval row f ≡ truth p
      → eval row (eq e f) ≡ truth (map2_option same o p)
  pub eval-neq_bool :
      (row : Text → Cell) (e f : Expr) (o p : Option Bool)
      → eval row e ≡ truth o
      → eval row f ≡ truth p
      → eval row (neq e f) ≡ truth (not3 (map2_option same o p))
  pub eval-to_lowercase :
      (row : Text → Cell) (e : Expr) (o : Option Text)
      → eval row e ≡ of_text o
      → eval row (to_lowercase e) ≡ of_text (lift_option lower o)
  pub eval-is_in_values :
      (row : Text → Cell) (e : Expr) (xs : List Text) (o : Option Text)
      → eval row e ≡ of_text o
      → eval row (is_in_values e xs) ≡ truth (lift_option (elem xs) o)
  pub eval-contains_literal :
      (row : Text → Cell) (e : Expr) (s : Text) (o : Option Text)
      → eval row e ≡ of_text o
      → eval row (contains_literal e s) ≡ truth (lift_option (has_infix s) o)
  pub eval-starts_with :
      (row : Text → Cell) (e : Expr) (s : Text) (o : Option Text)
      → eval row e ≡ of_text o
      → eval row (starts_with e s) ≡ truth (lift_option (has_prefix s) o)
  pub eval-ends_with :
      (row : Text → Cell) (e : Expr) (s : Text) (o : Option Text)
      → eval row e ≡ of_text o
      → eval row (ends_with e s) ≡ truth (lift_option (has_suffix s) o)
  pub eval-contains :
      (row : Text → Cell) (e : Expr) (s : Text) (o : Option Text)
      → eval row e ≡ of_text o
      → eval row (contains e s) ≡ truth (lift_option (is_match s) o)
