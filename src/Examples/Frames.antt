-- ===== src/Examples/Frames.antt =====
-- A model of the expressions of data model_frames: trees, and their value on a row.
use analytics.Common.{
  Bool, not, Option, none, some, List, Text, text_eq, ◌≡◌, refl, ap, ◌∙◌, to_ascii_lowercase,
}
use analytics.Filter.Predicate.{
  Polars, Cell, text, flag, truth, of_text, not3, and3, or3, lift_option, map2_option, or_default,
  same, elem, has_prefix, has_infix, has_suffix, is_empty_cell,
}

pub data Frame : Type 0 where
  col : Text → Frame
  lit_text : Text → Frame
  lit_bool : Bool → Frame
  is_null is_not_null negate lowered : Frame → Frame
  or_value : Bool → Frame → Frame
  both either equal unequal : Frame → Frame → Frame
  among : Frame → List Text → Frame
  has inside prefix suffix : Frame → Text → Frame

abbrev as_truth : Cell → Option Bool
as_truth (flag b) = some b
as_truth _ = none

abbrev as_text : Cell → Option Text
as_text (text s) = some s
as_text _ = none

abbrev equal_cells : Cell → Cell → Option Bool
equal_cells (text s) (text t) = some (text_eq s t)
equal_cells (flag a) (flag b) = some (same a b)
equal_cells _ _ = none

abbrev pub eval : (Text → Cell) → Frame → Cell
eval row (col c) = row c
eval row (lit_text s) = text s
eval row (lit_bool b) = flag b
eval row (is_null e) = flag (is_empty_cell (eval row e))
eval row (is_not_null e) = flag (not (is_empty_cell (eval row e)))
eval row (negate e) = truth (not3 (as_truth (eval row e)))
eval row (lowered e) = of_text (lift_option to_ascii_lowercase (as_text (eval row e)))
eval row (or_value b e) = flag (or_default b (as_truth (eval row e)))
eval row (both e f) = truth (and3 (as_truth (eval row e)) (as_truth (eval row f)))
eval row (either e f) = truth (or3 (as_truth (eval row e)) (as_truth (eval row f)))
eval row (equal e f) = truth (equal_cells (eval row e) (eval row f))
eval row (unequal e f) = truth (not3 (equal_cells (eval row e) (eval row f)))
eval row (among e xs) = truth (lift_option (elem xs) (as_text (eval row e)))
eval row (has e s) = truth (lift_option (text_eq s) (as_text (eval row e)))
eval row (inside e s) = truth (lift_option (has_infix s) (as_text (eval row e)))
eval row (prefix e s) = truth (lift_option (has_prefix s) (as_text (eval row e)))
eval row (suffix e s) = truth (lift_option (has_suffix s) (as_text (eval row e)))

pub as_truth-truth : (o : Option Bool) → as_truth (truth o) ≡ o
as_truth-truth none = refl
as_truth-truth (some b) = refl

pub as_text-of_text : (o : Option Text) → as_text (of_text o) ≡ o
as_text-of_text none = refl
as_text-of_text (some s) = refl

pub equal_texts :
    (o p : Option Text) → equal_cells (of_text o) (of_text p) ≡ map2_option text_eq o p
equal_texts none p = refl
equal_texts (some s) none = refl
equal_texts (some s) (some t) = refl

pub equal_flags : (o p : Option Bool) → equal_cells (truth o) (truth p) ≡ map2_option same o p
equal_flags none p = refl
equal_flags (some s) none = refl
equal_flags (some s) (some t) = refl

-- A call on a column of text.
pub of_column :
    (f : Text → Bool) (c : Cell) (o : Option Text)
    → c ≡ of_text o
    → truth (lift_option f (as_text c)) ≡ truth (lift_option f o)
of_column f c o h = ap (λ x. truth (lift_option f x)) (ap as_text h ∙ as_text-of_text o)

abbrev pub model_frames : Polars
model_frames = record {
  Expr = Frame;
  col = col;
  lit_text = lit_text;
  lit_bool = lit_bool;
  is_null = is_null;
  is_not_null = is_not_null;
  fill_null = or_value;
  negate = negate;
  and = both;
  or = either;
  eq = equal;
  neq = unequal;
  to_lowercase = lowered;
  is_in_values = among;
  contains_literal = inside;
  starts_with = prefix;
  ends_with = suffix;
  contains = has;
  eval = eval;
  lower = to_ascii_lowercase;
  is_match = text_eq;
  eval-col = λ row c. refl;
  eval-lit_text = λ row s. refl;
  eval-lit_bool = λ row b. refl;
  eval-is_null = λ row e. refl;
  eval-is_not_null = λ row e. refl;
  eval-fill_null =
      λ row b e o h. ap (λ x. flag (or_default b x)) (ap as_truth h ∙ as_truth-truth o);
  eval-negate = λ row e o h. ap (λ x. truth (not3 x)) (ap as_truth h ∙ as_truth-truth o);
  eval-and = λ row e f o p h k. rw (h, k, as_truth-truth o, as_truth-truth p) refl;
  eval-or = λ row e f o p h k. rw (h, k, as_truth-truth o, as_truth-truth p) refl;
  eval-eq = λ row e f o p h k. rw (h, k, equal_texts o p) refl;
  eval-neq = λ row e f o p h k. rw (h, k, equal_texts o p) refl;
  eval-eq_bool = λ row e f o p h k. rw (h, k, equal_flags o p) refl;
  eval-neq_bool = λ row e f o p h k. rw (h, k, equal_flags o p) refl;
  eval-to_lowercase = λ row e o h.
      ap (λ x. of_text (lift_option to_ascii_lowercase x)) (ap as_text h ∙ as_text-of_text o);
  eval-is_in_values = λ row e xs o h. of_column (elem xs) (eval row e) o h;
  eval-contains_literal = λ row e s o h. of_column (has_infix s) (eval row e) o h;
  eval-starts_with = λ row e s o h. of_column (has_prefix s) (eval row e) o h;
  eval-ends_with = λ row e s o h. of_column (has_suffix s) (eval row e) o h;
  eval-contains = λ row e s o h. of_column (text_eq s) (eval row e) o h;
}
