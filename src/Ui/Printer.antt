-- ===== src/Ui/Printer.antt =====
-- ui/src/filters.rs: how an expression is printed, taken apart into terms, and asked for the names of
-- its fields. How the crate prints a literal and an operator is an argument.
use analytics.Common.{
  Bool, true, false, Option, none, some, List, [], ◌∷◌, ◌++◌, Text, codes, join, ◌==◌,
  to_ascii_lowercase, if◌then◌else◌,
}
use analytics.Filter.{
  FilterValue, string, BinaryOperator, equals, LogicalOperator, and_op, or_op, UnaryOperator, Glob,
  FilterNode, literal, property, function_call, binary, logical, unary, like, matches, FilterNodes,
  no_args, arg,
}
use analytics.Ui.Dims.{Dim, from_param}

-- What the crate provides: its parser (`none` where it fails), the text of its errors, and `Display`
-- and `symbol`.
pub record Crate : Type 0 where
  pub parse : Text → Option FilterNode
  pub syntax_error : Text → Text
  pub display : FilterValue → Text
  pub symbol : BinaryOperator → Text
  pub logical_symbol : LogicalOperator → Text
  pub unary_symbol : UnaryOperator → Text

-- Two replacements, of `\` and then of `"`; none of the second is in what the first inserts.
unfoldable pub escape : Text → Text
escape [] = []
escape (c ∷ s) =
    let rest = escape s in
    if c == b'\\' then b'\\' ∷ b'\\' ∷ rest else if c == b'"' then b'\\' ∷ b'"' ∷ rest else c ∷ rest

unfoldable pub quote : Text → Text
unfolding escape
quote v = b'"' ∷ (escape v ++ b'"' ∷ [])

abbrev pub parenthesised : Text → Text
parenthesised s = b'(' ∷ (s ++ b')' ∷ [])

abbrev pub spaced : Text → Text → Text → Text
spaced a op b = a ++ (codes " " ++ (op ++ (codes " " ++ b)))

-- `print_operand` puts a composite expression in parentheses.
abbrev is_atom : FilterNode → Bool
is_atom (literal _) = true
is_atom (property _) = true
is_atom (function_call _ _) = true
is_atom _ = false

abbrev pub operand_of : FilterNode → Text → Text
operand_of e text = if is_atom e then text else parenthesised text

abbrev like_keyword : Glob → Text
like_keyword glob = if glob.case_sensitive then codes "like_cs" else codes "like"

pub data Piece : Type 0 where
  term : Dim → Text → Piece
  advanced : Text → Piece

abbrev pub with_value : Option Dim → Text → Option (Dim × Text)
with_value none v = none
with_value (some d) v = some (d, v)

-- An equality of a dimension and a text is a term; every other comparison stays as it is.
abbrev pub dim_of : BinaryOperator → FilterNode → FilterNode → Option (Dim × Text)
dim_of equals (property name) (literal (string v)) =
    with_value (from_param (to_ascii_lowercase name)) v
dim_of _ _ _ = none

abbrev pub piece_of : Option (Dim × Text) → Text → Piece
piece_of none text = advanced text
piece_of (some (d, v)) text = term d v

module _ (F : Crate) where
  unfoldable mutual
    unfolding quote join

    pub print : FilterNode → Text
    print (literal v) = F.display v
    print (property name) = name
    print (function_call name args) = name ++ parenthesised (join (codes ", ") (print_args args))
    print (binary l op r) = spaced (operand_of l (print l)) (F.symbol op) (operand_of r (print r))
    print (logical l op r) =
        spaced (operand_of l (print l)) (F.logical_symbol op) (operand_of r (print r))
    print (unary op r) = F.unary_symbol op ++ operand_of r (print r)
    print (like l glob) = spaced (operand_of l (print l)) (like_keyword glob) (quote glob.pattern)
    print (matches l pattern) = spaced (operand_of l (print l)) (codes "matches") (quote pattern)

    pub print_args : FilterNodes → List Text
    print_args no_args = []
    print_args (arg e es) = print e ∷ print_args es

  -- `Decomposer`: the conjuncts of the top level.
  unfoldable pub decompose : FilterNode → List Piece
  unfolding print from_param
  decompose (logical l and_op r) = decompose l ++ decompose r
  decompose (logical l or_op r) = advanced (spaced (print l) (codes "||") (print r)) ∷ []
  decompose (binary l op r) = piece_of (dim_of op l r) (print (binary l op r)) ∷ []
  decompose e = advanced (print e) ∷ []

unfoldable mutual
  -- `FieldCollector`
  pub collect_fields : FilterNode → List Text
  collect_fields (literal _) = []
  collect_fields (property name) = to_ascii_lowercase name ∷ []
  collect_fields (function_call _ args) = collect_args args
  collect_fields (binary l _ r) = collect_fields l ++ collect_fields r
  collect_fields (logical l _ r) = collect_fields l ++ collect_fields r
  collect_fields (unary _ r) = collect_fields r
  collect_fields (like l _) = collect_fields l
  collect_fields (matches l _) = collect_fields l

  pub collect_args : FilterNodes → List Text
  collect_args no_args = []
  collect_args (arg e es) = collect_fields e ++ collect_args es
