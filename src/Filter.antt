-- ===== src/Filter.antt =====
-- The queries of the dashboard: expressions of the filter language (the crate filt-rs) and what both
-- ends do with them. agent/src/analytics/filter.rs compiles one into a predicate on data model_frames,
-- ui/src/filters.rs takes one apart into chips. The trees are those that the crate's visitor
-- presents; its parser is an argument.
pub mod Columns
pub mod Predicate
pub mod Node
pub mod GlobRegex
pub mod Comparison
pub mod Compile
pub mod Projects
pub mod Meaning
pub mod Means
pub mod TextRelations
pub mod Relations
pub mod Nodes
pub mod Refines
use analytics.Common.{Bool, List, [], ◌∷◌, Text}

mutual
  -- `other` stands for the kinds of value that no branch of the code names.
  pub data FilterValue : Type 0 where
    null : FilterValue
    bool : Bool → FilterValue
    string : Text → FilterValue
    tuple : FilterValues → FilterValue
    other : Text → FilterValue

  pub data FilterValues : Type 0 where
    no_values : FilterValues
    value : FilterValue → FilterValues → FilterValues

pub data BinaryOperator : Type 0 where
  equals not_equals greater_than greater_equal smaller_than smaller_equal : BinaryOperator
  contains contains_cs in_list in_cs : BinaryOperator
  starts_with starts_with_cs ends_with ends_with_cs plus minus : BinaryOperator

pub data LogicalOperator : Type 0 where
  and_op or_op : LogicalOperator

pub data UnaryOperator : Type 0 where
  not_op : UnaryOperator

-- A pattern of `like`, and whether it is case-sensitive.
pub record Glob : Type 0 where
  pub pattern : Text
  pub case_sensitive : Bool

mutual
  pub data FilterNode : Type 0 where
    literal : FilterValue → FilterNode
    property : Text → FilterNode
    function_call : Text → FilterNodes → FilterNode
    binary : FilterNode → BinaryOperator → FilterNode → FilterNode
    logical : FilterNode → LogicalOperator → FilterNode → FilterNode
    unary : UnaryOperator → FilterNode → FilterNode
    like : FilterNode → Glob → FilterNode
    matches : FilterNode → Text → FilterNode

  pub data FilterNodes : Type 0 where
    no_args : FilterNodes
    arg : FilterNode → FilterNodes → FilterNodes
