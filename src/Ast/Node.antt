-- ===== src/Ast/Node.antt =====
-- source/fastlint/ast/node.h and generated/kinds.h: the nodes of the syntax tree, as far as their
-- precedence depends on them. The operator that a node keeps in a byte stands with its kind; a kind
-- that plays no part has a number.
use fastlint.Base.{ℕ, Bool, ◌+◌, Bytes}

pub data LiteralKind : Type 0 where
  string number bigint boolean null regex : LiteralKind

pub data UnaryOperator : Type 0 where
  minus plus not_ bitwise_not typeof void_ delete : UnaryOperator

pub data UpdateOperator : Type 0 where
  increment decrement : UpdateOperator

pub data LogicalOperator : Type 0 where
  or_ and_ nullish : LogicalOperator

pub data BinaryOperator : Type 0 where
  equal not_equal strict_equal strict_not_equal less less_equal greater greater_equal :
      BinaryOperator
  shift_left shift_right shift_right_unsigned add subtract multiply divide remainder :
      BinaryOperator
  exponent bitwise_or bitwise_xor bitwise_and in_ instanceof : BinaryOperator

pub data NodeKind : Type 0 where
  literal : LiteralKind → NodeKind
  unary_expression : UnaryOperator → NodeKind
  update_expression : UpdateOperator → NodeKind
  logical_expression : LogicalOperator → NodeKind
  binary_expression : BinaryOperator → NodeKind
  sequence_expression assignment_expression arrow_function_expression yield_expression : NodeKind
  conditional_expression await_expression new_expression call_expression member_expression :
      NodeKind
  tagged_template_expression import_expression object_expression function_expression : NodeKind
  class_expression array_expression property spread_element template_literal : NodeKind
  ts_type_assertion ts_non_null_expression ts_as_expression ts_satisfies_expression : NodeKind
  ts_instantiation_expression ts_conditional_type ts_function_type ts_constructor_type : NodeKind
  ts_union_type ts_intersection_type ts_type_operator ts_infer_type ts_array_type : NodeKind
  ts_indexed_access_type ts_optional_type ts_rest_type : NodeKind
  expression_statement for_statement for_in_statement for_of_statement : NodeKind
  export_default_declaration decorator variable_declarator assignment_pattern : NodeKind
  return_statement throw_statement jsx_expression_container jsx_spread_attribute : NodeKind
  jsx_spread_child property_definition accessor_property ts_abstract_property_definition : NodeKind
  ts_abstract_accessor_property ts_enum_member : NodeKind
  unlisted : ℕ → NodeKind

-- The bits `Prefix`, `Parenthesized` and `Expression`.
pub record Flags : Type 0 where
  pub prefix : Bool
  pub parenthesized : Bool
  pub expression : Bool

mutual
  pub data Node : Type 0 where
    node : NodeKind → Flags → Bytes → Children → Node

  -- A child may be a null pointer.
  pub data Children : Type 0 where
    no_children : Children
    child : Node → Children → Children
    null_child : Children → Children

abbrev pub kind : Node → NodeKind
kind (node k f t cs) = k

abbrev pub flags : Node → Flags
flags (node k f t cs) = f

pub count : Children → ℕ
count no_children = 0
count (child n cs) = 1 + count cs
count (null_child cs) = 1 + count cs
