-- ===== src/Ast/Precedence.antt =====
-- source/fastlint/ast/precedence.cc: which operands the printer puts in parentheses.
-- The categories of a kind are a table that a tool generates: a parameter.
pub mod Unambiguous
use fastlint.Base.{
  ℕ, zero, suc, Bool, true, false, not, ◌&&◌, ◌||◌, Option, none, some, [], ◌∷◌, Bytes, ltb, leb,
  ◌==◌, if◌then◌else◌,
}
use fastlint.Ast.Node.{
  LiteralKind, string, number, bigint, boolean, null, regex, UnaryOperator, minus, plus, not_,
  bitwise_not, typeof, void_, delete, UpdateOperator, increment, decrement, LogicalOperator, or_,
  and_, nullish, BinaryOperator, equal, not_equal, strict_equal, strict_not_equal, less, less_equal,
  greater, greater_equal, shift_left, shift_right, shift_right_unsigned, add, subtract, multiply,
  divide, remainder, exponent, bitwise_or, bitwise_xor, bitwise_and, in_, instanceof, NodeKind,
  literal, unary_expression, update_expression, logical_expression, binary_expression,
  sequence_expression, assignment_expression, arrow_function_expression, yield_expression,
  conditional_expression, await_expression, new_expression, call_expression, member_expression,
  tagged_template_expression, import_expression, object_expression, function_expression,
  class_expression, array_expression, property, spread_element, template_literal, ts_type_assertion,
  ts_non_null_expression, ts_as_expression, ts_satisfies_expression, ts_instantiation_expression,
  ts_conditional_type, ts_function_type, ts_constructor_type, ts_union_type, ts_intersection_type,
  ts_type_operator, ts_infer_type, ts_array_type, ts_indexed_access_type, ts_optional_type,
  ts_rest_type, expression_statement, for_statement, for_in_statement, for_of_statement,
  export_default_declaration, decorator, variable_declarator, assignment_pattern, return_statement,
  throw_statement, jsx_expression_container, jsx_spread_attribute, jsx_spread_child,
  property_definition, accessor_property, ts_abstract_property_definition,
  ts_abstract_accessor_property, ts_enum_member, unlisted, Flags, Node, node, Children, no_children,
  child, null_child, kind, flags, count,
}
use fastlint.Ast.Levels.{
  sequence_level, assignment_level, conditional_level, unary_level, postfix_level,
  new_without_args_level, call_level, primary_level, binary_precedence, logical_precedence,
  is_binary_like, operator_precedence, is_nullish, is_or_and, has_no_mark, is_bare_integer,
  is_new_without_args, is_sign, is_sign_unary, leads_with_minus, first_is_leftmost,
  starts_with_kind, first_starts, is_object, is_function, is_class, is_call, expression_precedence,
  type_precedence,
}

-- The switch for a child that is a type of the level `c`.
unfoldable pub type_needs_parens : NodeKind → ℕ → ℕ → Bool
type_needs_parens ts_array_type index c = ltb c 6
type_needs_parens ts_optional_type index c = ltb c 6
type_needs_parens ts_indexed_access_type index c = index == 0 && ltb c 6
type_needs_parens ts_union_type index c = ltb c 3
type_needs_parens ts_intersection_type index c = ltb c 4
type_needs_parens ts_type_operator index c = ltb c 5
type_needs_parens ts_rest_type index c = ltb c 5
type_needs_parens ts_conditional_type index c = ltb index 2 && leb c 2
type_needs_parens _ index c = false

abbrev pub is_exponent : NodeKind → Bool
is_exponent (binary_expression exponent) = true
is_exponent _ = false

-- `??` beside `||` or `&&` is a syntax error without parentheses.
abbrev pub mixes_nullish : NodeKind → NodeKind → Bool
mixes_nullish p c = (is_nullish p && is_or_and c) || (is_or_and p && is_nullish c)

-- The case of a binary or logical parent.
unfoldable pub operand_needs_parens : NodeKind → ℕ → Node → Bool
operand_needs_parens parent index operand =
    let c = expression_precedence operand in
    let p = operator_precedence parent in
    if is_binary_like (kind operand) && mixes_nullish parent (kind operand)
    then true
    else if index == 0
    then (if is_exponent parent && c == unary_level
        then true
        else if is_exponent parent
        then leb c p
        else ltb c p)
    else if is_exponent parent
    then ltb c p
    else leb c p

unfoldable pub argument_needs_parens : Node → Node → Bool
argument_needs_parens parent argument =
    (is_sign_unary parent
      && is_sign_unary argument
      && (if leads_with_minus (kind parent)
          then leads_with_minus (kind argument)
          else not (leads_with_minus (kind argument))))
    || ltb (expression_precedence argument) unary_level

-- The switch for a child that is an expression.
unfoldable pub expression_needs_parens : Node → ℕ → Node → Bool
expression_needs_parens parent index operand =
    let c = expression_precedence operand in
    let in_sequence = leb c sequence_level in
    let starts_statement =
      starts_with_kind is_object operand
      || starts_with_kind is_function operand
      || starts_with_kind is_class operand in
    elim (kind parent) [
      | binary_expression op ↦ operand_needs_parens (kind parent) index operand
      | logical_expression op ↦ operand_needs_parens (kind parent) index operand
      | unary_expression op ↦ argument_needs_parens parent operand
      | await_expression ↦ ltb c unary_level
      | ts_type_assertion ↦ ltb c unary_level
      | update_expression op ↦ ltb c call_level
      | member_expression ↦ index == 0 && (ltb c call_level || is_bare_integer operand)
      | call_expression ↦ if index == 0 then ltb c call_level else in_sequence
      | tagged_template_expression ↦ if index == 0 then ltb c call_level else in_sequence
      | ts_non_null_expression ↦ if index == 0 then ltb c postfix_level else in_sequence
      | ts_instantiation_expression ↦ if index == 0 then ltb c call_level else in_sequence
      | new_expression ↦
          if index == 0 then ltb c call_level || starts_with_kind is_call operand else in_sequence
      | conditional_expression ↦
          if index == 0 then leb c conditional_level else ltb c assignment_level
      | ts_as_expression ↦ ltb c 10
      | ts_satisfies_expression ↦ ltb c 10
      | sequence_expression ↦ in_sequence
      | expression_statement ↦ if in_sequence then false else starts_statement
      | arrow_function_expression ↦
          if index == 3 && (flags parent).expression
          then in_sequence || starts_with_kind is_object operand
          else false
      | for_in_statement ↦ index == 1 && in_sequence
      | for_of_statement ↦ index == 1 && in_sequence
      | export_default_declaration ↦ in_sequence
      | decorator ↦ ltb c call_level
      | array_expression ↦ in_sequence
      | object_expression ↦ in_sequence
      | property ↦ in_sequence
      | spread_element ↦ in_sequence
      | variable_declarator ↦ in_sequence
      | assignment_expression ↦ in_sequence
      | assignment_pattern ↦ in_sequence
      | return_statement ↦ in_sequence
      | throw_statement ↦ in_sequence
      | yield_expression ↦ in_sequence
      | template_literal ↦ in_sequence
      | import_expression ↦ in_sequence
      | jsx_expression_container ↦ in_sequence
      | jsx_spread_attribute ↦ in_sequence
      | jsx_spread_child ↦ in_sequence
      | property_definition ↦ in_sequence
      | accessor_property ↦ in_sequence
      | ts_abstract_property_definition ↦ in_sequence
      | ts_abstract_accessor_property ↦ in_sequence
      | ts_enum_member ↦ in_sequence
      | _ ↦ false
    ]

-- `hasCategory`.
pub record Categories : Type 0 where
  pub is_type : NodeKind → Bool
  pub is_expression : NodeKind → Bool

-- A null parent or child is `none`, and so is a negative index.
unfoldable pub needs_parens : Categories → Option Node → Option ℕ → Option Node → Bool
needs_parens categories (some parent) (some index) (some operand) =
    if categories.is_type (kind operand)
    then type_needs_parens (kind parent) index (type_precedence (kind operand))
    else if not (categories.is_expression (kind operand))
    then false
    else expression_needs_parens parent index operand
needs_parens categories _ _ _ = false
