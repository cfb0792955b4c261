-- ===== src/Ast/Levels.antt =====
-- source/fastlint/ast/precedence.cc: the levels of expressions and types, and the tests on a node.
use fastlint.Base.{ℕ, Bool, true, false, not, ◌&&◌, ◌||◌, [], ◌∷◌, Bytes, leb, ◌==◌, if◌then◌else◌}
use fastlint.Ast.Node.{
  number, UnaryOperator, minus, plus, decrement, LogicalOperator, or_, and_, nullish,
  BinaryOperator, equal, not_equal, strict_equal, strict_not_equal, less, less_equal, greater,
  greater_equal, shift_left, shift_right, shift_right_unsigned, add, subtract, multiply, divide,
  remainder, exponent, bitwise_or, bitwise_xor, bitwise_and, in_, instanceof, NodeKind, literal,
  unary_expression, update_expression, logical_expression, binary_expression, sequence_expression,
  assignment_expression, arrow_function_expression, yield_expression, conditional_expression,
  await_expression, new_expression, call_expression, member_expression, tagged_template_expression,
  import_expression, object_expression, function_expression, class_expression, ts_type_assertion,
  ts_non_null_expression, ts_as_expression, ts_satisfies_expression, ts_instantiation_expression,
  ts_conditional_type, ts_function_type, ts_constructor_type, ts_union_type, ts_intersection_type,
  ts_type_operator, ts_infer_type, ts_array_type, ts_indexed_access_type, ts_optional_type, Flags,
  Node, node, Children, child, count,
}

abbrev pub sequence_level : ℕ
sequence_level = 1

abbrev pub assignment_level : ℕ
assignment_level = 2

abbrev pub conditional_level : ℕ
conditional_level = 3

abbrev pub unary_level : ℕ
unary_level = 15

abbrev pub postfix_level : ℕ
postfix_level = 16

abbrev pub new_without_args_level : ℕ
new_without_args_level = 17

abbrev pub call_level : ℕ
call_level = 18

abbrev pub primary_level : ℕ
primary_level = 19

unfoldable pub binary_precedence : BinaryOperator → ℕ
binary_precedence bitwise_or = 6
binary_precedence bitwise_xor = 7
binary_precedence bitwise_and = 8
binary_precedence equal = 9
binary_precedence not_equal = 9
binary_precedence strict_equal = 9
binary_precedence strict_not_equal = 9
binary_precedence less = 10
binary_precedence less_equal = 10
binary_precedence greater = 10
binary_precedence greater_equal = 10
binary_precedence in_ = 10
binary_precedence instanceof = 10
binary_precedence shift_left = 11
binary_precedence shift_right = 11
binary_precedence shift_right_unsigned = 11
binary_precedence add = 12
binary_precedence subtract = 12
binary_precedence multiply = 13
binary_precedence divide = 13
binary_precedence remainder = 13
binary_precedence exponent = 14

unfoldable pub logical_precedence : LogicalOperator → ℕ
logical_precedence and_ = 5
logical_precedence or_ = 4
logical_precedence nullish = 4

abbrev pub is_binary_like : NodeKind → Bool
is_binary_like (binary_expression op) = true
is_binary_like (logical_expression op) = true
is_binary_like _ = false

-- Only asked of a binary or logical node.
unfoldable pub operator_precedence : NodeKind → ℕ
operator_precedence (binary_expression op) = binary_precedence op
operator_precedence (logical_expression op) = logical_precedence op
operator_precedence _ = 0

abbrev pub is_nullish : NodeKind → Bool
is_nullish (logical_expression nullish) = true
is_nullish _ = false

abbrev pub is_or_and : NodeKind → Bool
is_or_and (logical_expression or_) = true
is_or_and (logical_expression and_) = true
is_or_and _ = false

-- The loop over the spelling.
unfoldable pub has_no_mark : Bytes → Bool
has_no_mark [] = true
has_no_mark (c ∷ s) =
    not (
      c == b'.'
      || c == b'e'
      || c == b'E'
      || c == b'x'
      || c == b'X'
      || c == b'o'
      || c == b'O'
      || c == b'b'
      || c == b'B'
      || c == b'n')
    && has_no_mark s

unfoldable pub is_bare_integer : Node → Bool
is_bare_integer (node (literal number) f text cs) = has_no_mark text
is_bare_integer _ = false

-- A `new` has two slots before its arguments: what it calls, and the type arguments.
unfoldable pub is_new_without_args : Children → Bool
is_new_without_args cs = leb (count cs) 2

abbrev pub is_sign : UnaryOperator → Bool
is_sign minus = true
is_sign plus = true
is_sign _ = false

unfoldable pub is_sign_unary : Node → Bool
is_sign_unary (node (unary_expression op) f text cs) = is_sign op
is_sign_unary (node (update_expression op) f text cs) = f.prefix
is_sign_unary _ = false

-- `-` as true and `+` as false; only asked of a sign.
unfoldable pub leads_with_minus : NodeKind → Bool
leads_with_minus (unary_expression minus) = true
leads_with_minus (update_expression decrement) = true
leads_with_minus _ = false

-- The kinds whose text starts with that of the first child.
abbrev pub first_is_leftmost : NodeKind → Flags → Bool
first_is_leftmost member_expression f = true
first_is_leftmost call_expression f = true
first_is_leftmost tagged_template_expression f = true
first_is_leftmost (binary_expression op) f = true
first_is_leftmost (logical_expression op) f = true
first_is_leftmost assignment_expression f = true
first_is_leftmost conditional_expression f = true
first_is_leftmost sequence_expression f = true
first_is_leftmost ts_as_expression f = true
first_is_leftmost ts_satisfies_expression f = true
first_is_leftmost ts_non_null_expression f = true
first_is_leftmost ts_instantiation_expression f = true
first_is_leftmost (update_expression op) f = not f.prefix
first_is_leftmost _ f = false

-- The loop of `startsWith`, for the kinds of which `wanted` is true.
unfoldable mutual
  pub starts_with_kind : (NodeKind → Bool) → Node → Bool
  starts_with_kind wanted (node k f text cs) =
      let inside = first_starts wanted cs in
      wanted k || (not f.parenthesized && first_is_leftmost k f && inside)

  pub first_starts : (NodeKind → Bool) → Children → Bool
  first_starts wanted (child n cs) = starts_with_kind wanted n
  first_starts wanted _ = false

abbrev pub is_object : NodeKind → Bool
is_object object_expression = true
is_object _ = false

abbrev pub is_function : NodeKind → Bool
is_function function_expression = true
is_function _ = false

abbrev pub is_class : NodeKind → Bool
is_class class_expression = true
is_class _ = false

abbrev pub is_call : NodeKind → Bool
is_call call_expression = true
is_call _ = false

unfoldable pub expression_precedence : Node → ℕ
expression_precedence (node k f text cs) = elim k [
  | sequence_expression ↦ sequence_level
  | assignment_expression ↦ assignment_level
  | arrow_function_expression ↦ assignment_level
  | yield_expression ↦ assignment_level
  | conditional_expression ↦ conditional_level
  | binary_expression op ↦ binary_precedence op
  | logical_expression op ↦ logical_precedence op
  | unary_expression op ↦ unary_level
  | await_expression ↦ unary_level
  | ts_type_assertion ↦ unary_level
  | update_expression op ↦ if f.prefix then unary_level else postfix_level
  | ts_non_null_expression ↦ postfix_level
  | ts_as_expression ↦ 10
  | ts_satisfies_expression ↦ 10
  | new_expression ↦ if is_new_without_args cs then new_without_args_level else call_level
  | call_expression ↦ call_level
  | member_expression ↦ call_level
  | tagged_template_expression ↦ call_level
  | ts_instantiation_expression ↦ call_level
  | import_expression ↦ call_level
  | _ ↦ primary_level
]

unfoldable pub type_precedence : NodeKind → ℕ
type_precedence ts_conditional_type = 1
type_precedence ts_function_type = 2
type_precedence ts_constructor_type = 2
type_precedence ts_union_type = 3
type_precedence ts_intersection_type = 4
type_precedence ts_type_operator = 5
type_precedence ts_infer_type = 5
type_precedence ts_array_type = 6
type_precedence ts_indexed_access_type = 6
type_precedence ts_optional_type = 6
type_precedence _ = 7
