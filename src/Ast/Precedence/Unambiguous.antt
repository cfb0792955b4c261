-- ===== src/Ast/Precedence/Unambiguous.antt =====
-- source/fastlint/ast/precedence.cc: a chain of two operators is printed from one tree only.
use fastlint.Base.{
  ℕ, ◌≤◌, ◌≡◌, refl, Bool, true, false, not, ◌||◌, some, arith, Bytes, ltb, leb, ◌==◌,
  if◌then◌else◌,
}
use fastlint.Ast.Node.{
  LogicalOperator, BinaryOperator, NodeKind, logical_expression, binary_expression, Flags, node,
  Children,
}
use fastlint.Ast.Levels.{
  binary_precedence, logical_precedence, operator_precedence, expression_precedence, is_binary_like,
}
use fastlint.Ast.Precedence.{
  is_exponent, mixes_nullish, operand_needs_parens, expression_needs_parens, Categories,
  needs_parens,
}

-- An operator with two operands.
pub data Operator : Type 0 where
  binary : BinaryOperator → Operator
  logical : LogicalOperator → Operator

abbrev pub operator_kind : Operator → NodeKind
operator_kind (binary op) = binary_expression op
operator_kind (logical op) = logical_expression op

abbrev pub level : Operator → ℕ
level o = operator_precedence (operator_kind o)

binary-exponent :
    (op : BinaryOperator) → is_exponent (binary_expression op) ≡ (binary_precedence op == 14)
unfolding binary_precedence
binary-exponent op = ground arith

level-exponent : (o : Operator) → is_exponent (operator_kind o) ≡ (level o == 14)
unfolding operator_precedence logical_precedence
level-exponent (binary op) = binary-exponent op
level-exponent (logical op) = ground arith

binary_bound : (op : BinaryOperator) → binary_precedence op ≤ 14
unfolding binary_precedence
binary_bound op = ground arith

level_bound : (o : Operator) → level o ≤ 14
unfolding operator_precedence logical_precedence
level_bound (binary op) = binary_bound op
level_bound (logical op) = ground arith

expression_precedence-level :
    (o : Operator) (f : Flags) (text : Bytes) (cs : Children)
    → expression_precedence (node (operator_kind o) f text cs) ≡ level o
unfolding expression_precedence operator_precedence
expression_precedence-level (binary op) f text cs = refl
expression_precedence-level (logical op) f text cs = refl

-- The operand on the left, and the one on the right, where `??` does not meet `||` or `&&`.
left_parens :
    (p c : Operator) (f : Flags) (text : Bytes) (cs : Children)
    → operand_needs_parens (operator_kind p) 0 (node (operator_kind c) f text cs) ≡ (
        mixes_nullish (operator_kind p) (operator_kind c)
        || (if level p == 14 then leb (level c) (level p) else ltb (level c) (level p)))
unfolding operand_needs_parens
left_parens p c f text cs =
    rw (expression_precedence-level c f text cs, level-exponent p)
      (ground (arith, level_bound c, binary_like c))
  where
    binary_like : (o : Operator) → is_binary_like (operator_kind o) ≡ true
    binary_like (binary op) = refl
    binary_like (logical op) = refl

right_parens :
    (p c : Operator) (f : Flags) (text : Bytes) (cs : Children)
    → operand_needs_parens (operator_kind p) 1 (node (operator_kind c) f text cs) ≡ (
        mixes_nullish (operator_kind p) (operator_kind c)
        || (if level p == 14 then ltb (level c) (level p) else leb (level c) (level p)))
unfolding operand_needs_parens
right_parens p c f text cs =
    rw (expression_precedence-level c f text cs, level-exponent p) (ground (arith, binary_like c))
  where
    binary_like : (o : Operator) → is_binary_like (operator_kind o) ≡ true
    binary_like (binary op) = refl
    binary_like (logical op) = refl

mixes_nullish_comm : (k l : NodeKind) → mixes_nullish k l ≡ mixes_nullish l k
mixes_nullish_comm k l = ground arith

levels_opposed :
    (p c : ℕ)
    → p ≤ 14
    → c ≤ 14
    → (if p == 14 then leb c p else ltb c p) ≡ not (if c == 14 then ltb p c else leb p c)
levels_opposed p c h k = ground arith

-- Of an operator's kinds the table says that they are expressions and no types.
abbrev pub Expressions : Categories → Type 0
Expressions categories =
    (o : Operator)
    → (categories.is_type (operator_kind o) ≡ false)
      × (categories.is_expression (operator_kind o) ≡ true)

needs_parens-operand :
    (categories : Categories) (p c : Operator) (index : ℕ) (f g : Flags) (text word : Bytes)
    (cs ds : Children)
    → Expressions categories
    → needs_parens categories
        (some (node (operator_kind p) f text cs))
        (some index)
        (some (node (operator_kind c) g word ds))
      ≡ operand_needs_parens (operator_kind p) index (node (operator_kind c) g word ds)
unfolding needs_parens
needs_parens-operand categories p c index f g text word cs ds h = rw ((h c).0, (h c).1) (parent p)
  where
    parent :
        (p : Operator)
        → expression_needs_parens
            (node (operator_kind p) f text cs)
            index
            (node (operator_kind c) g word ds)
          ≡ operand_needs_parens (operator_kind p) index (node (operator_kind c) g word ds)
    parent (binary op) = unfold expression_needs_parens in refl
    parent (logical op) = unfold expression_needs_parens in refl

-- With a table that makes operators expressions and no types: of the two trees for `a first b second c`, exactly one is printed without parentheses, unless `??`
-- meets `||` or `&&`: then both have them. Here `first` under the left of `second` needs none exactly
-- when `second` under the right of `first` does.
pub needs_parens_unambiguous :
    (categories : Categories) (first second : Operator) (f g : Flags) (text word : Bytes)
    (cs ds : Children)
    → Expressions categories
    → let first_node = node (operator_kind first) f text cs in
      let second_node = node (operator_kind second) g word ds in
      let left = needs_parens categories (some second_node) (some 0) (some first_node) in
      let right = needs_parens categories (some first_node) (some 1) (some second_node) in
      let mixed = mixes_nullish (operator_kind first) (operator_kind second) in
      (left ≡ (mixed || not right)) × (right ≡ (mixed || not left))
needs_parens_unambiguous categories first second f g text word cs ds h =
    let opposed =
      levels_opposed (level second) (level first) (level_bound second) (level_bound first) in
    rw
      (
        needs_parens-operand categories second first 0 g f word text ds cs h,
        needs_parens-operand categories first second 1 f g text word cs ds h,
        left_parens second first f text cs,
        right_parens first second g word ds,
        mixes_nullish_comm (operator_kind second) (operator_kind first),
        opposed,
      )
      (both (mixes_nullish (operator_kind first) (operator_kind second)) _)
  where
    both :
        (mixed r : Bool)
        → ((mixed || not r) ≡ (mixed || not (mixed || r)))
          × ((mixed || r) ≡ (mixed || not (mixed || not r)))
    both mixed r = ground arith
